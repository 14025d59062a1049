-- ===== src/Listing/Picked.antt =====
-- What GetFormatInfo finds in the list that CreateInfo wrote for the server.
use camera_udp.Base.{
  zero, suc, ltb, get_elem?, if◌then◌else◌, Option, none, ◌*◌, ℕ, ◌+◌, ◌≡◌, List, [], ◌∷◌, some,
  Memory,
}
use camera_udp.Listing.{VideoRange, Machine}

module _ (machine : Machine) where
  -- Format `j` of camera `i`, and the place of the name of camera `i`.
  abbrev pub pick : List (List VideoRange) → (i j : ℕ) → Option VideoRange
  pick [] i j = none
  pick (vs ∷ vss) zero j = get_elem? vs j
  pick (vs ∷ vss) (suc i) j = pick vss i j

  abbrev pub name_at : (psz : ℕ) → List ℕ → ℕ → ℕ
  name_at psz [] i = psz
  name_at psz (n ∷ ns) zero = psz
  name_at psz (n ∷ ns) (suc i) = name_at (psz + 2 * n + 2) ns i

  -- The name, and a place that has the range; or nothing, where there is no range.
  abbrev pub Picks : Memory → (name : ℕ) → Option VideoRange → Option (ℕ × ℕ) → Type 0
  Picks m name none o = o ≡ none
  Picks m name (some v) o = (a : ℕ) × (o ≡ some (name, a)) × (machine.video_at m a ≡ v)

  place : (name at j n : ℕ) → Option (ℕ × ℕ)
  place name at j n = if ltb j n then some (name, at + j * machine.size_video) else none
