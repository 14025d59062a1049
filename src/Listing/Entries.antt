-- ===== src/Listing/Entries.antt =====
-- The formats of a camera as video ranges: what the client's entries and the server's list have of them.
use camera_udp.Base.{
  zero, Option, none, ltb, ◌==◌, ◌&&◌, if◌then◌else◌, ℕ, suc, ◌+◌, ◌*◌, ◌/◌, ◌%◌, ◌^◌, ◌≤◌, ◌<◌,
  ◌≡◌, ◌≢◌, subst, ◌∙◌, ◌⊎◌, true, List, [], ◌∷◌, ◌++◌, some, arith, length, length-read,
  get_or-read, copy_inside, Memory, copy, read,
}
use camera_udp.Formats.{ulong_at, align_data_range}
use camera_udp.Listing.{
  VideoRange, Pin, Device, Machine, frames_per_second, vfi_bytes, is_wanted, ulong_bytes,
}
use camera_udp.Listing.Ranges.{Holds, Holds-append, ulong_at-Holds}

-- The fields of VFI at an address are those of the range, cut to their bits.
abbrev pub EntryAt : Memory → ℕ → VideoRange → Type 0
EntryAt m at v =
    (ulong_at m at ≡ v.bi_compression % 2 ^ 32)
    × (ulong_at m (at + 4) % 4096 ≡ v.bi_width % 4096)
    × (ulong_at m (at + 4) / 4096 % 4096 ≡ v.bi_height % 4096)
    × (ulong_at m (at + 4) / 16777216 % 64 ≡ frames_per_second v.avg_time_per_frame % 64)

-- Entries one behind the other.
abbrev pub EntriesAt : Memory → ℕ → List VideoRange → Type 0
EntriesAt m at [] = Unit {0}
EntriesAt m at (v ∷ vs) = EntryAt m at v × EntriesAt m (at + 8) vs

pub EntryAt-vfi_bytes :
    (m : Memory) (at old : ℕ) (v : VideoRange) → Holds m at (vfi_bytes old v) → EntryAt m at v
unfolding vfi_bytes
EntryAt-vfi_bytes m at old v h =
    let fps = frames_per_second v.avg_time_per_frame in
    let w = v.bi_width % 4096 in
    let x = v.bi_height % 4096 in
    let word = w + 4096 * x + 2 ^ 24 * (fps % 64) + 2 ^ 30 * (old / 64 % 4) in
    let (a, b) = Holds-append m at (ulong_bytes v.bi_compression) (ulong_bytes word) h in
    let e = ulong_at-Holds m at v.bi_compression a in
    let e' = ulong_at-Holds m (at + 4) word b in
    (e, omega (arith, e'), omega (arith, e'), omega (arith, e'))

pub EntriesAt-append :
    (m : Memory) (at : ℕ) (vs ws : List VideoRange)
    → EntriesAt m at vs
    → EntriesAt m (at + 8 * length vs) ws
    → EntriesAt m at (vs ++ ws)
EntriesAt-append m at [] ws h g =
    let e : at + 8 * 0 ≡ at = omega arith in subst (λ p. EntriesAt m p ws) e g
EntriesAt-append m at (v ∷ vs) ws (n, h) g =
    let e : at + 8 * suc (length vs) ≡ at + 8 + 8 * length vs = omega arith in
    (n, EntriesAt-append m (at + 8) vs ws h (subst (λ p. EntriesAt m p ws) e g))

-- What was copied is as it was.
pub copy_byte :
    (m : Memory) (to from size i : ℕ)
    → i < size
    → copy m to (read m from size) (to + i) ≡ m (from + i)
copy_byte m to from size i l =
    let inside : i < length (read m from size) = omega (arith, length-read m from size) in
    copy_inside m to (read m from size) i inside ∙ get_or-read m from size i l

abbrev pub AllOf : (VideoRange → Type 0) → List VideoRange → Type 0
AllOf Q [] = Unit {0}
AllOf Q (v ∷ vs) = Q v × AllOf Q vs

pub AllOf-append :
    (Q : VideoRange → Type 0) (vs ws : List VideoRange)
    → AllOf Q vs
    → AllOf Q ws
    → AllOf Q (vs ++ ws)
AllOf-append Q [] ws h g = g
AllOf-append Q (v ∷ vs) ws (q, h) g = (q, AllOf-append Q vs ws h g)

abbrev pub IsIn : Pin → List Pin → Type 0
IsIn pin [] = ⊥
IsIn pin (p ∷ ps) = (pin ≡ p) ⊎ IsIn pin ps

module _ (machine : Machine) where
  -- A range that CreateInfo wants, in an answer of a driver for a pin of the camera.
  pub record IsOffered (device : Device) (v : VideoRange) : Type 0 where
    pub pin : Pin
    pub of : IsIn pin device.pins
    pub room : ℕ
    pub bytes : List ℕ
    pub answer : pin.data_ranges room ≡ some bytes
    pub memory : Memory
    pub at : ℕ
    pub place : ℕ
    pub holds : Holds memory at bytes
    pub low : at + 8 ≤ place
    pub high : place + machine.size_video ≤ at + length bytes
    pub is : machine.video_at memory place ≡ v
    pub wanted : is_wanted machine v ≡ true

  -- What KS_DATARANGE_VIDEO has in memory: its size first, and nothing of it lies elsewhere. A driver's
  -- YUY2 range has a compression other than 0.
  pub record IsDdk : Type 0 where
    pub large : 64 ≤ machine.size_video
    pub small : machine.size_video < 2 ^ 31
    pub first : (m : Memory) (a : ℕ) → (machine.video_at m a).format_size ≡ ulong_at m a
    pub plain :
        (m m' : Memory) (a a' : ℕ)
        → ((i : ℕ) → i < machine.size_video → m (a + i) ≡ m' (a' + i))
        → machine.video_at m a ≡ machine.video_at m' a'
    pub compressed :
        (x : ℕ) (v : VideoRange)
        → IsOffered (machine.device x) v
        → (v.bi_compression ≢ 0) × (v.bi_compression < 2 ^ 32)

  -- Copies of the ranges, one behind the other.
  abbrev pub RangesAt : Memory → ℕ → List VideoRange → Type 0
  RangesAt m at [] = Unit {0}
  RangesAt m at (v ∷ vs) = (machine.video_at m at ≡ v) × RangesAt m (at + machine.size_video) vs

  pub RangesAt-append :
      (m : Memory) (at : ℕ) (vs ws : List VideoRange)
      → RangesAt m at vs
      → RangesAt m (at + length vs * machine.size_video) ws
      → RangesAt m at (vs ++ ws)
  RangesAt-append m at [] ws h g =
      let e : at + 0 * machine.size_video ≡ at = omega arith in subst (λ p. RangesAt m p ws) e g
  RangesAt-append m at (v ∷ vs) ws (n, h) g =
      let e : at + suc (length vs) * machine.size_video
          ≡ at + machine.size_video + length vs * machine.size_video =
        omega arith in
      (n, RangesAt-append m (at + machine.size_video) vs ws h (subst (λ p. RangesAt m p ws) e g))

  pub RangesAt-eq :
      (m m' : Memory) (at : ℕ) (vs : List VideoRange)
      → IsDdk
      → ((i : ℕ) → at ≤ i → i < at + length vs * machine.size_video → m' i ≡ m i)
      → RangesAt m at vs
      → RangesAt m' at vs
  RangesAt-eq m m' at [] d same h = tt
  RangesAt-eq m m' at (v ∷ vs) d same (n, h) = (
    d.plain m' m at at (λ i l. same (at + i) (omega arith) (omega arith)) ∙ n,
    RangesAt-eq m m' (at + machine.size_video) vs d (λ i p q. same i (omega arith) (omega arith)) h,
  )

  -- The range, if CreateInfo wants it.
  abbrev pub choice : VideoRange → List VideoRange
  choice v = if is_wanted machine v then v ∷ [] else []

  -- The ranges that CreateInfo wants among `count` ranges from `pc` on, in order.
  abbrev pub wanted_from : Memory → (count pc : ℕ) → List VideoRange
  wanted_from m zero pc = []
  wanted_from m (suc count) pc =
      choice (machine.video_at m pc)
      ++ wanted_from m count (pc + align_data_range (ulong_at m pc) % 2 ^ 32)

  -- Those of an answer of `size` bytes: the size and the count, and the ranges.
  abbrev pub answer_ranges : Memory → (at size : ℕ) → List VideoRange
  answer_ranges m at size =
      if ulong_at m (at + 4) == 0
      then []
      else if ltb 8 (ulong_at m at) && (ulong_at m at == size)
      then wanted_from m (ulong_at m (at + 4)) (at + 8)
      else []

  abbrev pub OfAnswer : Option (List ℕ) → List VideoRange → Type 0
  OfAnswer none vs = vs ≡ []
  OfAnswer (some bytes) vs =
      (m : Memory) × (at : ℕ) × Holds m at bytes × (vs ≡ answer_ranges m at (length bytes))

  -- All wanted ranges of the answers for the capture pins, pin by pin.
  abbrev pub OfPins : List Pin → List VideoRange → Type 0
  OfPins [] vs = vs ≡ []
  OfPins (pin ∷ pins) vs =
      if pin.flows_out && pin.captures
      then ((room : ℕ) × (xs : List VideoRange) × (ys : List VideoRange) × OfAnswer
            (pin.data_ranges room) xs
          × OfPins pins ys
          × (vs ≡ xs ++ ys))
      else OfPins pins vs
