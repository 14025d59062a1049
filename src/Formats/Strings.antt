-- ===== src/Formats/Strings.antt =====
-- A list of strings in memory, as its lengths, and what the loops over it find.
use camera_udp.Base.{
  ℕ, zero, suc, ◌+◌, ◌*◌, ◌<◌, ◌≡◌, ◌≢◌, refl, ap, ◌∙◌, false, List, [], ◌∷◌, some, arith, length,
  ◌==◌, Memory, ==_of_eq, ==_of_ne,
}
use camera_udp.Formats.{wchar_at, wcs_end, then_at, get_strings_end}

-- `n` characters other than 0, and a 0.
abbrev pub StringAt : Memory → ℕ → ℕ → Type 0
StringAt m at zero = wchar_at m at ≡ 0
StringAt m at (suc n) = (wchar_at m at ≢ 0) × StringAt m (at + 2) n

-- Strings of the lengths, each with a character, and an empty one.
abbrev pub StringsAt : Memory → ℕ → List ℕ → Type 0
StringsAt m at [] = wchar_at m at ≡ 0
StringsAt m at (n ∷ ns) = (0 < n) × StringAt m at n × StringsAt m (at + 2 * n + 2) ns

abbrev pub strings_size : List ℕ → ℕ
strings_size [] = 2
strings_size (n ∷ ns) = 2 * n + 2 + strings_size ns

abbrev pub AllBelow : ℕ → List ℕ → Type 0
AllBelow limit [] = Unit {0}
AllBelow limit (n ∷ ns) = (n < limit) × AllBelow limit ns

pub StringAt-first :
    (m : Memory) (at n : ℕ) → 0 < n → StringAt m at n → (wchar_at m at == 0) ≡ false
StringAt-first m at zero pos s = absurd (omega arith)
StringAt-first m at (suc n) pos (h, s) = ==_of_ne h

pub wcs_end-StringAt :
    (fuel : ℕ) (m : Memory) (at n : ℕ)
    → StringAt m at n
    → n < fuel
    → wcs_end fuel m at ≡ some (at + 2 * n)
unfolding wcs_end
wcs_end-StringAt zero m at n s lt = absurd (omega arith)
wcs_end-StringAt (suc fuel) m at zero s lt = rw (==_of_eq s) (ap some (omega arith))
wcs_end-StringAt (suc fuel) m at (suc n) (h, s) lt =
    let e : at + 2 + 2 * n ≡ at + 2 * suc n = omega arith in
    rw (==_of_ne h) (wcs_end-StringAt fuel m (at + 2) n s (omega arith) ∙ ap some e)

-- GetStringsEnd gives the address after the empty string that ends a list, if there are fewer strings
-- and shorter strings than steps.
pub get_strings_end-StringsAt :
    (fuel limit : ℕ) (m : Memory) (psz : ℕ) (ns : List ℕ)
    → StringsAt m psz ns
    → length ns < fuel
    → AllBelow limit ns
    → get_strings_end fuel limit m psz ≡ some (psz + strings_size ns)
unfolding get_strings_end then_at
get_strings_end-StringsAt zero limit m psz ns s lt all = absurd (omega arith)
get_strings_end-StringsAt (suc fuel) limit m psz [] s lt all = rw (==_of_eq s) refl
get_strings_end-StringsAt (suc fuel) limit m psz (n ∷ ns) (pos, s, ss) lt (few, all) =
    let rest = get_strings_end-StringsAt fuel limit m (psz + 2 * n + 2) ns ss (omega arith) all in
    let e : psz + 2 * n + 2 + strings_size ns ≡ psz + strings_size (n ∷ ns) = omega arith in
    rw (StringAt-first m psz n pos s, wcs_end-StringAt limit m psz n s few) (rest ∙ ap some e)
