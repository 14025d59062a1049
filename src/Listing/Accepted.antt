-- ===== src/Listing/Accepted.antt =====
-- ValidateFormats accepts the message that CreateInfo makes.
use camera_udp.Base.{
  ℕ, zero, suc, ◌+◌, ◌-◌, ◌*◌, ◌/◌, ◌%◌, ◌≤◌, ◌<◌, ◌≡◌, refl, sym, ap, subst, ◌∙◌, true, false,
  ◌||◌, List, [], ◌∷◌, some, arith, ltb, leb, ◌==◌, length, length-append, Memory, ==_of_eq,
  ==_of_ne,
}
use camera_udp.Formats.{
  wchar_at, ulong_at, then_at, align_vfi, skip_formats, validate_devices, validate_formats,
}
use camera_udp.Formats.Strings.{StringAt-first, wcs_end-StringAt}
use camera_udp.Listing.Ranges.{Holds, Holds-append, NonzeroAt}
use camera_udp.Listing.Built.{IsMessage}

skip_formats-NonzeroAt :
    (fuel : ℕ) (m : Memory) (pf end c : ℕ)
    → NonzeroAt 8 m pf c
    → ulong_at m (pf + 8 * c) ≡ 0
    → pf + 8 * c < end
    → c < fuel
    → skip_formats fuel m pf end ≡ some (pf + 8 * c)
unfolding skip_formats
skip_formats-NonzeroAt zero m pf end c h z lt few = absurd (omega arith)
skip_formats-NonzeroAt (suc fuel) m pf end zero h z lt few =
    let e : pf + 8 * 0 ≡ pf = omega arith in
    let here : (ulong_at m pf == 0) ≡ true = ==_of_eq (subst (λ p. ulong_at m p ≡ 0) e z) in
    let inside : ltb pf end ≡ true = ground arith in rw (here, inside) (ap some (sym e))
skip_formats-NonzeroAt (suc fuel) m pf end (suc c) (n, h) z lt few =
    let e : pf + 8 * suc c ≡ pf + 8 + 8 * c = omega arith in
    let inside : ltb pf end ≡ true = ground arith in
    rw (==_of_ne n, inside)
      (skip_formats-NonzeroAt fuel m (pf + 8) end c h (subst (λ p. ulong_at m p ≡ 0) e z)
          (omega arith) (omega arith)
        ∙ ap some (sym e))

record Sized (counts bytes : List ℕ) : Type 0 where
  least : 2 + 6 * length counts ≤ length bytes
  rest : length bytes % 4 ≡ 2

Sized-IsMessage : (counts bytes : List ℕ) → IsMessage counts bytes → Sized counts bytes
unfolding align_vfi
Sized-IsMessage [] bytes e =
    let l = ap length e in record { least = omega (arith, l); rest = omega (arith, l) }
Sized-IsMessage (c ∷ cs) bytes (chunk, rest, e, k, h) =
    let s = Sized-IsMessage cs rest h in
    let l = ap length e ∙ length-append chunk rest in
    record {
      least = omega (arith, l, k.size, k.some_char, s.least);
      rest = omega (arith, l, k.size, s.rest);
    }

-- The last bytes of a message.
last_name :
    (counts bytes : List ℕ) (m : Memory) (at : ℕ)
    → IsMessage counts bytes
    → Holds m at bytes
    → wchar_at m (at + length bytes - 2) ≡ 0
last_name [] bytes m at e h =
    let (a, (b, _)) = subst (Holds m at) e h in
    let place : at ≡ at + length bytes - 2 = omega (arith, ap length e) in
    subst (λ p. wchar_at m p ≡ 0) place (omega (arith, a, b))
last_name (c ∷ cs) bytes m at (chunk, rest, e, k, t) h =
    let (a, b) = Holds-append m at chunk rest (subst (Holds m at) e h) in
    let l = ap length e ∙ length-append chunk rest in
    let s = Sized-IsMessage cs rest t in
    let place : at + length chunk + length rest - 2 ≡ at + length bytes - 2 =
      omega (arith, l, s.least) in
    subst (λ p. wchar_at m p ≡ 0) place (last_name cs rest m (at + length chunk) t b)

last_formats :
    (counts bytes : List ℕ) (m : Memory) (at : ℕ)
    → 0 < length counts
    → at % 4 ≡ 0
    → IsMessage counts bytes
    → Holds m at bytes
    → ulong_at m (at + length bytes - 6) ≡ 0
unfolding align_vfi
last_formats [] bytes m at pos al e h = absurd (omega arith)
last_formats (c ∷ []) bytes m at pos al (chunk, rest, e, k, t) h =
    let (a, b) = Holds-append m at chunk rest (subst (Holds m at) e h) in
    let l = ap length e ∙ length-append chunk rest in
    let place : at + (2 * k.chars + 2 + 3) / 4 * 4 + 8 * c ≡ at + length bytes - 6 =
      omega (arith, l, k.size, ap length t) in
    subst (λ p. ulong_at m p ≡ 0) place (k.ending m at al a)
last_formats (c ∷ c' ∷ cs) bytes m at pos al (chunk, rest, e, k, t) h =
    let (a, b) = Holds-append m at chunk rest (subst (Holds m at) e h) in
    let l = ap length e ∙ length-append chunk rest in
    let s = Sized-IsMessage (c' ∷ cs) rest t in
    let place : at + length chunk + length rest - 6 ≡ at + length bytes - 6 =
      omega (arith, l, s.least) in
    subst (λ p. ulong_at m p ≡ 0) place
      (last_formats (c' ∷ cs) rest m (at + length chunk) (omega arith) (omega (arith, k.size)) t b)

validate_devices-IsMessage :
    (fuel limit : ℕ) (m : Memory) (at end : ℕ) (counts bytes : List ℕ)
    → IsMessage counts bytes
    → Holds m at bytes
    → at % 4 ≡ 0
    → end + 2 ≡ at + length bytes
    → length counts < fuel
    → length bytes ≤ limit
    → validate_devices fuel limit m at end ≡ some true
unfolding validate_devices then_at align_vfi
validate_devices-IsMessage zero limit m at end counts bytes i h al e lt big = absurd (omega arith)
validate_devices-IsMessage (suc fuel) limit m at end [] bytes i h al e lt big =
    let (a, (b, _)) = subst (Holds m at) i h in
    let z : wchar_at m at ≡ 0 = omega (arith, a, b) in rw (==_of_eq z) refl
validate_devices-IsMessage (suc fuel) limit m at end (c ∷ cs) bytes (chunk, rest, q, k, t) h al e lt
      big =
    let (a, b) = Holds-append m at chunk rest (subst (Holds m at) q h) in
    let l = ap length q ∙ length-append chunk rest in
    let s = Sized-IsMessage cs rest t in
    let least = s.least in
    let size = k.size in
    let str = k.string m at al a in
    let pf = at + (2 * k.chars + 2 + 3) / 4 * 4 in
    let start : (at + 2 * k.chars + 2 + 3) / 4 * 4 ≡ pf = omega (arith, al) in
    let stop =
      skip_formats-NonzeroAt limit m pf end c (k.entries m at al a) (k.ending m at al a)
        (omega (arith, l, size, least)) (omega (arith, l, size)) in
    let inside : leb end (pf + 8 * c) ≡ false = ground (arith, l, size, least) in
    let next : pf + 8 * c + 4 ≡ at + length chunk = omega (arith, size) in
    rw
      (
        StringAt-first m at k.chars k.some_char str,
        wcs_end-StringAt limit m at k.chars str (omega (arith, l, size)),
        start,
        stop,
        inside,
        next,
      )
      (validate_devices-IsMessage fuel limit m (at + length chunk) end cs rest t b
        (omega (arith, size)) (omega (arith, l)) (omega arith) (omega (arith, l)))

-- A message for one camera or more is accepted.
pub validate_formats-IsMessage :
    (m : Memory) (buf : ℕ) (counts bytes : List ℕ)
    → 0 < length counts
    → buf % 4 ≡ 0
    → IsMessage counts bytes
    → Holds m buf bytes
    → validate_formats (length bytes + 1) m buf (length bytes) ≡ some true
unfolding validate_formats
validate_formats-IsMessage m buf counts bytes pos al i h =
    let s = Sized-IsMessage counts bytes i in
    let cb = length bytes in
    let fits : ((cb % 2 == 1) || (cb % 4 == 0)) ≡ false = ground (arith, s.rest) in
    rw
      (
        fits,
        ==_of_eq (last_formats counts bytes m buf pos al i h),
        ==_of_eq (last_name counts bytes m buf i h),
      )
      (validate_devices-IsMessage (cb + 1) (cb + 1) m buf (buf + cb - 2) counts bytes i h al
        (omega (arith, s.least)) (omega (arith, s.least)) (omega arith))
