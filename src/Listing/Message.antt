-- ===== src/Listing/Message.antt =====
-- The client's message for one camera as bytes: a name, padding, the entries and a 0.
use camera_udp.Base.{
  ℕ, ◌+◌, ◌-◌, ◌*◌, ◌/◌, ◌%◌, ◌<◌, ◌≡◌, refl, subst, List, [], ◌∷◌, ◌++◌, Option, none, some, arith,
  length, length-append, Memory,
}
use camera_udp.Formats.{ulong_at, align_vfi}
use camera_udp.Formats.Strings.{StringAt}
use camera_udp.Listing.{Device, Lists, ulong_bytes}
use camera_udp.Listing.Ranges.{Holds, Holds-append, ulong_at-Holds, NonzeroAt}

-- The bytes of a string with `n` characters and the 0 at its end.
pub record IsName (bytes : List ℕ) : Type 0 where
  pub chars : ℕ
  pub some_char : 0 < chars
  pub size : length bytes ≡ 2 * chars + 2
  pub string : (m : Memory) (at : ℕ) → Holds m at bytes → StringAt m at chars

-- A camera's name is a string that is not empty.
abbrev pub IsNamed : Device → Type 0
IsNamed device = (n : ℕ) (name : List ℕ) → device.friendly_name n ≡ some name → IsName name

pub IsName-star : IsName (42 ∷ 0 ∷ 0 ∷ 0 ∷ [])
IsName-star = record {
  chars = 1;
  some_char = omega arith;
  size = refl;
  string = λ m at h. star m at h;
}
  where
    star : (m : Memory) (at : ℕ) → Holds m at (42 ∷ 0 ∷ 0 ∷ 0 ∷ []) → StringAt m at 1
    star m at (a, (b, (c, (d, _)))) =
        let e : at + 1 + 1 ≡ at + 2 = omega arith in
        let c' = subst (λ p. m p ≡ 0) e c in
        let e' : at + 1 + 1 + 1 ≡ at + 2 + 1 = omega arith in
        let d' = subst (λ p. m p ≡ 0) e' d in
        ((λ z. absurd (omega (arith, a, b, z))), omega (arith, c', d'))

-- The bytes for a camera with `count` formats, at a multiple of four.
pub record IsChunk (count : ℕ) (bytes : List ℕ) : Type 0 where
  pub chars : ℕ
  pub some_char : 0 < chars
  pub size : length bytes ≡ align_vfi (2 * chars + 2) + 8 * count + 4
  pub string : (m : Memory) (at : ℕ) → at % 4 ≡ 0 → Holds m at bytes → StringAt m at chars
  pub entries :
      (m : Memory) (at : ℕ)
      → at % 4 ≡ 0
      → Holds m at bytes
      → NonzeroAt 8 m (at + align_vfi (2 * chars + 2)) count
  pub ending :
      (m : Memory) (at : ℕ)
      → at % 4 ≡ 0
      → Holds m at bytes
      → ulong_at m (at + align_vfi (2 * chars + 2) + 8 * count) ≡ 0

pub length-parts :
    (name pad formats : List ℕ)
    → length (name ++ pad ++ formats ++ ulong_bytes 0)
      ≡ length name + length pad + length formats + 4
length-parts name pad formats = omega (
  arith,
  length-append (name ++ pad ++ formats) (ulong_bytes 0),
  length-append (name ++ pad) formats,
  length-append name pad,
)

pub IsChunk-parts :
    (name pad formats : List ℕ) (count : ℕ)
    → IsName name
    → length pad ≡ align_vfi (length name) - length name
    → length formats ≡ 8 * count
    → ((m : Memory) (at : ℕ) → Holds m at formats → NonzeroAt 8 m at count)
    → IsChunk count (name ++ pad ++ formats ++ ulong_bytes 0)
unfolding align_vfi
IsChunk-parts name pad formats count n e e' entries =
    let named = n.size in
    let tail = length-append name pad in
    let last = length-append (name ++ pad) formats in
    record {
      chars = n.chars;
      some_char = n.some_char;
      size = omega (arith, length-parts name pad formats, named, e, e');
      string = λ m at al h.
          let front = (Holds-append m at (name ++ pad ++ formats) (ulong_bytes 0) h).0 in
          n.string m at
            ((Holds-append m at name pad ((Holds-append m at (name ++ pad) formats front).0)).0);
      entries = λ m at al h.
          let front = (Holds-append m at (name ++ pad ++ formats) (ulong_bytes 0) h).0 in
          let d = (Holds-append m at (name ++ pad) formats front).1 in
          let place : at + length (name ++ pad) ≡ at + (2 * n.chars + 2 + 3) / 4 * 4 =
            omega (arith, tail, named, e) in
          subst (λ p. NonzeroAt 8 m p count) place (entries m (at + length (name ++ pad)) d);
      ending = λ m at al h.
          let b = (Holds-append m at (name ++ pad ++ formats) (ulong_bytes 0) h).1 in
          let place : at + length (name ++ pad ++ formats)
              ≡ at + (2 * n.chars + 2 + 3) / 4 * 4 + 8 * count =
            omega (arith, tail, last, named, e, e') in
          subst (λ p. ulong_at m p ≡ 0) place (ulong_at-Holds m _ 0 b);
    }

-- A result, if there is one.
abbrev pub Result : (List ℕ → Lists → Type 0) → Option (List ℕ × Lists) → Type 0
Result P none = Unit {0}
Result P (some (bytes, t)) = P bytes t

pub Result-map :
    {P Q : List ℕ → Lists → Type 0} (o : Option (List ℕ × Lists))
    → ((bytes : List ℕ) (t : Lists) → P bytes t → Q bytes t)
    → Result P o
    → Result Q o
Result-map none f r = tt
Result-map (some (bytes, t)) f r = f bytes t r
