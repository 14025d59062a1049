-- ===== src/Ring/Buffers.antt =====
-- The buffers of BuildBuffers are the places of the ring, in order.
use camera_udp.Base.{
  ℕ, zero, suc, ◌+◌, ◌-◌, ◌%◌, ◌≤◌, ◌<◌, ◌≡◌, refl, sym, ap, ap₂, ◌∙◌, true, false, List, [], ◌∷◌,
  ◌++◌, arith, ltb, dec_lt, ℕ_discrete, ==_of_eq, ==_of_ne,
}
use native.Mathlib.Nat.{mod-lt, mod-eq_of_lt, mod-add-mod, mod-eq-sub-mod, mod_self}
use camera_udp.Ring.{build_buffers}

-- `n` addresses from `a` on.
abbrev pub addresses : (a n : ℕ) → List ℕ
addresses a zero = []
addresses a (suc n) = a ∷ addresses (a + 1) n

-- The addresses under buffers, in order.
abbrev pub covered : List (ℕ × ℕ) → List ℕ
covered [] = []
covered ((a, n) ∷ buffers) = addresses a n ++ covered buffers

-- `n` places of the ring from a position on.
abbrev pub places : (base size from n : ℕ) → List ℕ
places base size from zero = []
places base size from (suc n) = (base + from % size) ∷ places base size (from + 1) n

addresses-append : (a n k : ℕ) → addresses a n ++ addresses (a + n) k ≡ addresses a (n + k)
addresses-append a zero k =
    let e : a + 0 ≡ a = omega arith in let e' : 0 + k ≡ k = omega arith in rw (e, e') refl
addresses-append a (suc n) k =
    let e : a + suc n ≡ a + 1 + n = omega arith in
    let e' : suc n + k ≡ suc (n + k) = omega arith in
    rw (e, e') (ap (λ as'. a ∷ as') (addresses-append (a + 1) n k))

places-append :
    (base size from n k : ℕ)
    → places base size from n ++ places base size (from + n) k ≡ places base size from (n + k)
places-append base size from zero k =
    let e : from + 0 ≡ from = omega arith in let e' : 0 + k ≡ k = omega arith in rw (e, e') refl
places-append base size from (suc n) k =
    let e : from + suc n ≡ from + 1 + n = omega arith in
    let e' : suc n + k ≡ suc (n + k) = omega arith in
    rw (e, e') (ap (λ ps. (base + from % size) ∷ ps) (places-append base size (from + 1) n k))

next_place : (size from : ℕ) → from % size + 1 < size → (from + 1) % size ≡ from % size + 1
next_place size from h = sym (mod-add-mod from size 1) ∙ mod-eq_of_lt h

-- Places that do not pass the end of the ring.
places-addresses :
    (base size from n : ℕ)
    → 0 < size
    → from % size + n ≤ size
    → places base size from n ≡ addresses (base + from % size) n
places-addresses base size from zero pos h = refl
places-addresses base size from (suc zero) pos h = refl
places-addresses base size from (suc (suc n)) pos h =
    let e = next_place size from (omega arith) in
    let rest = places-addresses base size (from + 1) (suc n) pos (omega (arith, e)) in
    let same : base + (from + 1) % size ≡ base + from % size + 1 = omega (arith, e) in
    ap (λ ps. (base + from % size) ∷ ps) (rest ∙ ap (λ a. addresses a (suc n)) same)

-- From the end of the ring on, the places start again.
place_of_end : (size from : ℕ) → 0 < size → (from + (size - from % size)) % size ≡ 0
place_of_end size from pos =
    let lt = mod-lt from pos in
    let e : from % size + (size - from % size) ≡ size = omega arith in
    sym (mod-add-mod from size (size - from % size)) ∙ ap (λ n. n % size) e ∙ mod_self size

addresses-nil : (a : ℕ) (bs : List ℕ) → addresses a 0 ++ bs ≡ bs
addresses-nil a bs = refl

append_nil : (bs : List ℕ) → bs ++ [] ≡ bs
append_nil [] = refl
append_nil (b ∷ bs) = ap (λ cs. b ∷ cs) (append_nil bs)

-- The places that start at `from` and pass the end of the ring by `t`.
places_around :
    (base size from t : ℕ)
    → 0 < size
    → t ≤ size
    → addresses (base + from % size) (size - from % size) ++ addresses base t
      ≡ places base size from (size - from % size + t)
places_around base size from t pos h =
    let lt = mod-lt from pos in
    let n = size - from % size in
    let first = places-addresses base size from n pos (omega arith) in
    let zero_place = place_of_end size from pos in
    let second = places-addresses base size (from + n) t pos (omega (arith, zero_place)) in
    let at_base : base + (from + n) % size ≡ base = omega (arith, zero_place) in
    ap₂ ◌++◌ (sym first) (ap (λ a. addresses a t) (sym at_base) ∙ sym second)
    ∙ places-append base size from n t

-- The buffers for a range of at least one and at most `size` bytes are, byte by byte and in order, the
-- places of the ring from `from` to `to`, when the memory is mapped once.
pub build_buffers-places :
    (base size from to : ℕ)
    → 0 < size
    → from < to
    → to ≤ from + size
    → covered (build_buffers false base size from to) ≡ places base size from (to - from)
unfolding build_buffers
build_buffers-places base size from to pos lt most =
    elim (dec_lt (from % size + (to - from)) size) [
      | yes inside ↦
          let end = sym to_split ∙ mod-eq_of_lt inside in
          let before : ltb (from % size) (to % size) ≡ true = ground (arith, end) in
          let n : to % size - from % size ≡ to - from = omega (arith, end) in
          rw (before, n)
            (append_nil _ ∙ sym (places-addresses base size from (to - from) pos (omega arith)))
      | no around ↦
          let less = mod-lt from pos in
          let rest : from % size + (to - from) - size < size = omega arith in
          let end = sym to_split ∙ mod-eq-sub-mod (omega arith) ∙ mod-eq_of_lt rest in
          let before : ltb (from % size) (to % size) ≡ false = ground (arith, end) in
          let n : size - from % size + to % size ≡ to - from = omega (arith, end) in
          rw before (elim (ℕ_discrete (to % size) 0) [
            | yes z ↦ rw (==_of_eq z) (
                append_nil _
                ∙ sym (places-addresses base size from _ pos (omega arith))
                ∙ ap (places base size from) (omega (arith, n, z)))
            | no z ↦ rw (==_of_ne z) (
                ap (λ bs. addresses (base + from % size) (size - from % size) ++ bs) (append_nil _)
                ∙ places_around base size from (to % size) pos (omega (arith, mod-lt to pos))
                ∙ ap (places base size from) n)
          ])
    ]
  where
    to_split : (from % size + (to - from)) % size ≡ to % size
    to_split = mod-add-mod from size (to - from) ∙ ap (λ n. n % size) (omega arith)
