-- ===== src/Listing/Ranges.antt =====
-- Words other than 0 at equal distances in memory, as both lists have them, and bytes in memory.
use camera_udp.Base.{
  ℕ, zero, suc, ◌+◌, ◌*◌, ◌/◌, ◌%◌, ◌^◌, ◌≤◌, ◌<◌, ◌≡◌, ◌≢◌, sym, subst, ◌∙◌, List, [], ◌∷◌, ◌++◌,
  arith, length, get_or, Memory, copy, read, copy_inside, length-read, get_or-read,
}
use camera_udp.Formats.{ulong_at}
use camera_udp.Listing.{ulong_bytes}

-- The bytes at an address.
abbrev pub Holds : Memory → ℕ → List ℕ → Type 0
Holds m at [] = Unit {0}
Holds m at (b ∷ bs) = (m at ≡ b) × Holds m (at + 1) bs

pub Holds-append :
    (m : Memory) (at : ℕ) (xs ys : List ℕ)
    → Holds m at (xs ++ ys)
    → Holds m at xs × Holds m (at + length xs) ys
Holds-append m at [] ys h = let e : at + 0 ≡ at = omega arith in rw e (tt, h)
Holds-append m at (x ∷ xs) ys (e, h) =
    let (a, b) = Holds-append m (at + 1) xs ys h in
    let e' : at + 1 + length xs ≡ at + suc (length xs) = omega arith in
    ((e, a), subst (λ p. Holds m p ys) e' b)

-- What has just been copied.
pub Holds-copy : (m : Memory) (at : ℕ) (bs : List ℕ) → Holds (copy m at bs) at bs
Holds-copy m at bs = go bs at (λ i h. copy_inside m at bs i h)
  where
    go :
        (cs : List ℕ) (p : ℕ)
        → ((i : ℕ) → i < length cs → copy m at bs (p + i) ≡ get_or cs i 0)
        → Holds (copy m at bs) p cs
    go [] p h = tt
    go (c ∷ cs) p h =
        let z : p + 0 ≡ p = omega arith in
        (
          subst (λ q. copy m at bs q ≡ c) z (h 0 (omega arith)),
          go cs (p + 1) (λ i l.
              let e : p + 1 + i ≡ p + suc i = omega arith in
              subst (λ q. copy m at bs q ≡ get_or cs i 0) (sym e) (h (suc i) (omega arith))),
        )

pub ulong_at-eq :
    (m m' : Memory) (a : ℕ)
    → ((i : ℕ) → a ≤ i → i < a + 4 → m' i ≡ m i)
    → ulong_at m' a ≡ ulong_at m a
ulong_at-eq m m' a h = omega (
  arith,
  h a (omega arith) (omega arith),
  h (a + 1) (omega arith) (omega arith),
  h (a + 2) (omega arith) (omega arith),
  h (a + 3) (omega arith) (omega arith),
)

-- The word of its four bytes.
pub ulong_at-Holds :
    (m : Memory) (at n : ℕ) → Holds m at (ulong_bytes n) → ulong_at m at ≡ n % 2 ^ 32
ulong_at-Holds m at n (a, (b, (c, (d, _)))) =
    let e1 : at + 1 + 1 ≡ at + 2 = omega arith in
    let e2 : at + 1 + 1 + 1 ≡ at + 3 = omega arith in
    let c' = subst (λ p. m p ≡ n / 65536 % 256) e1 c in
    let d' = subst (λ p. m p ≡ n / 16777216 % 256) e2 d in omega (arith, a, b, c', d')

-- A copy of a place that has a word has the word.
pub ulong_at-copied :
    (m : Memory) (to from size : ℕ)
    → 4 ≤ size
    → ulong_at (copy m to (read m from size)) to ≡ ulong_at m from
ulong_at-copied m to from size h =
    let byte = λ (i : ℕ). λ (l : i < 4).
      let inside : i < length (read m from size) = omega (arith, length-read m from size) in
      copy_inside m to (read m from size) i inside ∙ get_or-read m from size i (omega arith) in
    let z : to + 0 ≡ to = omega arith in
    let z' : from + 0 ≡ from = omega arith in
    let b0 = subst (λ p. copy m to (read m from size) p ≡ m (from + 0)) z (byte 0 (omega arith)) in
    let b0' = subst (λ p. copy m to (read m from size) to ≡ m p) z' b0 in
    omega (arith, b0', byte 1 (omega arith), byte 2 (omega arith), byte 3 (omega arith))

module _ (step : ℕ) where
  -- `c` words other than 0.
  abbrev pub NonzeroAt : Memory → ℕ → ℕ → Type 0
  NonzeroAt m at zero = Unit {0}
  NonzeroAt m at (suc c) = (ulong_at m at ≢ 0) × NonzeroAt m (at + step) c

  pub NonzeroAt-append :
      (m : Memory) (at c c' : ℕ)
      → NonzeroAt m at c
      → NonzeroAt m (at + c * step) c'
      → NonzeroAt m at (c + c')
  NonzeroAt-append m at zero c' h g =
      let e : 0 + c' ≡ c' = omega arith in
      let e' : at + 0 * step ≡ at = omega arith in
      subst (NonzeroAt m at) (sym e) (subst (λ p. NonzeroAt m p c') e' g)
  NonzeroAt-append m at (suc c) c' (n, h) g =
      let e : suc c + c' ≡ suc (c + c') = omega arith in
      let e' : at + suc c * step ≡ at + step + c * step = omega arith in
      subst (NonzeroAt m at) (sym e)
        (n, NonzeroAt-append m (at + step) c c' h (subst (λ p. NonzeroAt m p c') e' g))

  pub NonzeroAt-eq :
      (m m' : Memory) (at c : ℕ)
      → 4 ≤ step
      → ((i : ℕ) → at ≤ i → i < at + c * step → m' i ≡ m i)
      → NonzeroAt m at c
      → NonzeroAt m' at c
  NonzeroAt-eq m m' at zero big same h = tt
  NonzeroAt-eq m m' at (suc c) big same (n, h) = (
    λ e. n (sym (ulong_at-eq m m' at (λ i p q. same i p (omega arith))) ∙ e),
    NonzeroAt-eq m m' (at + step) c big (λ i p q. same i (omega arith) (omega arith)) h,
  )
