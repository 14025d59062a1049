-- ===== src/Base/Bytes.antt =====
-- Memory as a function from addresses to bytes, with `memcpy` and reads of a range.
use Prim.Native.Nat.{ℕ, zero, suc, ◌+◌, ◌-◌, ◌≤◌, ◌<◌}
use mathlib.Core.Path.{◌≡◌, refl, sym, ap₂}
use mathlib.Core.Bool.{◌&&◌}
use mathlib.Core.List.{List, [], ◌∷◌}
use native.Mathlib.Omega.{arith}
use camera_udp.Base.Tests.{ltb, leb, if◌then◌else◌}
use camera_udp.Base.Lists.{length, get_or}

-- What no write has reached holds an arbitrary byte.
abbrev pub Memory : Type 0
Memory = ℕ → ℕ

-- memcpy(base + at, bs, length bs)
unfoldable pub copy : Memory → ℕ → List ℕ → Memory
copy m at bs i = if leb at i && ltb i (at + length bs) then get_or bs (i - at) 0 else m i

-- The n bytes from an address on.
unfoldable pub read : Memory → ℕ → ℕ → List ℕ
read m at zero = []
read m at (suc n) = m at ∷ read m (at + 1) n

pub copy_inside :
    (m : Memory) (at : ℕ) (bs : List ℕ) (i : ℕ)
    → i < length bs
    → copy m at bs (at + i) ≡ get_or bs i 0
unfolding copy
copy_inside m at bs i h = let e : at + i - at ≡ i = omega arith in ground (arith, e)

pub copy_outside :
    (m : Memory) (at : ℕ) (bs : List ℕ) (i : ℕ)
    → (at ≤ i → i < at + length bs → ⊥)
    → copy m at bs i ≡ m i
unfolding copy
copy_outside m at bs i h = ground arith

pub length-read : (m : Memory) (at n : ℕ) → length (read m at n) ≡ n
unfolding read
length-read m at zero = refl
length-read m at (suc n) = omega (arith, length-read m (at + 1) n)

-- A read is determined by the bytes under it.
pub read-eq :
    (m : Memory) (at n : ℕ) (bs : List ℕ)
    → length bs ≡ n
    → ((i : ℕ) → i < n → m (at + i) ≡ get_or bs i 0)
    → read m at n ≡ bs
unfolding read
read-eq m at zero [] e h = refl
read-eq m at zero (b ∷ bs) e h = absurd (omega arith)
read-eq m at (suc n) [] e h = absurd (omega arith)
read-eq m at (suc n) (b ∷ bs) e h =
    ap₂ ◌∷◌ (ground (arith, h 0)) (read-eq m (at + 1) n bs (omega arith) next)
  where
    next : (i : ℕ) → i < n → m (at + 1 + i) ≡ get_or bs i 0
    next i lt = let e' : at + 1 + i ≡ at + suc i = omega arith in rw e' (h (suc i) (omega arith))

pub read-congr :
    (m m' : Memory) (at n : ℕ)
    → ((i : ℕ) → at ≤ i → i < at + n → m i ≡ m' i)
    → read m at n ≡ read m' at n
unfolding read
read-congr m m' at zero h = refl
read-congr m m' at (suc n) h =
    ap₂ ◌∷◌ (h at (omega arith) (omega arith))
      (read-congr m m' (at + 1) n (λ i p q. h i (omega arith) (omega arith)))

-- What was copied is read back.
pub read-copy_self : (m : Memory) (at : ℕ) (bs : List ℕ) → read (copy m at bs) at (length bs) ≡ bs
read-copy_self m at bs = read-eq _ at _ bs refl (copy_inside m at bs)

-- A copy leaves every range disjoint from it alone.
pub read-copy_before :
    (m : Memory) (at : ℕ) (bs : List ℕ) (a n : ℕ)
    → a + n ≤ at
    → read (copy m at bs) a n ≡ read m a n
read-copy_before m at bs a n h =
    read-congr _ _ a n (λ i p q. copy_outside m at bs i (λ r s. omega arith))

pub read-copy_after :
    (m : Memory) (at : ℕ) (bs : List ℕ) (a n : ℕ)
    → at + length bs ≤ a
    → read (copy m at bs) a n ≡ read m a n
read-copy_after m at bs a n h =
    read-congr _ _ a n (λ i p q. copy_outside m at bs i (λ r s. omega arith))

pub get_or-read : (m : Memory) (at n i : ℕ) → i < n → get_or (read m at n) i 0 ≡ m (at + i)
unfolding read
get_or-read m at zero i h = absurd (omega arith)
get_or-read m at (suc n) zero h = let e : at + 0 ≡ at = omega arith in rw e refl
get_or-read m at (suc n) (suc i) h =
    let e : at + 1 + i ≡ at + suc i = omega arith in
    rw (sym e) (get_or-read m (at + 1) n i (omega arith))
