-- ===== src/Encoder/Cells.antt =====
-- The four two-bit cells of the index queue of H264, as a list from one cell on.
use camera_udp.Base.{
  ℕ, zero, suc, ◌+◌, ◌%◌, ◌<◌, ◌≡◌, refl, ◌≢◌, ap, ap₂, List, [], ◌∷◌, ◌++◌, arith, length,
}
use camera_udp.Encoder.{cell, put_cell}

-- The `n` cells from index `h` on, going round at 4.
abbrev pub window : (ℕ → ℕ) → (h n : ℕ) → List ℕ
window f h zero = []
window f h (suc n) = f h ∷ window f ((h + 1) % 4) n

pub length-window : (f : ℕ → ℕ) (h n : ℕ) → length (window f h n) ≡ n
length-window f h zero = refl
length-window f h (suc n) = ap suc (length-window f ((h + 1) % 4) n)

cell-put_self : (q r i : ℕ) → r < 4 → i < 4 → cell (put_cell q r i) r ≡ i
cell-put_self q zero i hr hi = omega arith
cell-put_self q (suc zero) i hr hi = omega arith
cell-put_self q (suc (suc zero)) i hr hi = omega arith
cell-put_self q (suc (suc (suc zero))) i hr hi = omega arith
cell-put_self q (suc (suc (suc (suc r)))) i hr hi = absurd (omega arith)

pub put_cell-lt : (q r i : ℕ) → q < 256 → r < 4 → i < 4 → put_cell q r i < 256
put_cell-lt q zero i hq hr hi = omega arith
put_cell-lt q (suc zero) i hq hr hi = omega arith
put_cell-lt q (suc (suc zero)) i hq hr hi = omega arith
put_cell-lt q (suc (suc (suc zero))) i hq hr hi = omega arith
put_cell-lt q (suc (suc (suc (suc r)))) i hq hr hi = absurd (omega arith)

abbrev Leaves : (q i r k : ℕ) → Type 0
Leaves q i r k = cell (put_cell q r i) k ≡ cell q k

-- Another cell, at each pair of numerals.
cell-put_ne : (q i r k : ℕ) → r < 4 → k < 4 → i < 4 → r ≢ k → Leaves q i r k
cell-put_ne q i zero zero hr hk hi ne = absurd (ne refl)
cell-put_ne q i zero (suc zero) hr hk hi ne = omega arith
cell-put_ne q i zero (suc (suc zero)) hr hk hi ne = omega arith
cell-put_ne q i zero (suc (suc (suc zero))) hr hk hi ne = omega arith
cell-put_ne q i (suc zero) zero hr hk hi ne = omega arith
cell-put_ne q i (suc zero) (suc zero) hr hk hi ne = absurd (ne refl)
cell-put_ne q i (suc zero) (suc (suc zero)) hr hk hi ne = omega arith
cell-put_ne q i (suc zero) (suc (suc (suc zero))) hr hk hi ne = omega arith
cell-put_ne q i (suc (suc zero)) zero hr hk hi ne = omega arith
cell-put_ne q i (suc (suc zero)) (suc zero) hr hk hi ne = omega arith
cell-put_ne q i (suc (suc zero)) (suc (suc zero)) hr hk hi ne = absurd (ne refl)
cell-put_ne q i (suc (suc zero)) (suc (suc (suc zero))) hr hk hi ne = omega arith
cell-put_ne q i (suc (suc (suc zero))) zero hr hk hi ne = omega arith
cell-put_ne q i (suc (suc (suc zero))) (suc zero) hr hk hi ne = omega arith
cell-put_ne q i (suc (suc (suc zero))) (suc (suc zero)) hr hk hi ne = omega arith
cell-put_ne q i (suc (suc (suc zero))) (suc (suc (suc zero))) hr hk hi ne = absurd (ne refl)
cell-put_ne q i (suc (suc (suc (suc r)))) k hr hk hi ne = absurd (omega arith)
cell-put_ne q i r (suc (suc (suc (suc k)))) hr hk hi ne = absurd (omega arith)

-- Writing the cell just past a window appends to it.
pub window-put :
    (q i n h r : ℕ)
    → h < 4
    → n < 4
    → i < 4
    → r ≡ (h + n) % 4
    → window (cell (put_cell q r i)) h (suc n) ≡ window (cell q) h n ++ i ∷ []
window-put q i zero h r hh hn hi e =
    let e' : r ≡ h = omega arith in ap (λ x. x ∷ []) (rw e' (cell-put_self q h i hh hi))
window-put q i (suc n) h r hh hn hi e =
    ap₂ ◌∷◌ (cell-put_ne q i r h (omega arith) hh hi (omega arith))
      (window-put q i n ((h + 1) % 4) r (omega arith) (omega arith) hi (omega arith))
