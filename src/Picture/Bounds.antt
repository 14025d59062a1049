-- ===== src/Picture/Bounds.antt =====
-- NV12toRGBA reads the frame only, and writes one word below 2 ^ 24 for each pixel.
use camera_udp.Base.{
  ℕ, zero, suc, ◌+◌, ◌*◌, ◌/◌, ◌%◌, ◌^◌, ◌≤◌, ◌<◌, ◌≡◌, refl, ap, ap₂, List, [], ◌∷◌, ◌++◌, arith,
  length, length-append, Memory,
}
use native.Mathlib.Nat.{mul-le-mul_right, suc-mul, mul_comm}
use camera_udp.Picture.{clamp, rgba, pixel, convert_pixels, convert_lines, nv12_to_rgba}

clamp-lt : (above below : ℕ) → clamp above below < 256
unfolding clamp
clamp-lt above below = ground arith

rgba-lt : (y u v : ℕ) → rgba y u v < 2 ^ 24
unfolding rgba
rgba-lt y u v = omega (
  arith,
  clamp-lt (298 * y + 409 * v + 128) (298 * 16 + 409 * 128),
  clamp-lt (298 * y + 100 * 128 + 208 * 128 + 128) (298 * 16 + 100 * u + 208 * v),
  clamp-lt (298 * y + 516 * u + 128) (298 * 16 + 516 * 128),
)

-- The place of a pixel among rows of a width.
in_rows : (width rows y x : ℕ) → y < rows → x < width → y * width + x < rows * width
in_rows width rows y x h g =
    let p : suc y * width ≤ rows * width = mul-le-mul_right width h in
    let q = suc-mul y width in omega (arith, p, q)

abbrev pub AllBelow : ℕ → List ℕ → Type 0
AllBelow limit [] = Unit {0}
AllBelow limit (n ∷ ns) = (n < limit) × AllBelow limit ns

AllBelow-append :
    (limit : ℕ) (xs ys : List ℕ) → AllBelow limit xs → AllBelow limit ys → AllBelow limit (xs ++ ys)
AllBelow-append limit [] ys h g = g
AllBelow-append limit (x ∷ xs) ys (a, h) g = (a, AllBelow-append limit xs ys h g)

module _ (m m' : Memory) (base cx cy : ℕ)
    (same : (a : ℕ) → base ≤ a → a < base + (cx * cy + cy / 2 * cx) → m a ≡ m' a) where
  pixel-same :
      (y x : ℕ)
      → cx % 2 ≡ 0
      → cy % 2 ≡ 0
      → y < cy
      → x < cx
      → pixel m base cx cy y x ≡ pixel m' base cx cy y x
  unfolding pixel rgba
  pixel-same y x even even' h g =
      let luma = in_rows cx cy y x h g in
      let chroma = in_rows cx (cy / 2) (y / 2) (x / 2 * 2 + 1) (omega arith) (omega arith) in
      let flip = mul_comm cy cx in
      let at_y = same (base + (y * cx + x)) (omega arith) (omega (arith, luma, flip)) in
      let at_u =
        same (base + cx * cy + (y / 2 * cx + x / 2 * 2)) (omega arith) (omega (arith, chroma)) in
      let at_v =
        same (base + cx * cy + (y / 2 * cx + x / 2 * 2 + 1)) (omega arith)
          (omega (arith, chroma)) in
      rw (at_y, at_u, at_v) refl

  convert_pixels-same :
      (y x n : ℕ)
      → cx % 2 ≡ 0
      → cy % 2 ≡ 0
      → y < cy
      → x + n ≤ cx
      → convert_pixels m base cx cy y x n ≡ convert_pixels m' base cx cy y x n
  unfolding convert_pixels
  convert_pixels-same y x zero even even' h g = refl
  convert_pixels-same y x (suc n) even even' h g =
      ap₂ ◌∷◌ (pixel-same y x even even' h (omega arith))
        (convert_pixels-same y (x + 1) n even even' h (omega arith))

  convert_lines-same :
      (y n : ℕ)
      → cx % 2 ≡ 0
      → cy % 2 ≡ 0
      → y + n ≤ cy
      → convert_lines m base cx cy y n ≡ convert_lines m' base cx cy y n
  unfolding convert_lines
  convert_lines-same y zero even even' h = refl
  convert_lines-same y (suc n) even even' h =
      ap₂ ◌++◌ (convert_pixels-same y 0 cx even even' (omega arith) (omega arith))
        (convert_lines-same (y + 1) n even even' (omega arith))

record Shape (n : ℕ) (ws : List ℕ) : Type 0 where
  size : length ws ≡ n
  below : AllBelow (2 ^ 24) ws

Shape-convert_pixels :
    (m : Memory) (base cx cy y x n : ℕ) → Shape n (convert_pixels m base cx cy y x n)
unfolding convert_pixels pixel
Shape-convert_pixels m base cx cy y x zero = record { size = refl; below = tt }
Shape-convert_pixels m base cx cy y x (suc n) =
    let rest = Shape-convert_pixels m base cx cy y (x + 1) n in
    record { size = ap suc rest.size; below = (rgba-lt _ _ _, rest.below) }

Shape-convert_lines :
    (m : Memory) (base cx cy y n : ℕ) → Shape (n * cx) (convert_lines m base cx cy y n)
unfolding convert_lines
Shape-convert_lines m base cx cy y zero = record { size = omega arith; below = tt }
Shape-convert_lines m base cx cy y (suc n) =
    let row = Shape-convert_pixels m base cx cy y 0 cx in
    let rest = Shape-convert_lines m base cx cy (y + 1) n in
    record {
      size = omega (
        arith,
        length-append (convert_pixels m base cx cy y 0 cx) (convert_lines m base cx cy (y + 1) n),
        row.size,
        rest.size,
        suc-mul n cx,
      );
      below = AllBelow-append _ _ _ row.below rest.below;
    }

-- For an even width and height, NV12toRGBA makes one word for each pixel, each below 2 ^ 24, and the
-- same words in every memory with the same cx * cy bytes of luma and half as many of chroma; so it
-- reads nothing behind them.
pub nv12_to_rgba-inside :
    (m m' : Memory) (base cx cy : ℕ)
    → cx % 2 ≡ 0
    → cy % 2 ≡ 0
    → ((a : ℕ) → base ≤ a → a < base + (cx * cy + cy / 2 * cx) → m a ≡ m' a)
    → (nv12_to_rgba m base cx cy ≡ nv12_to_rgba m' base cx cy)
      × (length (nv12_to_rgba m base cx cy) ≡ cy * cx)
      × AllBelow (2 ^ 24) (nv12_to_rgba m base cx cy)
unfolding nv12_to_rgba
nv12_to_rgba-inside m m' base cx cy even even' same =
    let s = Shape-convert_lines m base cx cy 0 cy in
    (convert_lines-same m m' base cx cy same 0 cy even even' (omega arith), s.size, s.below)
