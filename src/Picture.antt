-- ===== src/Picture.antt =====
-- Clamp and NV12toRGBA of remote camera/video.cpp, which show a decoded frame. A row and the rows are
-- recursion on the pixels and rows that are left; what is written at prgba is a list of words.
pub mod Bounds
mod Tests
use camera_udp.Base.{
  ℕ, zero, suc, ◌+◌, ◌-◌, ◌*◌, ◌/◌, ◌%◌, List, [], ◌∷◌, ◌++◌, ltb, if◌then◌else◌, Memory,
}

-- Clamp((above - below) >> 8): below 0 the value is 0.
unfoldable pub clamp : (above below : ℕ) → ℕ
clamp above below =
    let v = (above - below) / 256 in if ltb above below then 0 else if ltb 255 v then 255 else v

-- The word of the bytes B, G, R and A = 0, with C = Y - 16, D = U - 128 and E = V - 128 written out.
unfoldable pub rgba : (y u v : ℕ) → ℕ
rgba y u v =
    let r = clamp (298 * y + 409 * v + 128) (298 * 16 + 409 * 128) in
    let g = clamp (298 * y + 100 * 128 + 208 * 128 + 128) (298 * 16 + 100 * u + 208 * v) in
    let b = clamp (298 * y + 516 * u + 128) (298 * 16 + 516 * 128) in b + 256 * g + 65536 * r

module _ (m : Memory) (y_plane cx cy : ℕ) where
  unfoldable pub pixel : (y x : ℕ) → ℕ
  unfolding rgba
  pixel y x =
      let uv_plane = y_plane + cx * cy in
      let uv_index = y / 2 * cx + x / 2 * 2 in
      rgba (m (y_plane + (y * cx + x))) (m (uv_plane + uv_index)) (m (uv_plane + (uv_index + 1)))

  -- `n` pixels of the row from `x` on.
  unfoldable pub convert_pixels : (y x n : ℕ) → List ℕ
  convert_pixels y x zero = []
  convert_pixels y x (suc n) = pixel y x ∷ convert_pixels y (x + 1) n

  -- `n` rows from `y` on.
  unfoldable pub convert_lines : (y n : ℕ) → List ℕ
  convert_lines y zero = []
  convert_lines y (suc n) = convert_pixels y 0 cx ++ convert_lines (y + 1) n

  unfoldable pub nv12_to_rgba : List ℕ
  nv12_to_rgba = convert_lines 0 cy
