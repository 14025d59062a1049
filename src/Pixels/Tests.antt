-- ===== src/Pixels/Tests.antt =====
-- An image of two pixels in each of three rows.
use camera_udp.Base.{arith, ℕ, ◌+◌, ◌*◌, ◌/◌, ◌≤◌, ◌≡◌, refl, List, [], ◌∷◌, read, length}
use camera_udp.Pixels.{convert_row, convert_rows, yuy2_to_nv12}
use camera_udp.Pixels.Planes.{evens, chroma_rows, yuy2_to_nv12-planes}
use camera_udp.Pixels.Planar.{
  planar_row, planar_rows, yuy2_to_i420, interleave, yuy2_to_i420-yuy2_to_nv12,
}

abbrev image : List ℕ
image = 1 ∷ 2 ∷ 3 ∷ 4 ∷ 5 ∷ 6 ∷ 7 ∷ 8 ∷ 9 ∷ 10 ∷ 11 ∷ 12 ∷ []

image_luma : (convert_rows 1 3 0 image).luma ≡ 1 ∷ 3 ∷ 5 ∷ 7 ∷ 9 ∷ 11 ∷ []
unfolding convert_rows convert_row
image_luma = refl

image_chroma : (convert_rows 1 3 0 image).chroma ≡ 2 ∷ 4 ∷ 10 ∷ 12 ∷ []
unfolding convert_rows convert_row
image_chroma = refl

yuy2_to_nv12-planes_example :
    let m = yuy2_to_nv12 (2 * 1) 3 image (λ i. 0) in
    (read m 0 (2 * 1 * 3) ≡ evens image)
    × (read m (2 * 1 * 3) (2 * 1 * ((3 + 1) / 2)) ≡ chroma_rows (4 * 1) 3 0 image)
    × ((i : ℕ) → 2 * 1 * 3 + 2 * 1 * ((3 + 1) / 2) ≤ i → m i ≡ 0)
yuy2_to_nv12-planes_example =
    yuy2_to_nv12-planes 1 3 image (λ i. 0) (omega arith) (omega arith) (omega arith) refl

image_v : (yuy2_to_i420 2 3 image).v_plane ≡ 4 ∷ 12 ∷ []
unfolding yuy2_to_i420 planar_rows planar_row
image_v = refl

yuy2_to_i420-yuy2_to_nv12_example :
    let m = yuy2_to_nv12 (2 * 1) 3 image (λ i. 0) in
    let p = yuy2_to_i420 (2 * 1) 3 image in
    (p.luma ≡ read m 0 (2 * 1 * 3))
    × (interleave p.u_plane p.v_plane ≡ read m (2 * 1 * 3) (2 * 1 * ((3 + 1) / 2)))
    × (length p.u_plane ≡ 1 * ((3 + 1) / 2))
    × (length p.v_plane ≡ 1 * ((3 + 1) / 2))
yuy2_to_i420-yuy2_to_nv12_example =
    yuy2_to_i420-yuy2_to_nv12 1 3 image (λ i. 0) (omega arith) (omega arith) (omega arith) refl
