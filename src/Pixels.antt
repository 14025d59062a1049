-- ===== src/Pixels.antt =====
-- YUY2ToNV12 of camera server/H264.cpp: four bytes of YUY2 (two pixels) give two bytes of the luma plane
-- and, in every second row, two bytes of the chroma plane. `pairs` is width / 2; both loops test their
-- counter at the end, so they are modelled for counters that start above 0. Input that is too short ends a row; the code would read on.
pub mod Planes
pub mod Planar
mod Tests
use camera_udp.Base.{
  ℕ, zero, suc, ◌+◌, ◌*◌, ◌/◌, ◌%◌, ◌^◌, Bool, List, [], ◌∷◌, ◌++◌, ◌==◌, if◌then◌else◌, Memory,
  copy,
}

-- What the loops have written: the bytes at nv12 and at uv_plane; and the input that is left.
pub record Converted (A : Type 0) : Type 0 where
  pub luma : List A
  pub chroma : List A
  pub rest : List A

unfoldable pub convert_row : (pairs : ℕ) (even : Bool) → List ℕ → Converted ℕ
convert_row zero even bs = record { luma = []; chroma = []; rest = bs }
convert_row (suc n) even (a ∷ b ∷ c ∷ d ∷ bs) =
    let p = convert_row n even bs in
    record {
      luma = a ∷ c ∷ p.luma;
      chroma = if even then b ∷ d ∷ p.chroma else p.chroma;
      rest = p.rest;
    }
convert_row (suc n) even bs = record { luma = []; chroma = []; rest = bs }

-- `height` rows from row `h` on.
unfoldable pub convert_rows : (pairs height h : ℕ) → List ℕ → Converted ℕ
convert_rows pairs zero h bs = record { luma = []; chroma = []; rest = bs }
convert_rows pairs (suc height) h bs =
    let p = convert_row pairs (h % 2 == 0) bs in
    let q = convert_rows pairs height (h + 1) p.rest in
    record { luma = p.luma ++ q.luma; chroma = p.chroma ++ q.chroma; rest = q.rest }

unfoldable pub yuy2_to_nv12 : (width height : ℕ) → List ℕ → Memory → Memory
yuy2_to_nv12 width height yuy2 nv12 =
    let p = convert_rows (width / 2) height 0 yuy2 in
    copy (copy nv12 0 p.luma) (width * height % 2 ^ 32) p.chroma
