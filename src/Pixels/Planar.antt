-- ===== src/Pixels/Planar.antt =====
-- YUY2ToI420 of camera/read.cpp, as the bytes that it writes through each of its three pointers, in order,
-- against YUY2ToNV12. Its loops are those of YUY2ToNV12; the places of the planes are not modelled.
use camera_udp.Base.{
  ℕ, zero, suc, ◌+◌, ◌*◌, ◌/◌, ◌%◌, ◌≡◌, refl, sym, ap, ap₂, ◌∙◌, Bool, true, false, List, [], ◌∷◌,
  ◌++◌, arith, ◌==◌, if◌then◌else◌, length, length-append, ◌<◌, ◌^◌, Memory, read,
}
use native.Mathlib.Nat.{mul_assoc}
use camera_udp.Pixels.{convert_row, convert_rows, yuy2_to_nv12}
use camera_udp.Pixels.Planes.{convert_rows-planes, yuy2_to_nv12-planes}

pub record Planar : Type 0 where
  pub luma : List ℕ
  pub u_plane : List ℕ
  pub v_plane : List ℕ
  pub rest : List ℕ

unfoldable pub planar_row : (pairs : ℕ) (even : Bool) → List ℕ → Planar
planar_row zero even bs = record { luma = []; u_plane = []; v_plane = []; rest = bs }
planar_row (suc n) even (y0 ∷ u_val ∷ y1 ∷ v_val ∷ bs) =
    let p = planar_row n even bs in
    record {
      luma = y0 ∷ y1 ∷ p.luma;
      u_plane = if even then u_val ∷ p.u_plane else p.u_plane;
      v_plane = if even then v_val ∷ p.v_plane else p.v_plane;
      rest = p.rest;
    }
planar_row (suc n) even bs = record { luma = []; u_plane = []; v_plane = []; rest = bs }

-- `height` rows from row `h` on.
unfoldable pub planar_rows : (pairs height h : ℕ) → List ℕ → Planar
planar_rows pairs zero h bs = record { luma = []; u_plane = []; v_plane = []; rest = bs }
planar_rows pairs (suc height) h bs =
    let p = planar_row pairs (h % 2 == 0) bs in
    let q = planar_rows pairs height (h + 1) p.rest in
    record {
      luma = p.luma ++ q.luma;
      u_plane = p.u_plane ++ q.u_plane;
      v_plane = p.v_plane ++ q.v_plane;
      rest = q.rest;
    }

unfoldable pub yuy2_to_i420 : (width height : ℕ) → List ℕ → Planar
yuy2_to_i420 width height yuy2 = planar_rows (width / 2) height 0 yuy2

-- One byte of the first list, and one of the second.
abbrev pub interleave : List ℕ → List ℕ → List ℕ
interleave [] vs = vs
interleave (u ∷ us) [] = u ∷ us
interleave (u ∷ us) (v ∷ vs) = u ∷ v ∷ interleave us vs

interleave-append :
    (us vs us' vs' : List ℕ)
    → length us ≡ length vs
    → interleave (us ++ us') (vs ++ vs') ≡ interleave us vs ++ interleave us' vs'
interleave-append [] [] us' vs' e = refl
interleave-append [] (v ∷ vs) us' vs' e = absurd (omega arith)
interleave-append (u ∷ us) [] us' vs' e = absurd (omega arith)
interleave-append (u ∷ us) (v ∷ vs) us' vs' e =
    ap (λ l. u ∷ v ∷ l) (interleave-append us vs us' vs' (omega arith))

record RowSame (n : ℕ) (even : Bool) (bs : List ℕ) : Type 0 where
  luma : (planar_row n even bs).luma ≡ (convert_row n even bs).luma
  chroma :
      interleave (planar_row n even bs).u_plane (planar_row n even bs).v_plane
      ≡ (convert_row n even bs).chroma
  sizes : length (planar_row n even bs).u_plane ≡ length (planar_row n even bs).v_plane
  rest : (planar_row n even bs).rest ≡ (convert_row n even bs).rest

planar_row-Same : (n : ℕ) (even : Bool) (bs : List ℕ) → RowSame n even bs
unfolding planar_row convert_row
planar_row-Same zero even bs = record { luma = refl; chroma = refl; sizes = refl; rest = refl }
planar_row-Same (suc n) true (a ∷ b ∷ c ∷ d ∷ bs) =
    let v = planar_row-Same n true bs in
    record {
      luma = ap (λ l. a ∷ c ∷ l) v.luma;
      chroma = ap (λ l. b ∷ d ∷ l) v.chroma;
      sizes = omega (arith, v.sizes);
      rest = v.rest;
    }
planar_row-Same (suc n) false (a ∷ b ∷ c ∷ d ∷ bs) =
    let v = planar_row-Same n false bs in
    record { luma = ap (λ l. a ∷ c ∷ l) v.luma; chroma = v.chroma; sizes = v.sizes; rest = v.rest }
planar_row-Same (suc n) even [] = record { luma = refl; chroma = refl; sizes = refl; rest = refl }
planar_row-Same (suc n) even (a ∷ []) = record {
  luma = refl;
  chroma = refl;
  sizes = refl;
  rest = refl;
}
planar_row-Same (suc n) even (a ∷ b ∷ []) = record {
  luma = refl;
  chroma = refl;
  sizes = refl;
  rest = refl;
}
planar_row-Same (suc n) even (a ∷ b ∷ c ∷ []) = record {
  luma = refl;
  chroma = refl;
  sizes = refl;
  rest = refl;
}

planar_rows-Same :
    (pairs height h : ℕ) (bs : List ℕ)
    → let p = planar_rows pairs height h bs in
      let q = convert_rows pairs height h bs in
      (p.luma ≡ q.luma)
      × (interleave p.u_plane p.v_plane ≡ q.chroma)
      × (length p.u_plane ≡ length p.v_plane)
unfolding planar_rows convert_rows
planar_rows-Same pairs zero h bs = (refl, refl, refl)
planar_rows-Same pairs (suc height) h bs =
    let e = h % 2 == 0 in
    let v = planar_row-Same pairs e bs in
    let p = planar_row pairs e bs in
    let q = convert_row pairs e bs in
    let r = planar_rows pairs height (h + 1) p.rest in
    let (a, b, c) = planar_rows-Same pairs height (h + 1) p.rest in
    (
      ap₂ ◌++◌ v.luma (a ∙ ap (λ x. (convert_rows pairs height (h + 1) x).luma) v.rest),
      interleave-append p.u_plane p.v_plane r.u_plane r.v_plane v.sizes
          ∙ ap₂ ◌++◌ v.chroma (b ∙ ap (λ x. (convert_rows pairs height (h + 1) x).chroma) v.rest),
      omega
          (arith, v.sizes, c, length-append p.u_plane r.u_plane, length-append p.v_plane r.v_plane),
    )

length-interleave : (us vs : List ℕ) → length (interleave us vs) ≡ length us + length vs
length-interleave [] vs = omega arith
length-interleave (u ∷ us) [] = omega arith
length-interleave (u ∷ us) (v ∷ vs) = omega (arith, length-interleave us vs)

-- For a whole image with an even width, YUY2ToI420 writes at y_plane the luma plane of YUY2ToNV12, and at
-- u_plane and v_plane the bytes of its chroma plane in turn, a quarter of the image each if the height is
-- even.
pub yuy2_to_i420-yuy2_to_nv12 :
    (pairs height : ℕ) (bs : List ℕ) (nv12 : Memory)
    → 0 < pairs
    → 0 < height
    → 2 * pairs * height < 2 ^ 32
    → length bs ≡ 4 * pairs * height
    → let m = yuy2_to_nv12 (2 * pairs) height bs nv12 in
      let p = yuy2_to_i420 (2 * pairs) height bs in
      (p.luma ≡ read m 0 (2 * pairs * height))
      × (interleave p.u_plane p.v_plane
          ≡ read m (2 * pairs * height) (2 * pairs * ((height + 1) / 2)))
      × (length p.u_plane ≡ pairs * ((height + 1) / 2))
      × (length p.v_plane ≡ pairs * ((height + 1) / 2))
unfolding yuy2_to_i420
yuy2_to_i420-yuy2_to_nv12 pairs height bs nv12 pos pos' fits e =
    let (luma, chroma, same) = planar_rows-Same pairs height 0 bs in
    let (first, _, size, plane) = convert_rows-planes pairs height 0 bs e in
    let (y, uv, _) = yuy2_to_nv12-planes pairs height bs nv12 pos pos' fits e in
    let half : 2 * pairs / 2 ≡ pairs = omega arith in
    let p = planar_rows pairs height 0 bs in
    let both = ap length chroma in
    let sum = length-interleave p.u_plane p.v_plane in
    let twice : 2 * pairs * ((height + 1) / 2) ≡ 2 * (pairs * ((height + 1) / 2)) =
      mul_assoc 2 pairs ((height + 1) / 2) in
    rw half (
      luma ∙ first ∙ sym y,
      chroma ∙ plane ∙ sym uv,
      omega (arith, both, sum, same, size, twice),
      omega (arith, both, sum, same, size, twice),
    )
