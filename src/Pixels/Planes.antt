-- ===== src/Pixels/Planes.antt =====
-- The two planes that YUY2ToNV12 writes.
use camera_udp.Base.{
  true, false, ap₂, take, drop, ℕ, zero, suc, ◌+◌, ◌-◌, ◌*◌, ◌/◌, ◌%◌, ◌^◌, ◌<◌, ◌≤◌, ◌≡◌, refl, ap,
  subst, ◌∙◌, Bool, List, [], ◌∷◌, ◌++◌, arith, ◌==◌, if◌then◌else◌, length, Memory, copy, read,
  copy_outside, ℕ_discrete, read-copy_self, read-copy_before,
}
use camera_udp.Pixels.{convert_row, convert_rows, yuy2_to_nv12}

-- The bytes at even places.
abbrev pub evens : List ℕ → List ℕ
evens [] = []
evens (a ∷ []) = a ∷ []
evens (a ∷ b ∷ bs) = a ∷ evens bs

-- The bytes at odd places.
abbrev pub odds : List ℕ → List ℕ
odds [] = []
odds (a ∷ []) = []
odds (a ∷ b ∷ bs) = b ∷ odds bs

-- The bytes at odd places of the rows with an even number, of `size` bytes each, from row `h` on.
abbrev pub chroma_rows : (size height h : ℕ) → List ℕ → List ℕ
chroma_rows size zero h bs = []
chroma_rows size (suc height) h bs =
    (if h % 2 == 0 then odds (take size bs) else [])
    ++ chroma_rows size height (h + 1) (drop size bs)

length-append : (xs ys : List ℕ) → length (xs ++ ys) ≡ length xs + length ys
length-append [] ys = omega arith
length-append (x ∷ xs) ys = omega (arith, length-append xs ys)

mul_suc : (a b : ℕ) → a * suc b ≡ a * b + a
mul_suc a b = omega arith

half_zero : (pairs h : ℕ) → 0 ≡ 2 * pairs * ((0 + (1 - h % 2)) / 2)
half_zero pairs h = let e : (0 + (1 - h % 2)) / 2 ≡ 0 = omega arith in rw e (omega arith)

chroma_step :
    (pairs height h r q : ℕ)
    → r ≡ (if h % 2 == 0 then 2 * pairs else 0)
    → q ≡ 2 * pairs * ((height + (1 - (h + 1) % 2)) / 2)
    → r + q ≡ 2 * pairs * ((suc height + (1 - h % 2)) / 2)
chroma_step pairs height h r q e e' = elim (ℕ_discrete (h % 2) 0) [
  | yes z ↦
      let e2 : (suc height + (1 - h % 2)) / 2 ≡ suc ((height + (1 - (h + 1) % 2)) / 2) =
        omega arith in
      let r2 : r ≡ 2 * pairs = ground arith in
      rw e2 (omega (arith, r2, mul_suc (2 * pairs) ((height + (1 - (h + 1) % 2)) / 2)))
  | no z ↦
      let e2 : (suc height + (1 - h % 2)) / 2 ≡ (height + (1 - (h + 1) % 2)) / 2 = omega arith in
      let r2 : r ≡ 0 = ground arith in rw e2 (omega (arith, r2))
]

read-all :
    (m : Memory) (at : ℕ) (bs : List ℕ) (n : ℕ) → length bs ≡ n → read (copy m at bs) at n ≡ bs
read-all m at bs n e = subst (λ k. read (copy m at bs) at k ≡ bs) e (read-copy_self m at bs)

-- What one row leaves is the input behind its pixels.
record RowDone (n : ℕ) (even : Bool) (bs : List ℕ) : Type 0 where
  luma : (convert_row n even bs).luma ++ evens (convert_row n even bs).rest ≡ evens bs
  chroma : (convert_row n even bs).chroma ≡ (if even then odds (take (4 * n) bs) else [])
  rest : (convert_row n even bs).rest ≡ drop (4 * n) bs
  length_luma : length (convert_row n even bs).luma ≡ 2 * n
  length_chroma : length (convert_row n even bs).chroma ≡ (if even then 2 * n else 0)
  length_rest : length bs ≡ 4 * n + length (convert_row n even bs).rest

none_chroma : (even : Bool) (none : List ℕ) → none ≡ (if even then none else none)
none_chroma true none = refl
none_chroma false none = refl

pair_chroma :
    (even : Bool) (b d : ℕ) (chroma spec : List ℕ)
    → chroma ≡ (if even then spec else [])
    → (if even then b ∷ d ∷ chroma else chroma) ≡ (if even then b ∷ d ∷ spec else [])
pair_chroma true b d chroma spec e = ap (λ l. b ∷ d ∷ l) e
pair_chroma false b d chroma spec e = e

convert_row-Done : (n : ℕ) (even : Bool) (bs : List ℕ) → 4 * n ≤ length bs → RowDone n even bs
unfolding convert_row
convert_row-Done zero even bs h = record {
  luma = refl;
  length_luma = refl;
  chroma = none_chroma even [];
  rest = refl;
  length_chroma = ground arith;
  length_rest = omega arith;
}
convert_row-Done (suc n) even (a ∷ b ∷ c ∷ d ∷ bs) h =
    let v = convert_row-Done n even bs (omega arith) in
    let e : 4 + 4 * n ≡ 4 * suc n = omega arith in
    let e' : suc (suc (suc (suc (4 * n)))) ≡ 4 * suc n = omega arith in
    record {
      chroma =
          subst
            (λ k.
              (if even
                then b ∷ d ∷ (convert_row n even bs).chroma
                else (convert_row n even bs).chroma)
              ≡ (if even then odds (take k (a ∷ b ∷ c ∷ d ∷ bs)) else []))
            e' (pair_chroma even b d _ _ v.chroma);
      rest = subst (λ k. (convert_row n even bs).rest ≡ drop k (a ∷ b ∷ c ∷ d ∷ bs)) e' v.rest;
      luma = ap (λ l. a ∷ c ∷ l) v.luma;
      length_luma = omega (arith, v.length_luma);
      length_chroma = ground (arith, v.length_chroma);
      length_rest = omega (arith, v.length_rest);
    }
convert_row-Done (suc n) even [] h = absurd (omega arith)
convert_row-Done (suc n) even (a ∷ []) h = absurd (omega arith)
convert_row-Done (suc n) even (a ∷ b ∷ []) h = absurd (omega arith)
convert_row-Done (suc n) even (a ∷ b ∷ c ∷ []) h = absurd (omega arith)

-- For an image of `height` rows of `pairs` pairs of pixels, converted from its row 0 on: the luma
-- plane has every second byte of the input, in order and none left out, so 2 * pairs for each row; and
-- the chroma plane has the other bytes of each second row, a last odd row included, in order.
pub convert_rows-planes :
    (pairs height h : ℕ) (bs : List ℕ)
    → length bs ≡ 4 * pairs * height
    → let p = convert_rows pairs height h bs in
      (p.luma ≡ evens bs)
      × (length p.luma ≡ 2 * pairs * height)
      × (length p.chroma ≡ 2 * pairs * ((height + (1 - h % 2)) / 2))
      × (p.chroma ≡ chroma_rows (4 * pairs) height h bs)
unfolding convert_rows
convert_rows-planes pairs zero h [] e = (refl, omega arith, half_zero pairs h, refl)
convert_rows-planes pairs zero h (b ∷ bs) e = absurd (omega arith)
convert_rows-planes pairs (suc height) h bs e =
    let v = convert_row-Done pairs (h % 2 == 0) bs (omega (arith, mul_suc (4 * pairs) height)) in
    let p = convert_row pairs (h % 2 == 0) bs in
    let (a, b, c, d) =
      convert_rows-planes pairs height (h + 1) p.rest
        (omega (arith, v.length_rest, mul_suc (4 * pairs) height)) in
    (
      ap (λ l. p.luma ++ l) a ∙ v.luma,
      length-append p.luma _ ∙ omega (arith, b, v.length_luma, mul_suc (2 * pairs) height),
      length-append p.chroma _ ∙ chroma_step pairs height h _ _ v.length_chroma c,
      ap₂ ◌++◌ v.chroma (d ∙ ap (λ bs. chroma_rows (4 * pairs) height (h + 1) bs) v.rest),
    )

-- Memory after YUY2ToNV12 of a whole image with an even width, which is not empty and whose pixels a
-- 32-bit number counts: from nv12 on stands the luma plane, every second byte of the input in order;
-- from nv12 + width * height on stands the chroma plane, the other bytes of the rows 0, 2, … in order;
-- and nothing behind these is changed.
pub yuy2_to_nv12-planes :
    (pairs height : ℕ) (bs : List ℕ) (nv12 : Memory)
    → 0 < pairs
    → 0 < height
    → 2 * pairs * height < 2 ^ 32
    → length bs ≡ 4 * pairs * height
    → let m = yuy2_to_nv12 (2 * pairs) height bs nv12 in
      (read m 0 (2 * pairs * height) ≡ evens bs)
      × (read m (2 * pairs * height) (2 * pairs * ((height + 1) / 2))
          ≡ chroma_rows (4 * pairs) height 0 bs)
      × ((i : ℕ) → 2 * pairs * height + 2 * pairs * ((height + 1) / 2) ≤ i → m i ≡ nv12 i)
unfolding yuy2_to_nv12
yuy2_to_nv12-planes pairs height bs nv12 pos pos' fits e =
    let (a, b, c, d) = convert_rows-planes pairs height 0 bs e in
    let half : 2 * pairs / 2 ≡ pairs = omega arith in
    let small : 2 * pairs * height % 2 ^ 32 ≡ 2 * pairs * height = omega arith in
    rw (half, small)
      (
        read-copy_before _ _ _ 0 (2 * pairs * height) (omega arith)
            ∙ read-all nv12 0 (convert_rows pairs height 0 bs).luma _ b
            ∙ a,
        read-all _ _ (convert_rows pairs height 0 bs).chroma _ c ∙ d,
        λ i le.
            copy_outside _ _ _ i (λ x y. omega (arith, c))
            ∙ copy_outside nv12 0 _ i (λ x y. omega (arith, b)),
      )
