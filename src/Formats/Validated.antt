-- ===== src/Formats/Validated.antt =====
-- ValidateFormats ends, and reads the bytes of the message only.
use camera_udp.Base.{
  dec_le, subst, ℕ, zero, suc, ◌+◌, ◌-◌, ◌*◌, ◌/◌, ◌%◌, ◌≤◌, ◌<◌, ◌≡◌, ◌≢◌, refl, sym, ap, inl, inr,
  Bool, true, false, not, ◌||◌, Option, some, arith, ◌==◌, ltb, leb, Bool-cases, Memory, ==_of_eq,
  ==_of_ne, ℕ_discrete, ◌∙◌,
}
use camera_udp.Formats.{
  wchar_at, ulong_at, wcs_end, then_at, align_vfi, skip_formats, validate_devices, validate_formats,
}

-- Two runs of a loop stop at one address.
record StopAt (o o' : Option ℕ) (first last unit : ℕ) : Type 0 where
  at : ℕ
  left : o ≡ some at
  right : o' ≡ some at
  above : first ≤ at
  below : at ≤ last
  aligned : at % unit ≡ 0

stop_here : {at last unit : ℕ} → at ≤ last → at % unit ≡ 0 → StopAt (some at) (some at) at last unit
stop_here {at} h e = record {
  at = at;
  left = refl;
  right = refl;
  above = omega arith;
  below = h;
  aligned = e;
}

stop_later :
    {o o' : Option ℕ} {first first' last unit : ℕ}
    → first ≤ first'
    → StopAt o o' first' last unit
    → StopAt o o' first last unit
stop_later h w = record {
  at = w.at;
  left = w.left;
  right = w.right;
  above = omega (arith, w.above);
  below = w.below;
  aligned = w.aligned;
}

-- Two runs give one answer.
record Answer (o o' : Option Bool) : Type 0 where
  is : Bool
  left : o ≡ some is
  right : o' ≡ some is

answer : (b : Bool) → Answer (some b) (some b)
answer b = record { is = b; left = refl; right = refl }

-- Two memories with the same bytes at the addresses from `buf` on and below `stop`.
module _ (m m' : Memory) (buf stop : ℕ) (same : (a : ℕ) → buf ≤ a → a < stop → m a ≡ m' a) where
  wchar_at-same : (a : ℕ) → buf ≤ a → a + 2 ≤ stop → wchar_at m a ≡ wchar_at m' a
  wchar_at-same a p q =
      omega (arith, same a p (omega arith), same (a + 1) (omega arith) (omega arith))

  ulong_at-same : (a : ℕ) → buf ≤ a → a + 4 ≤ stop → ulong_at m a ≡ ulong_at m' a
  ulong_at-same a p q = omega (
    arith,
    same a p (omega arith),
    same (a + 1) (omega arith) (omega arith),
    same (a + 2) (omega arith) (omega arith),
    same (a + 3) (omega arith) (omega arith),
  )

  wcs_end-same :
      (fuel a end : ℕ)
      → buf ≤ a
      → a ≤ end
      → a % 2 ≡ 0
      → end % 2 ≡ 0
      → end + 2 ≤ stop
      → wchar_at m end ≡ 0
      → end < a + 2 * fuel
      → StopAt (wcs_end fuel m a) (wcs_end fuel m' a) a end 2
  unfolding wcs_end
  wcs_end-same zero a end p q e e' l z h = absurd (omega arith)
  wcs_end-same (suc fuel) a end p q e e' l z h = elim (ℕ_discrete (wchar_at m a) 0) [
    | yes y ↦ rw (sym (wchar_at-same a p (omega arith)), ==_of_eq y) (stop_here q e)
    | no n ↦
        let further : a ≢ end = λ r. n (ap (wchar_at m) r ∙ z) in
        let w =
          wcs_end-same fuel (a + 2) end (omega arith) (omega arith) (omega arith) e' l z
            (omega arith) in
        rw (sym (wchar_at-same a p (omega arith)), ==_of_ne n) (stop_later (omega arith) w)
  ]

  skip_formats-same :
      (fuel pf end : ℕ)
      → buf ≤ pf
      → pf ≤ end + 4
      → pf % 4 ≡ 0
      → end % 4 ≡ 0
      → end + 2 ≤ stop
      → end + 4 < pf + 8 * fuel
      → StopAt (skip_formats fuel m pf end) (skip_formats fuel m' pf end) pf (end + 4) 4
  unfolding skip_formats
  skip_formats-same zero pf end p q e e' l h = absurd (omega arith)
  skip_formats-same (suc fuel) pf end p q e e' l h = elim (Bool-cases (ltb pf end)) [
    | inr b ↦ rw b (stop_here q e)
    | inl b ↦
        let lt : pf < end = ground (arith, b) in
        rw (b, sym (ulong_at-same pf p (omega arith)))
          (elim (ℕ_discrete (ulong_at m pf) 0) [
            | yes y ↦ rw (==_of_eq y) (stop_here q e)
            | no n ↦
                let w =
                  skip_formats-same fuel (pf + 8) end (omega arith) (omega arith) (omega arith) e' l
                    (omega arith) in
                rw (==_of_ne n) (stop_later (omega arith) w)
          ])
  ]

  validate_devices-same :
      (fuel limit name end : ℕ)
      → buf ≤ name
      → name ≤ end
      → name % 4 ≡ 0
      → end % 4 ≡ 0
      → end + 2 ≤ stop
      → wchar_at m end ≡ 0
      → end < name + 4 * fuel
      → end + 4 < buf + 2 * limit
      → Answer (validate_devices fuel limit m name end) (validate_devices fuel limit m' name end)
  unfolding validate_devices then_at align_vfi
  validate_devices-same zero limit name end p q e e' l z h g = absurd (omega arith)
  validate_devices-same (suc fuel) limit name end p q e e' l z h g =
      let w = wcs_end-same limit name end p q (omega arith) (omega arith) l z (omega arith) in
      let start = (w.at + 2 + 3) / 4 * 4 in
      let above = w.above in
      let below = w.below in
      let k =
        skip_formats-same limit start end (omega arith) (omega arith) (omega arith) e' l
          (omega arith) in
      let above' = k.above in
      let aligned = k.aligned in
      rw (sym (wchar_at-same name p (omega arith)), w.left, w.right, k.left, k.right)
        (elim (Bool-cases (wchar_at m name == 0)) [
          | inl y ↦ rw y (answer true)
          | inr y ↦ rw y (elim (Bool-cases (leb end k.at)) [
            | inl b ↦ rw b (answer false)
            | inr b ↦ rw b (
                validate_devices-same fuel limit (k.at + 4) end (omega arith) (ground (arith, b))
                  (omega arith) e' l z (omega arith) g)
          ])
        ])

-- For a message of six bytes or more at a multiple of four, ValidateFormats ends, and its answer depends
-- on the bytes of the message alone: it is the same in all memories that hold the message.
pub validate_formats_by_message :
    (fuel : ℕ) (m m' : Memory) (buf cb : ℕ)
    → buf % 4 ≡ 0
    → 6 ≤ cb
    → cb < fuel
    → ((a : ℕ) → buf ≤ a → a < buf + cb → m a ≡ m' a)
    → (b : Bool) × (validate_formats fuel m buf cb ≡ some b)
      × (validate_formats fuel m' buf cb ≡ some b)
unfolding validate_formats
validate_formats_by_message fuel m m' buf cb e h lt same = let a = inside in (a.is, a.left, a.right)
  where
    inside : Answer (validate_formats fuel m buf cb) (validate_formats fuel m' buf cb)
    inside = elim (Bool-cases ((cb % 2 == 1) || (cb % 4 == 0))) [
      | inl y ↦ rw y (answer false)
      | inr y ↦
          let aligned : cb % 4 ≡ 2 = ground (arith, y) in
          rw
            (
              y,
              sym (
                  ulong_at-same m m' buf (buf + cb) same (buf + cb - 6) (omega arith)
                    (omega arith)),
              sym (
                  wchar_at-same m m' buf (buf + cb) same (buf + cb - 2) (omega arith)
                    (omega arith)),
            )
            (elim (Bool-cases
              (not (ulong_at m (buf + cb - 6) == 0) || not (wchar_at m (buf + cb - 2) == 0))) [
                | inl n ↦ rw n (answer false)
                | inr n ↦ rw n (
                    validate_devices-same m m' buf (buf + cb) same fuel fuel buf (buf + cb - 2)
                      (omega arith) (omega arith) e (omega arith) (omega arith) (ground (arith, n))
                      (omega arith) (omega arith))
              ])
    ]

validate_formats-refused :
    (fuel : ℕ) (m : Memory) (buf cb : ℕ)
    → ((cb % 2 == 1) || (cb % 4 == 0)) ≡ true
    → validate_formats fuel m buf cb ≡ some false
unfolding validate_formats
validate_formats-refused fuel m buf cb e = rw e refl

-- Two bytes: the empty list, or not a list.
validate_formats-two : (m : Memory) (buf : ℕ) → (b : Bool) × (validate_formats 3 m buf 2 ≡ some b)
unfolding validate_formats validate_devices
validate_formats-two m buf =
    let end : buf + 2 - 2 ≡ buf = omega arith in
    rw end (elim (Bool-cases (wchar_at m buf == 0)) [
      | inl y ↦ rw y (elim (Bool-cases (ulong_at m (buf + 2 - 6) == 0)) [
        | inl z ↦ rw z (true, refl)
        | inr z ↦ rw z (false, refl)
      ])
      | inr y ↦ rw y (elim (Bool-cases (ulong_at m (buf + 2 - 6) == 0)) [
        | inl z ↦ rw z (false, refl)
        | inr z ↦ rw z (false, refl)
      ])
    ])

-- With one step more than the message has bytes, ValidateFormats ends, for a message of any size at a
-- multiple of four.
pub validate_formats-returns :
    (m : Memory) (buf cb : ℕ)
    → buf % 4 ≡ 0
    → (b : Bool) × (validate_formats (cb + 1) m buf cb ≡ some b)
validate_formats-returns m buf cb e = elim (dec_le 6 cb) [
  | yes h ↦
      let (b, l, r) =
        validate_formats_by_message (cb + 1) m m buf cb e h (omega arith) (λ a p q. refl) in
      (b, l)
  | no n ↦ elim (ℕ_discrete cb 2) [
    | yes two ↦
        subst (λ n. (b : Bool) × (validate_formats (n + 1) m buf n ≡ some b)) (sym two)
          (validate_formats-two m buf)
    | no other ↦ (false, validate_formats-refused (cb + 1) m buf cb (ground arith))
  ]
]
