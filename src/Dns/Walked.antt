-- ===== src/Dns/Walked.antt =====
-- The result of IsNameValid depends on the message alone, and where it leaves off.
use camera_udp.Base.{
  ℕ, zero, suc, ◌+◌, ◌-◌, ◌*◌, ◌/◌, ◌%◌, ◌≤◌, ◌<◌, ◌≡◌, refl, sym, ap, ◌⊎◌, inl, inr, Option, none,
  some, arith, ltb, leb, ◌==◌, Memory, Bool-cases,
}
use camera_udp.Dns.{after_pointer, walk_name, after_name}

-- What is left ends where the message did.
abbrev pub Left : (buf cb : ℕ) → Option (ℕ × ℕ) → Type 0
Left buf cb none = Unit {0}
Left buf cb (some (left, at)) = (left ≡ 0) ⊎ ((at + left ≡ buf + cb) × (buf ≤ at))

Left-after_pointer :
    (o : Option (ℕ × ℕ)) (start buf cb : ℕ)
    → 2 ≤ cb
    → Left buf cb (after_pointer o start (buf + 2) (cb - 2))
unfolding after_pointer
Left-after_pointer none start buf cb le = tt
Left-after_pointer (some (left, at)) start buf cb le = elim (Bool-cases (left == 0)) [
  | inl e ↦ rw e (inl refl)
  | inr e ↦ rw e (inr (omega arith, omega arith))
]

Left-on :
    (buf cb c : ℕ) (o : Option (ℕ × ℕ)) → c < cb → Left (buf + 1 + c) (cb - 1 - c) o → Left buf cb o
Left-on buf cb c none lt h = tt
Left-on buf cb c (some (left, at)) lt (inl e) = inl e
Left-on buf cb c (some (left, at)) lt (inr (e, g)) = inr (omega arith, omega arith)

pub Left-walk_name :
    (m : Memory) (base size fuel start buf cb : ℕ)
    → Left buf cb (walk_name m base size fuel start buf cb)
unfolding walk_name
Left-walk_name m base size zero start buf cb = tt
Left-walk_name m base size (suc fuel) start buf cb = elim (Bool-cases (cb == 0)) [
  | inl e0 ↦ rw e0 (inl refl)
  | inr e0 ↦ elim (Bool-cases (m buf == 0)) [
    | inl e1 ↦ rw (e0, e1) (inr (ground (arith, e0), omega arith))
    | inr e1 ↦ elim (Bool-cases (m buf / 64 == 3)) [
      | inl e2 ↦ elim (Bool-cases (cb == 1)) [
        | inl e3 ↦ rw (e0, e1, e2, e3) (inl refl)
        | inr e3 ↦ elim (Bool-cases (leb size ((m (buf + 1) + 256 * m buf) % 1024))) [
          | inl e4 ↦ rw (e0, e1, e2, e3, e4) (inl refl)
          | inr e4 ↦
              rw (e0, e1, e2, e3, e4) (Left-after_pointer _ start buf cb (ground (arith, e0, e3)))
        ]
      ]
      | inr e2 ↦ elim (Bool-cases (ltb (cb - 1) (m buf))) [
        | inl e3 ↦ rw (e0, e1, e2, e3) (inl refl)
        | inr e3 ↦
            rw (e0, e1, e2, e3)
              (Left-on buf cb (m buf) _ (ground (arith, e0, e3))
                (Left-walk_name m base size fuel start (buf + 1 + m buf) (cb - 1 - m buf)))
      ]
    ]
  ]
]

pub after_name-eq :
    {R : Type 0} (buf cb : ℕ) (o : Option (ℕ × ℕ)) (next next' : ℕ → ℕ → Option R)
    → Left buf cb o
    → ((left at : ℕ)
        → (left ≡ 0) ⊎ ((at + left ≡ buf + cb) × (buf ≤ at))
        → next left at ≡ next' left at)
    → after_name o next ≡ after_name o next'
unfolding after_name
after_name-eq buf cb none next next' h e = refl
after_name-eq buf cb (some (left, at)) next next' h e = e left at h

module _ (m m' : Memory) (base size : ℕ)
    (same : (i : ℕ) → base ≤ i → i < base + size → m i ≡ m' i) where
  pub walk_name-same :
      (fuel start buf cb : ℕ)
      → base ≤ buf
      → buf + cb ≤ base + size
      → walk_name m base size fuel start buf cb ≡ walk_name m' base size fuel start buf cb
  unfolding walk_name
  walk_name-same zero start buf cb low high = refl
  walk_name-same (suc fuel) start buf cb low high = elim (Bool-cases (cb == 0)) [
    | inl e0 ↦ rw e0 refl
    | inr e0 ↦
        let some_left : 0 < cb = ground (arith, e0) in
        let first : m' buf ≡ m buf = sym (same buf low (omega arith)) in
        rw (e0, first)
          (elim (Bool-cases (m buf == 0)) [
            | inl e1 ↦ rw e1 refl
            | inr e1 ↦ elim (Bool-cases (m buf / 64 == 3)) [
              | inl e2 ↦ elim (Bool-cases (cb == 1)) [
                | inl e3 ↦ rw (e1, e2, e3) refl
                | inr e3 ↦
                    let second : m' (buf + 1) ≡ m (buf + 1) =
                      sym (same (buf + 1) (omega arith) (ground (arith, e0, e3))) in
                    let ofs = (m (buf + 1) + 256 * m buf) % 1024 in
                    rw (e1, e2, e3, second)
                      (elim (Bool-cases (leb size ofs)) [
                        | inl e4 ↦ rw e4 refl
                        | inr e4 ↦ rw e4 (
                            ap (λ o. after_pointer o start (buf + 2) (cb - 2))
                              (walk_name-same fuel (base + ofs) (base + ofs) (size - ofs)
                                (omega arith) (ground (arith, e4))))
                      ])
              ]
              | inr e2 ↦ elim (Bool-cases (ltb (cb - 1) (m buf))) [
                | inl e3 ↦ rw (e1, e2, e3) refl
                | inr e3 ↦
                    rw (e1, e2, e3)
                      (walk_name-same fuel start (buf + 1 + m buf) (cb - 1 - m buf) (omega arith)
                        (ground (arith, e3)))
              ]
            ]
          ])
  ]
