-- ===== src/Dns/Names.antt =====
-- Names in a message, and IsNameValid at them.
use camera_udp.Base.{
  ℕ, zero, suc, ◌+◌, ◌-◌, ◌*◌, ◌/◌, ◌%◌, ◌≤◌, ◌<◌, ◌≡◌, ap, ◌∙◌, true, false, some, arith, ltb, leb,
  ◌==◌, Memory, ==_of_eq,
}
use camera_udp.Dns.{after_pointer, walk_name, is_name_valid}

-- A name from `at` to `next`: labels with a byte below 192 before each, and then a 0 or a pointer to a
-- name that ends before the message does. `depth` counts the labels, pointers and ends.
module _ (m : Memory) (base size : ℕ) where
  abbrev pub pointed_at : ℕ → ℕ
  pointed_at at = (m (at + 1) + 256 * m at) % 1024

  pub data NameAt : (depth at next : ℕ) → Type 0 where
    ends : (depth at : ℕ) → m at ≡ 0 → NameAt (suc depth) at (at + 1)
    label :
        (depth at next : ℕ)
        → 0 < m at
        → m at < 192
        → NameAt depth (at + 1 + m at) next
        → NameAt (suc depth) at next
    pointer :
        (depth at next : ℕ)
        → 192 ≤ m at
        → m at < 256
        → pointed_at at < size
        → NameAt depth (base + pointed_at at) next
        → next < base + size
        → NameAt (suc depth) at (at + 2)

  pub NameAt-lt : (depth at next : ℕ) → NameAt depth at next → at < next
  NameAt-lt depth at next (ends d a e) = omega arith
  NameAt-lt depth at next (label d a n p q h) = omega (arith, NameAt-lt d (at + 1 + m at) next h)
  NameAt-lt depth at next (pointer d a n p q l h e) = omega arith

  pub walk_name-NameAt :
      (fuel depth start at next cb : ℕ)
      → NameAt depth at next
      → depth ≤ fuel
      → next ≤ at + cb
      → walk_name m base size fuel start at cb ≡ some (at + cb - next, next)
  unfolding walk_name after_pointer
  walk_name-NameAt zero depth start at next cb (ends d a e) few le = absurd (omega arith)
  walk_name-NameAt zero depth start at next cb (label d a n p q h) few le = absurd (omega arith)
  walk_name-NameAt zero depth start at next cb (pointer d a n p q l h e) few le =
      absurd (omega arith)
  walk_name-NameAt (suc fuel) depth start at next cb (ends d a e) few le =
      let some_left : (cb == 0) ≡ false = ground arith in
      rw (some_left, ==_of_eq e) (ap (λ x. some (x, at + 1)) (omega arith))
  walk_name-NameAt (suc fuel) depth start at next cb (label d a n p q h) few le =
      let longer = NameAt-lt d (at + 1 + m at) next h in
      let some_left : (cb == 0) ≡ false = ground (arith, longer) in
      let char : (m at == 0) ≡ false = ground arith in
      let plain : (m at / 64 == 3) ≡ false = ground arith in
      let room : ltb (cb - 1) (m at) ≡ false = ground (arith, longer) in
      let rest =
        walk_name-NameAt fuel d start (at + 1 + m at) next (cb - 1 - m at) h (omega arith)
          (omega (arith, longer)) in
      rw (some_left, char, plain, room) (rest ∙ ap (λ x. some (x, next)) (omega (arith, longer)))
  walk_name-NameAt (suc fuel) depth start at next cb (pointer d a n p q l h e) few le =
      let some_left : (cb == 0) ≡ false = ground arith in
      let char : (m at == 0) ≡ false = ground arith in
      let marked : (m at / 64 == 3) ≡ true = ground arith in
      let both : (cb == 1) ≡ false = ground arith in
      let inside : leb size (pointed_at at) ≡ false = ground arith in
      let there =
        walk_name-NameAt fuel d (base + pointed_at at) (base + pointed_at at) n
          (size - pointed_at at) h (omega arith) (omega arith) in
      let before : (base + pointed_at at + (size - pointed_at at) - n == 0) ≡ false =
        ground arith in
      rw (some_left, char, marked, both, inside, there, before)
        (ap (λ x. some (x, at + 2)) (omega arith))

  -- IsNameValid of a name that ends at `next` gives what is left behind it, with a step for each of its
  -- labels, pointers and ends.
  pub is_name_valid-NameAt :
      (fuel depth at next cb : ℕ)
      → NameAt depth at next
      → depth ≤ fuel
      → next ≤ at + cb
      → is_name_valid m base size fuel at cb ≡ some (at + cb - next, next)
  is_name_valid-NameAt fuel depth at next cb = walk_name-NameAt fuel depth at at next cb
