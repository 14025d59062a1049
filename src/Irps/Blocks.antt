-- ===== src/Irps/Blocks.antt =====
-- The blocks that BLOCK_HEAP::Create makes, and those that alloc takes.
use camera_udp.Base.{
  refl, Bool-cases, ℕ, zero, suc, ◌+◌, ◌-◌, ◌*◌, ◌/◌, ◌%◌, ◌^◌, ◌≤◌, ◌<◌, ◌≡◌, sym, ap, subst, ◌⊎◌,
  inl, inr, Bool, true, false, List, [], ◌∷◌, Option, some, arith, leb, ◌==◌, if◌then◌else◌, dec_lt,
  occurs,
}
use native.Mathlib.Nat.{div-mul-le_self, lt-div-mul-add}
use camera_udp.Irps.{BlockHeap, is_block, block_size, push_blocks, rounds, create, create_in}

push_blocks-inside :
    (n pb size : ℕ) (head : List ℕ) (a : ℕ)
    → 0 < occurs a (push_blocks n pb size head)
    → (0 < occurs a head) ⊎ ((pb ≤ a) × (a + size ≤ pb + n * size))
unfolding push_blocks
push_blocks-inside zero pb size head a h = inl h
push_blocks-inside (suc n) pb size head a h =
    elim (push_blocks-inside n (pb + size) size (pb ∷ head) a h) [
      | inl g ↦ elim (dec_lt 0 (occurs a head)) [
        | yes p ↦ inl p
        | no p ↦ inr (ground (arith, g), ground (arith, g))
      ]
      | inr (p, q) ↦ inr (omega arith, omega arith)
    ]

push_blocks-once :
    (n pb size : ℕ) (head : List ℕ) (a : ℕ)
    → 0 < size
    → occurs a head + (if leb pb a then 1 else 0) ≤ 1
    → occurs a (push_blocks n pb size head) ≤ 1
unfolding push_blocks
push_blocks-once zero pb size head a pos h = omega arith
push_blocks-once (suc n) pb size head a pos h =
    push_blocks-once n (pb + size) size (pb ∷ head) a pos (ground arith)

abbrev made : (pv region_size size : ℕ) → BlockHeap
made pv region_size size = record {
  head = push_blocks (rounds (region_size % 2 ^ 32 / size)) pv size [];
  buf = pv;
  cb = region_size;
  count = region_size % 2 ^ 32 / size;
}

create-made :
    (allocate : ℕ → Option (ℕ × ℕ)) (cb_block count pv region_size : ℕ) (h : BlockHeap)
    → h.head ≡ []
    → 0 < count
    → allocate (block_size cb_block * count % 2 ^ 32) ≡ some (pv, region_size)
    → create allocate cb_block count h ≡ (true, made pv region_size (block_size cb_block))
unfolding create create_in
create-made allocate cb_block count pv region_size h e pos given =
    let some_count : (count == 0) ≡ false = ground arith in
    let size = block_size cb_block in
    let n = region_size % 2 ^ 32 / size in
    let filled : Bool × BlockHeap = (
      true,
      record {
        head = push_blocks (rounds n) pv size h.head;
        buf = pv;
        cb = region_size;
        count = n;
      },
    ) in
    rw (some_count, given)
      (ap
        (λ head. (
          true,
          record {
            head = push_blocks (rounds n) pv size head;
            buf = pv;
            cb = region_size;
            count = n;
          },
        ))
        e)

block_size-enough :
    (cb_block : ℕ)
    → cb_block < 2 ^ 31
    → (cb_block ≤ block_size cb_block) × (0 < block_size cb_block)
unfolding block_size
block_size-enough cb_block small = (ground arith, ground arith)

-- The block is in the region, IsBlock says so, and it is on the list once.
abbrev pub IsFree : (pv region_size cb_block a : ℕ) → BlockHeap → Type 0
IsFree pv region_size cb_block a h =
    (pv ≤ a) × (a + cb_block ≤ pv + region_size) × (is_block h a ≡ true) × (occurs a h.head ≡ 1)

rounds-div : (n size : ℕ) → 0 < size → size ≤ n → rounds (n / size) ≡ n / size
rounds-div n size pos le = elim (Bool-cases (n / size == 0)) [
  | inl e ↦
      let none_fits : n / size ≡ 0 = ground (arith, e) in
      let short : n < n / size * size + size = lt-div-mul-add pos in
      let shorter : n < 0 * size + size = subst (λ q. n < q * size + size) none_fits short in
      absurd (omega arith)
  | inr e ↦ rw e refl
]

IsFree-made :
    (pv region_size size cb_block a : ℕ)
    → cb_block ≤ size
    → 0 < size
    → size ≤ region_size
    → region_size < 2 ^ 32
    → pv + region_size ≤ 2 ^ 64
    → 0 < occurs a (made pv region_size size).head
    → IsFree pv region_size cb_block a (made pv region_size size)
unfolding is_block
IsFree-made pv region_size size cb_block a big pos holds lt high on =
    let n = region_size % 2 ^ 32 / size in
    let total = div-mul-le_self (region_size % 2 ^ 32) size in
    let fits : region_size % 2 ^ 32 ≡ region_size = omega arith in
    let some_room : size ≤ region_size % 2 ^ 32 = omega (arith, fits) in
    let loop : rounds n ≡ n = rounds-div (region_size % 2 ^ 32) size pos some_room in
    let once = push_blocks-once (rounds n) pv size [] a pos (ground arith) in
    let on' = subst (λ k. 0 < occurs a (push_blocks k pv size [])) loop on in
    elim (push_blocks-inside n pv size [] a on') [
      | inl g ↦ absurd (omega arith)
      | inr (p, q) ↦
          let there : a + size ≤ pv + region_size = omega (arith, total, q) in
          let offset : (a + 2 ^ 64 - pv) % 2 ^ 32 ≡ a - pv = omega (arith, there) in
          (p, omega (arith, there), rw offset (ground (arith, there)), omega (arith, once))
    ]

-- When Create gets a region of at least one block and less than 2 ^ 32 bytes, every block on its list lies in the region with
-- room for an object, IsBlock says so of it, and it is on the list once.
pub create-IsFree :
    (allocate : ℕ → Option (ℕ × ℕ)) (cb_block count pv region_size a : ℕ) (h : BlockHeap)
    → h.head ≡ []
    → cb_block < 2 ^ 31
    → 0 < count
    → allocate (block_size cb_block * count % 2 ^ 32) ≡ some (pv, region_size)
    → block_size cb_block ≤ region_size
    → region_size < 2 ^ 32
    → pv + region_size ≤ 2 ^ 64
    → 0 < occurs a (create allocate cb_block count h).1.head
    → IsFree pv region_size cb_block a (create allocate cb_block count h).1
create-IsFree allocate cb_block count pv region_size a h e small pos given holds lt high on =
    let m = create-made allocate cb_block count pv region_size h e pos given in
    let (big, some_size) = block_size-enough cb_block small in
    subst (λ r. IsFree pv region_size cb_block a r.1) (sym m)
      (IsFree-made pv region_size (block_size cb_block) cb_block a big some_size holds lt high
        (subst (λ r. 0 < occurs a r.1.head) m on))
