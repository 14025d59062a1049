-- ===== src/Irps/Steps.antt =====
-- Requests and objects that are made and deleted in any order, and what each step keeps.
use camera_udp.Base.{
  ℕ, ◌+◌, ◌%◌, ◌^◌, ◌<◌, ◌≡◌, refl, sym, ap, subst, ◌∙◌, ◌⊎◌, inl, inr, Bool, true, false, List, [],
  ◌∷◌, length, Option, none, some, arith, ◌==◌, if◌then◌else◌, one, occurs, occurs-remove,
  Bool-cases,
}
use mathlib.Core.Bool.{true≢false}
use camera_udp.Rundown.{release, rundown_l, is_negative}
use camera_udp.Irps.{
  BlockHeap, is_block, pop, alloc, free, Irps, new_acquired, operator_new, operator_delete,
  object_new, object_delete,
}

abbrev pub in_use : Irps → ℕ
in_use s = length s.live + s.objects

-- Memory of the process is not taken for a block.
abbrev pub IsForeign : BlockHeap → Option ℕ → Type 0
IsForeign h none = Unit {0}
IsForeign h (some p) = is_block h p ≡ false

pub data Step (s : Irps) : Irps → Type 0 where
  new_irp :
      (exact : Bool) (process_heap : Option ℕ)
      → in_use s + 1 < 2 ^ 31
      → IsForeign s.blocks process_heap
      → Step s (operator_new exact process_heap s).1
  delete_irp : (p : ℕ) → 0 < occurs p s.live → Step s (operator_delete p s)
  new_object : (granted : Bool) → in_use s + 1 < 2 ^ 31 → Step s (object_new granted s).1
  delete_object : 0 < s.objects → Step s (object_delete s)
  close : 0 < in_use s → Step s (record s { word = rundown_l s.word })

-- Nothing is in use, and Init has set the sign bit.
abbrev pub started : BlockHeap → Irps
started h = record { blocks = h; word = 2 ^ 31; live = []; objects = 0 }

pub data Reach (h : BlockHeap) : Irps → Type 0 where
  start : Reach h (started h)
  next : {s t : Irps} → Reach h s → Step s t → Reach h t

-- The blocks of `h` are free or in use.
pub record Kept (h : BlockHeap) (s : Irps) : Type 0 where
  pub place : (a : ℕ) → is_block s.blocks a ≡ is_block h a
  pub same :
      (a : ℕ) → is_block h a ≡ true → occurs a s.blocks.head + occurs a s.live ≡ occurs a h.head
  pub few : in_use s < 2 ^ 31
  pub counts : (s.word ≡ 2 ^ 31 + in_use s) ⊎ (s.word ≡ in_use s)

abbrev given : Option ℕ → ℕ → ℕ
given none a = 0
given (some p) a = one p a

record Took (h : BlockHeap) (r : Option ℕ × BlockHeap) : Type 0 where
  place : (a : ℕ) → is_block r.1 a ≡ is_block h a
  same : (a : ℕ) → occurs a r.1.head + given r.0 a ≡ occurs a h.head

Took-pop : (h : BlockHeap) (head : List ℕ) → h.head ≡ head → Took h (pop h head)
unfolding is_block
Took-pop h [] e = record { place = λ a. refl; same = λ a. omega arith }
Took-pop h (p ∷ head) e = record { place = λ a. refl; same = λ a. omega (arith, ap (occurs a) e) }

Took-blocks : (h : BlockHeap) (exact : Bool) → Took h (if exact then alloc h else (none, h))
unfolding alloc
Took-blocks h true = Took-pop h h.head refl
Took-blocks h false = record { place = λ a. refl; same = λ a. omega arith }

-- A block is not the memory of the process.
one-foreign : (h : BlockHeap) (p a : ℕ) → is_block h p ≡ false → is_block h a ≡ true → one p a ≡ 0
one-foreign h p a e f = elim (Bool-cases (p == a)) [
  | inl q ↦
      let same : p ≡ a = ground (arith, q) in
      absurd (true≢false (sym f ∙ subst (λ x. is_block h x ≡ false) same e))
  | inr q ↦ rw q refl
]

Kept-new_acquired :
    (h : BlockHeap) (process_heap : Option ℕ) (r : Option ℕ × BlockHeap) (s : Irps) (word : ℕ)
    → Kept h s
    → IsForeign s.blocks process_heap
    → Took s.blocks r
    → in_use s + 1 < 2 ^ 31
    → (word ≡ 2 ^ 31 + in_use s + 1) ⊎ (word ≡ in_use s + 1)
    → Kept h (new_acquired process_heap r (record s { word = word })).1
unfolding new_acquired release
Kept-new_acquired h process_heap (some p, g) s word k f t lt w = record {
  place = λ a. t.place a ∙ k.place a;
  same = λ a b. omega (arith, t.same a, k.same a b);
  few = omega arith;
  counts = ground (arith, w);
}
Kept-new_acquired h (some p) (none, g) s word k f t lt w = record {
  place = λ a. t.place a ∙ k.place a;
  same = λ a b. omega (arith, t.same a, k.same a b, one-foreign s.blocks p a f (k.place a ∙ b));
  few = omega arith;
  counts = ground (arith, w);
}
Kept-new_acquired h none (none, g) s word k f t lt w = record {
  place = λ a. t.place a ∙ k.place a;
  same = λ a b. omega (arith, t.same a, k.same a b);
  few = omega arith;
  counts = ground (arith, w);
}

pub Kept-operator_new :
    (h : BlockHeap) (exact : Bool) (process_heap : Option ℕ) (s : Irps)
    → Kept h s
    → IsForeign s.blocks process_heap
    → in_use s + 1 < 2 ^ 31
    → Kept h (operator_new exact process_heap s).1
unfolding operator_new
Kept-operator_new h exact process_heap s k f lt =
    let few = k.few in
    let counts = k.counts in
    elim (Bool-cases (is_negative s.word)) [
      | inl e ↦ rw e (
          Kept-new_acquired h process_heap (if exact then alloc s.blocks else (none, s.blocks)) s
            ((s.word + 1) % 2 ^ 32) k f (Took-blocks s.blocks exact) lt
            (ground (arith, e, few, counts)))
      | inr e ↦ rw e (record { place = k.place; same = k.same; few = few; counts = counts })
    ]

pub Kept-operator_delete :
    (h : BlockHeap) (p : ℕ) (s : Irps)
    → Kept h s
    → 0 < occurs p s.live
    → Kept h (operator_delete p s)
unfolding operator_delete free is_block release
Kept-operator_delete h p s k on =
    let few = k.few in
    let counts = k.counts in
    let o = λ (a : ℕ). occurs-remove p s.live a on in
    let shorter = (o p).1 in
    elim (Bool-cases (is_block s.blocks p)) [
      | inl e ↦ rw e (record {
        place = k.place;
        same = λ a b. omega (arith, k.same a b, (o a).0);
        few = omega (arith, few, shorter);
        counts = ground (arith, counts, few, shorter);
      })
      | inr e ↦ rw e (record {
        place = k.place;
        same =
            λ a b. omega (arith, k.same a b, (o a).0, one-foreign s.blocks p a e (k.place a ∙ b));
        few = omega (arith, few, shorter);
        counts = ground (arith, counts, few, shorter);
      })
    ]

pub Kept-object_new :
    (h : BlockHeap) (granted : Bool) (s : Irps)
    → Kept h s
    → in_use s + 1 < 2 ^ 31
    → Kept h (object_new granted s).1
unfolding object_new release
Kept-object_new h true s k lt =
    let few = k.few in
    let counts = k.counts in
    elim (Bool-cases (is_negative s.word)) [
      | inl e ↦ rw e (record {
        place = k.place;
        same = k.same;
        few = omega (arith, few);
        counts = ground (arith, counts, few, e);
      })
      | inr e ↦ rw e (record { place = k.place; same = k.same; few = few; counts = counts })
    ]
Kept-object_new h false s k lt =
    let few = k.few in
    let counts = k.counts in
    elim (Bool-cases (is_negative s.word)) [
      | inl e ↦ rw e (record {
        place = k.place;
        same = k.same;
        few = omega (arith, few);
        counts = ground (arith, counts, few, e);
      })
      | inr e ↦ rw e (record { place = k.place; same = k.same; few = few; counts = counts })
    ]
