-- ===== src/Encoder/Pool.antt =====
-- Each sample is free, queued or in the hands of one thread, so no __debugbreak of TryEnqueue and
-- ReleasePoolSlot is reached.
use camera_udp.Base.{
  one, occurs, ℕ, zero, suc, ◌+◌, ◌-◌, ◌≤◌, ◌<◌, ◌≡◌, refl, ◌∙◌, subst, ap, Bool, true, false, List,
  [], ◌∷◌, ◌++◌, arith, ◌==◌, if◌then◌else◌, length, get_or, set, length-set, get_or-set_self,
  get_or-set_ne, ℕ_discrete, dec_lt, ==_of_eq, ==_of_ne,
}
use camera_udp.Encoder.{Packed, try_enqueue_breaks, release_pool_slot, release_breaks}
use camera_udp.Encoder.Fifo.{
  count, contents, IsValid, length-contents, contents-free, try_enqueue_breaks-eq_false,
  try_enqueue_once-true, try_enqueue_once-false, try_dequeue_once-some, try_dequeue_once-none,
}
use camera_udp.Encoder.Steps.{
  System, Step, initial, Reach, places, AllBelow, take, enqueue, keep, request, dequeue, give,
  start, next,
}

record Inv (s : System) : Type 0 where
  valid : IsValid s.word
  bits : length s.word.free ≡ 4
  queued : AllBelow 4 (contents s.word)
  once : (j : ℕ) → j < 4 → places s j ≡ 1
  beyond : (j : ℕ) → 4 ≤ j → s.held j ≡ 0

occurs-append : (j : ℕ) (xs ys : List ℕ) → occurs j (xs ++ ys) ≡ occurs j xs + occurs j ys
occurs-append j [] ys = omega arith
occurs-append j (x ∷ xs) ys = omega (arith, occurs-append j xs ys)

AllBelow-append : (n : ℕ) (xs ys : List ℕ) → AllBelow n xs → AllBelow n ys → AllBelow n (xs ++ ys)
AllBelow-append n [] ys h g = g
AllBelow-append n (x ∷ xs) ys (a, h) g = (a, AllBelow-append n xs ys h g)

length-occurs :
    (xs : List ℕ)
    → AllBelow 4 xs
    → length xs ≡ occurs 0 xs + occurs 1 xs + occurs 2 xs + occurs 3 xs
length-occurs [] h = refl
length-occurs (zero ∷ xs) (a, h) = omega (arith, length-occurs xs h)
length-occurs (suc zero ∷ xs) (a, h) = omega (arith, length-occurs xs h)
length-occurs (suc (suc zero) ∷ xs) (a, h) = omega (arith, length-occurs xs h)
length-occurs (suc (suc (suc zero)) ∷ xs) (a, h) = omega (arith, length-occurs xs h)
length-occurs (suc (suc (suc (suc n))) ∷ xs) (a, h) = absurd (omega arith)

-- While a thread has a sample, the queue has room.
held-room : {s : System} (i : ℕ) → Inv s → 0 < s.held i → (i < 4) × (count s.word < 4)
held-room {s} i v h = elim (dec_lt i 4) [
  | yes lt ↦ (lt, room i lt h)
  | no ge ↦ absurd (omega (arith, v.beyond i (omega arith)))
]
  where
    sum : count s.word + (s.held 0 + s.held 1 + s.held 2 + s.held 3) ≤ 4
    sum = omega (
      arith,
      length-contents s.word,
      length-occurs (contents s.word) v.queued,
      v.once 0 (omega arith),
      v.once 1 (omega arith),
      v.once 2 (omega arith),
      v.once 3 (omega arith),
    )

    room : (k : ℕ) → k < 4 → 0 < s.held k → count s.word < 4
    room zero lt pos = omega (arith, sum)
    room (suc zero) lt pos = omega (arith, sum)
    room (suc (suc zero)) lt pos = omega (arith, sum)
    room (suc (suc (suc zero))) lt pos = omega (arith, sum)
    room (suc (suc (suc (suc k)))) lt pos = absurd (omega arith)

bit-set :
    (xs : List Bool) (i j : ℕ) (b : Bool)
    → i < length xs
    → get_or (set xs i b) j false ≡ (if i == j then b else get_or xs j false)
bit-set xs i j b h = elim (ℕ_discrete i j) [
  | yes e ↦
      rw (==_of_eq e)
        (subst (λ k. get_or (set xs i b) k false ≡ b) e (get_or-set_self xs i b false h))
  | no ne ↦ rw (==_of_ne ne) (get_or-set_ne xs i j b false ne)
]

below_of_bit : (xs : List Bool) (i : ℕ) → get_or xs i false ≡ true → i < length xs
below_of_bit [] i h = cc
below_of_bit (x ∷ xs) zero h = omega arith
below_of_bit (x ∷ xs) (suc i) h = omega (arith, below_of_bit xs i h)

-- The fields of a word with other free bits.
IsValid-free : (w : Packed) (bits : List Bool) → IsValid w → IsValid (record w { free = bits })
IsValid-free w bits v = record {
  write_in = v.write_in;
  read_in = v.read_in;
  queue_in = v.queue_in;
  empty = v.empty;
}

take-Inv :
    {s : System} (i : ℕ)
    → Inv s
    → get_or s.word.free i false ≡ true
    → Inv (record {
      word = record s.word { free = set s.word.free i false };
      held = λ j. s.held j + one i j;
    })
take-Inv {s} i v h =
    let lt = below_of_bit s.word.free i h in
    record {
      valid = IsValid-free s.word _ v.valid;
      bits = length-set s.word.free i false ∙ v.bits;
      queued = rw (contents-free s.word (set s.word.free i false)) v.queued;
      once = λ j lt'.
          rw (contents-free s.word (set s.word.free i false))
            (ground (arith, v.once j lt', bit-set s.word.free i j false lt));
      beyond = λ j ge. ground (arith, v.beyond j ge, v.bits);
    }

give-Inv :
    {s : System} (i : ℕ)
    → Inv s
    → 0 < s.held i
    → Inv (record { word = release_pool_slot i s.word; held = λ j. s.held j - one i j })
unfolding release_pool_slot
give-Inv {s} i v pos =
    let lt = (held-room i v pos).0 in
    record {
      valid = IsValid-free s.word _ v.valid;
      bits = length-set s.word.free i true ∙ v.bits;
      queued = rw (contents-free s.word (set s.word.free i true)) v.queued;
      once = λ j lt'.
          rw (contents-free s.word (set s.word.free i true))
            (ground (arith, v.once j lt', bit-set s.word.free i j true (omega (arith, v.bits))));
      beyond = λ j ge. omega (arith, v.beyond j ge);
    }

Step-Inv : {s t : System} → Step s t → Inv s → Inv t
unfolding contents
Step-Inv (take i h) v = take-Inv i v h
Step-Inv {s} (enqueue i w pos e) v =
    let (lt, room) = held-room i v pos in
    let (valid, c, f) = try_enqueue_once-true i s.word w v.valid lt room e in
    record {
      valid = valid;
      bits = rw f v.bits;
      queued = rw c (AllBelow-append 4 (contents s.word) (i ∷ []) v.queued (lt, tt));
      once = λ j lt'.
          rw (c, f) (ground (arith, v.once j lt', occurs-append j (contents s.word) (i ∷ [])));
      beyond = λ j ge. omega (arith, v.beyond j ge);
    }
Step-Inv {s} (keep i w pos e) v =
    let (lt, room) = held-room i v pos in
    let (valid, c, f) = try_enqueue_once-false i s.word w v.valid lt room e in
    record {
      valid = valid;
      bits = rw f v.bits;
      queued = rw c v.queued;
      once = λ j lt'. rw (c, f) (v.once j lt');
      beyond = v.beyond;
    }
Step-Inv {s} (request w e) v =
    let (valid, _, c, f) = try_dequeue_once-none s.word w v.valid e in
    record {
      valid = valid;
      bits = rw f v.bits;
      queued = rw c v.queued;
      once = λ j lt'. rw (c, f) (v.once j lt');
      beyond = v.beyond;
    }
Step-Inv {s} (dequeue i w e) v =
    let (valid, lt, c, f) = try_dequeue_once-some i s.word w v.valid e in
    let q : AllBelow 4 (i ∷ contents w) = rw c at v.queued in
    record {
      valid = valid;
      bits = rw f v.bits;
      queued = q.1;
      once = λ j lt'. rw f (omega (arith, v.once j lt', ap (occurs j) c));
      beyond = λ j ge. ground (arith, v.beyond j ge);
    }
Step-Inv (give i pos) v = give-Inv i v pos

places-initial : (j : ℕ) → j < 4 → places initial j ≡ 1
unfolding contents
places-initial zero lt = refl
places-initial (suc zero) lt = refl
places-initial (suc (suc zero)) lt = refl
places-initial (suc (suc (suc zero))) lt = refl
places-initial (suc (suc (suc (suc j)))) lt = absurd (omega arith)

initial-Inv : Inv initial
unfolding contents
initial-Inv = record {
  valid = record {
    write_in = omega arith;
    read_in = omega arith;
    queue_in = omega arith;
    empty = λ _. refl;
  };
  bits = refl;
  queued = tt;
  once = places-initial;
  beyond = λ j ge. refl;
}

Reach-Inv : {s : System} → Reach s → Inv s
Reach-Inv start = initial-Inv
Reach-Inv (next r st) = Step-Inv st (Reach-Inv r)

-- In every state that threads reach from `Init` with all four samples: each of the four samples is in
-- exactly one place, as a free bit, in the queue, or with one thread; and while a thread works on a
-- sample, its index is below four, TryEnqueue finds the queue not full, and ReleasePoolSlot finds the
-- sample not free, so that neither reaches its __debugbreak.
pub samples_in_one_place :
    {s : System}
    → Reach s
    → ((j : ℕ) → j < 4 → places s j ≡ 1)
      × ((i : ℕ)
          → 0 < s.held i
          → (i < 4) × (try_enqueue_breaks s.word ≡ false) × (release_breaks i s.word ≡ false))
unfolding release_breaks
samples_in_one_place {s} r =
    let v = Reach-Inv r in
    (
      v.once,
      λ i pos.
          let (lt, room) = held-room i v pos in
          (lt, try_enqueue_breaks-eq_false s.word v.valid room, ground (arith, v.once i lt)),
    )
