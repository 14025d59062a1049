-- ===== src/Encoder/Fifo.antt =====
-- The packed queue of sample indices refines a first-in first-out queue.
use camera_udp.Base.{
  ℕ, suc, ◌+◌, ◌-◌, ◌%◌, ◌≤◌, ◌<◌, ◌≡◌, refl, ◌⊎◌, inl, inr, ◌∙◌, ap, Bool, true, false, not, List,
  [], ◌∷◌, ◌++◌, none, some, arith, ◌==◌, if◌then◌else◌, length, Bool-cases,
}
use camera_udp.Encoder.{
  Packed, cell, put_cell, try_dequeue_once, try_enqueue_once, try_enqueue_breaks,
}
use camera_udp.Encoder.Cells.{window, length-window, put_cell-lt, window-put}

-- The number of queued indices.
unfoldable pub count : Packed → ℕ
count s =
    if s.has_data
    then (if s.read_idx == s.write_idx then 4 else (s.write_idx + 4 - s.read_idx) % 4)
    else 0

-- The queued indices, oldest first.
unfoldable pub contents : Packed → List ℕ
unfolding count
contents s = window (cell s.index_queue) s.read_idx (count s)

pub record IsValid (s : Packed) : Type 0 where
  pub write_in : s.write_idx < 4
  pub read_in : s.read_idx < 4
  pub queue_in : s.index_queue < 256
  pub empty : s.has_data ≡ false → s.read_idx ≡ s.write_idx

pub length-contents : (s : Packed) → length (contents s) ≡ count s
unfolding contents
length-contents s = length-window _ s.read_idx (count s)

count-le : (s : Packed) → IsValid s → count s ≤ 4
unfolding count
count-le s v = ground arith

abbrev enqueued : ℕ → Packed → Packed
enqueued i s = record s {
  index_queue = put_cell s.index_queue s.write_idx i;
  has_data = true;
  write_idx = (s.write_idx + 1) % 4;
}

count-enqueued :
    (i : ℕ) (s : Packed) → IsValid s → count s < 4 → count (enqueued i s) ≡ suc (count s)
unfolding count
count-enqueued i s v room = ground arith

write_idx-eq : (s : Packed) → IsValid s → count s < 4 → s.write_idx ≡ (s.read_idx + count s) % 4
unfolding count
write_idx-eq s v room = ground arith

contents-enqueued :
    (i : ℕ) (s : Packed)
    → IsValid s
    → i < 4
    → count s < 4
    → contents (enqueued i s) ≡ contents s ++ i ∷ []
unfolding contents
contents-enqueued i s v hi room =
    ap (window _ s.read_idx) (count-enqueued i s v room)
    ∙ window-put s.index_queue i (count s) s.read_idx s.write_idx v.read_in room hi
        (write_idx-eq s v room)

-- `TryEnqueue` of a sample index, on a word with fewer than four queued: without a pending request it
-- appends the index to the queue and says TRUE; with one it takes the request back, leaves the queue,
-- and says FALSE. The word stays well formed.
pub try_enqueue_once-contents :
    (i : ℕ) (s : Packed)
    → IsValid s
    → i < 4
    → count s < 4
    → let (queued, s') = try_enqueue_once i s in
      (queued ≡ not s.need_input)
      × (contents s' ≡ (if s.need_input then contents s else contents s ++ i ∷ []))
      × (s'.need_input ≡ false)
      × IsValid s'
unfolding try_enqueue_once contents
try_enqueue_once-contents i s v hi room = elim (Bool-cases s.need_input) [
  | inl e ↦ rw e (
    refl,
    refl,
    refl,
    record { write_in = v.write_in; read_in = v.read_in; queue_in = v.queue_in; empty = v.empty },
  )
  | inr e ↦ rw e (
    refl,
    contents-enqueued i s v hi room,
    refl,
    record {
      write_in = omega arith;
      read_in = v.read_in;
      queue_in = put_cell-lt s.index_queue s.write_idx i v.queue_in v.write_in hi;
      empty = λ h. cc;
    },
  )
]

abbrev dequeued : Packed → Packed
dequeued s = record s {
  read_idx = (s.read_idx + 1) % 4;
  has_data = if (s.read_idx + 1) % 4 == s.write_idx then false else true;
}

count-dequeued : (s : Packed) → IsValid s → s.has_data ≡ true → count s ≡ suc (count (dequeued s))
unfolding count
count-dequeued s v h = ground arith

dequeued-IsValid : (s : Packed) → IsValid s → IsValid (dequeued s)
dequeued-IsValid s v = record {
  write_in = v.write_in;
  read_in = omega arith;
  queue_in = v.queue_in;
  empty = λ h. ground arith;
}

contents-dequeued :
    (s : Packed)
    → IsValid s
    → s.has_data ≡ true
    → contents s ≡ cell s.index_queue s.read_idx ∷ contents (dequeued s)
unfolding contents
contents-dequeued s v h = ap (window (cell s.index_queue) s.read_idx) (count-dequeued s v h)

contents-empty : (s : Packed) → s.has_data ≡ false → contents s ≡ []
unfolding contents
contents-empty s h = rw h refl

try_dequeue_once-data :
    (s : Packed)
    → s.has_data ≡ true
    → try_dequeue_once s ≡ (some (cell s.index_queue s.read_idx), dequeued s)
unfolding try_dequeue_once
try_dequeue_once-data s h = rw h refl

try_dequeue_once-empty :
    (s : Packed) → s.has_data ≡ false → try_dequeue_once s ≡ (none, record s { need_input = true })
unfolding try_dequeue_once
try_dequeue_once-empty s h = rw h refl

-- `TryDequeue`: from an empty queue it returns -1 and leaves a request for input; else it takes the
-- oldest index off the queue and returns it. The word stays well formed.
pub try_dequeue_once-contents :
    (s : Packed)
    → IsValid s
    → let (index, s') = try_dequeue_once s in
      IsValid s'
      × (((contents s ≡ []) × (index ≡ none) × (s' ≡ record s { need_input = true }))
          ⊎ ((i : ℕ) × (i < 4)
              × (index ≡ some i)
              × (contents s ≡ i ∷ contents s')
              × (s'.need_input ≡ s.need_input)))
try_dequeue_once-contents s v = elim (Bool-cases s.has_data) [
  | inl e ↦ rw (try_dequeue_once-data s e) (
    dequeued-IsValid s v,
    inr (cell s.index_queue s.read_idx, omega arith, refl, contents-dequeued s v e, refl),
  )
  | inr e ↦ rw (try_dequeue_once-empty s e) (
    record { write_in = v.write_in; read_in = v.read_in; queue_in = v.queue_in; empty = v.empty },
    inl (contents-empty s e, refl, refl),
  )
]

-- The free bits are no part of the queue, and its operations leave them alone.
pub contents-free :
    (s : Packed) (bits : List Bool) → contents (record s { free = bits }) ≡ contents s
unfolding contents
contents-free s bits = refl

pub free-try_enqueue_once : (i : ℕ) (s : Packed) → (try_enqueue_once i s).1.free ≡ s.free
unfolding try_enqueue_once
free-try_enqueue_once i s = ground arith

pub free-try_dequeue_once : (s : Packed) → (try_dequeue_once s).1.free ≡ s.free
unfolding try_dequeue_once
free-try_dequeue_once s = ground arith

-- The check for a full queue fails while fewer than four are queued.
pub try_enqueue_breaks-eq_false :
    (s : Packed) → IsValid s → count s < 4 → try_enqueue_breaks s ≡ false
unfolding try_enqueue_breaks count
try_enqueue_breaks-eq_false s v room = ground arith

-- The same, for an attempt with a known result.
pub try_enqueue_once-true :
    (i : ℕ) (s w : Packed)
    → IsValid s
    → i < 4
    → count s < 4
    → try_enqueue_once i s ≡ (true, w)
    → IsValid w × (contents w ≡ contents s ++ i ∷ []) × (w.free ≡ s.free)
try_enqueue_once-true i s w v hi room e =
    let (a, b, c, d) = rw e at (try_enqueue_once-contents i s v hi room) in
    let f = rw e at (free-try_enqueue_once i s) in (d, ground arith, f)

pub try_enqueue_once-false :
    (i : ℕ) (s w : Packed)
    → IsValid s
    → i < 4
    → count s < 4
    → try_enqueue_once i s ≡ (false, w)
    → IsValid w × (contents w ≡ contents s) × (w.free ≡ s.free)
try_enqueue_once-false i s w v hi room e =
    let (a, b, c, d) = rw e at (try_enqueue_once-contents i s v hi room) in
    let f = rw e at (free-try_enqueue_once i s) in (d, ground arith, f)

pub try_dequeue_once-some :
    (i : ℕ) (s w : Packed)
    → IsValid s
    → try_dequeue_once s ≡ (some i, w)
    → IsValid w × (i < 4) × (contents s ≡ i ∷ contents w) × (w.free ≡ s.free)
try_dequeue_once-some i s w v e =
    let (d, r) = rw e at (try_dequeue_once-contents s v) in
    let f = rw e at (free-try_dequeue_once s) in (d, ground arith, ground arith, f)

pub try_dequeue_once-none :
    (s w : Packed)
    → IsValid s
    → try_dequeue_once s ≡ (none, w)
    → IsValid w × (contents s ≡ []) × (contents w ≡ contents s) × (w.free ≡ s.free)
unfolding contents
try_dequeue_once-none s w v e =
    let (d, r) = rw e at (try_dequeue_once-contents s v) in
    let f = rw e at (free-try_dequeue_once s) in (d, ground arith, ground arith, f)
