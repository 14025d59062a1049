-- ===== src/Encoder.antt =====
-- The sample pool of the encoder (class H264 of camera server/H264.h and H264.cpp): m_packedState is
-- one 32-bit word with four bits of free samples, a queue of up to four 2-bit sample indices, and two
-- flags. Each attempt of a compare-exchange loop is one function of the word; a loop takes the words
-- that memory holds at its successive attempts, and `none` says that the list ended first.
pub mod Cells
pub mod Fifo
pub mod Steps
pub mod Pool
mod Tests
use camera_udp.Base.{
  ℕ, zero, suc, ◌+◌, ◌-◌, ◌*◌, ◌/◌, ◌%◌, ◌^◌, Bool, true, false, not, ◌&&◌, List, [], ◌∷◌, Option,
  none, some, ◌==◌, if◌then◌else◌, get_or, set, replicate, ℕ_discrete,
}

-- The bit fields, without m_reserved, which nothing reads. `free` are the four bits, lowest first.
pub record Packed : Type 0 where
  pub free : List Bool
  pub write_idx : ℕ
  pub read_idx : ℕ
  pub index_queue : ℕ
  pub need_input : Bool
  pub has_data : Bool

pub Packed-discrete : Discrete Packed
Packed-discrete = hlevel ℕ_discrete

-- (m_indexQueue & (3 << shift)) >> shift, for shift = 2 * r
abbrev pub cell : (q r : ℕ) → ℕ
cell q r = q / 4 ^ r % 4

-- (m_indexQueue & ~(3 << shift)) | (index << shift), for an index below 4
abbrev pub put_cell : (q r i : ℕ) → ℕ
put_cell q r i = q - cell q r * 4 ^ r + i * 4 ^ r

-- One attempt of `TryDequeue`: `none` is the index -1.
unfoldable pub try_dequeue_once : Packed → Option ℕ × Packed
try_dequeue_once s =
    let next = (s.read_idx + 1) % 4 in
    if s.has_data
    then (
      some (cell s.index_queue s.read_idx),
      record s { read_idx = next; has_data = if next == s.write_idx then false else true },
    )
    else (none, record s { need_input = true })

-- One attempt of `TryEnqueue`.
unfoldable pub try_enqueue_once : ℕ → Packed → Bool × Packed
try_enqueue_once i s = if s.need_input then (false, record s { need_input = false }) else (
  true,
  record s {
    index_queue = put_cell s.index_queue s.write_idx i;
    has_data = true;
    write_idx = (s.write_idx + 1) % 4;
  },
)

-- The attempt reaches __debugbreak: the queue is full.
unfoldable pub try_enqueue_breaks : Packed → Bool
try_enqueue_breaks s = not s.need_input && (s.read_idx == s.write_idx) && s.has_data

-- The loop around an attempt: it is made on the guess, and stands if memory still holds the guess.
unfoldable pub cas_loop {ℓ} :
    {R : Type ℓ} → (Packed → R × Packed) → List Packed → Packed → Option (R × Packed)
cas_loop attempt [] guess = none
cas_loop attempt (word ∷ words) guess = elim (Packed-discrete word guess) [
  | yes _ ↦ some (attempt guess)
  | no _ ↦ cas_loop attempt words word
]

unfoldable pub try_dequeue : (first : Packed) → List Packed → Option (Option ℕ × Packed)
unfolding cas_loop try_dequeue_once
try_dequeue first words = cas_loop try_dequeue_once words first

unfoldable pub try_enqueue : ℕ → (first : Packed) → List Packed → Option (Bool × Packed)
unfolding cas_loop try_enqueue_once
try_enqueue i first words = cas_loop (try_enqueue_once i) words first

-- The loop of `AcquirePoolSlot` over the samples below `n`, with no other thread in between.
unfoldable pub acquire_from : (n : ℕ) → Packed → Option ℕ × Packed
acquire_from zero s = (none, s)
acquire_from (suc n) s =
    let rest = acquire_from n s in
    if get_or s.free n false then (some n, record s { free = set s.free n false }) else rest

unfoldable pub acquire_pool_slot : Packed → Option ℕ × Packed
unfolding acquire_from
acquire_pool_slot = acquire_from 4

unfoldable pub release_pool_slot : ℕ → Packed → Packed
release_pool_slot i s = record s { free = set s.free i true }

-- The release reaches __debugbreak: the sample is free already.
unfoldable pub release_breaks : ℕ → Packed → Bool
release_breaks i s = get_or s.free i false

-- `ProcessFrame`, with no other thread in between: the reply, the sample that is passed to
-- ProcessInput, and the word. `filled` says whether the frame could be copied into the sample.
unfoldable pub process_frame :
    (cb_frame cb : ℕ) → (filled : Bool) → Packed → Bool × Option ℕ × Packed
unfolding acquire_pool_slot try_enqueue_once release_pool_slot
process_frame cb_frame cb filled s =
    let (slot, s1) = acquire_pool_slot s in
    if cb == cb_frame
    then elim slot [
      | none ↦ (true, none, s1)
      | some i ↦
          let (queued, s2) = try_enqueue_once i s1 in
          if filled
          then (if queued then (true, none, s2) else (true, some i, release_pool_slot i s2))
          else (true, none, release_pool_slot i s1)
    ]
    else (false, none, s)

-- METransformNeedInput in `Invoke`: the sample that is passed to ProcessInput, and the word.
unfoldable pub on_need_input : Packed → Option ℕ × Packed
unfolding try_dequeue_once release_pool_slot
on_need_input s =
    let (index, s1) = try_dequeue_once s in
    elim index [ none ↦ (none, s1) | some i ↦ (some i, release_pool_slot i s1) ]

-- The word after `Init` with all four samples.
abbrev pub packed_init : Packed
packed_init = record {
  free = replicate 4 true;
  write_idx = 0;
  read_idx = 0;
  index_queue = 0;
  need_input = false;
  has_data = false;
}
