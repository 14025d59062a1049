-- ===== src/Encoder/Steps.antt =====
-- The atomic operations of threads on m_packedState, in any order, and the states they reach.
use camera_udp.Base.{
  one, occurs, ℕ, ◌+◌, ◌-◌, ◌<◌, ◌≡◌, Bool, true, false, List, [], ◌∷◌, none, some, get_or, set,
}
use camera_udp.Encoder.{Packed, try_dequeue_once, try_enqueue_once, release_pool_slot, packed_init}
use camera_udp.Encoder.Fifo.{contents}

-- `held i` counts the threads that work on sample `i`; no code keeps it.
pub record System : Type 0 where
  pub word : Packed
  pub held : ℕ → ℕ

abbrev pub bit_of : Bool → ℕ
bit_of true = 1
bit_of false = 0

-- One atomic operation of some thread: a bit of AcquirePoolSlot, a successful compare-exchange, or
-- ReleasePoolSlot.
pub data Step (s : System) : System → Type 0 where
  take :
      (i : ℕ)
      → get_or s.word.free i false ≡ true
      → Step s (record {
        word = record s.word { free = set s.word.free i false };
        held = λ j. s.held j + one i j;
      })
  enqueue :
      (i : ℕ) (w : Packed)
      → 0 < s.held i
      → try_enqueue_once i s.word ≡ (true, w)
      → Step s (record { word = w; held = λ j. s.held j - one i j })
  keep :
      (i : ℕ) (w : Packed)
      → 0 < s.held i
      → try_enqueue_once i s.word ≡ (false, w)
      → Step s (record { word = w; held = s.held })
  request :
      (w : Packed)
      → try_dequeue_once s.word ≡ (none, w)
      → Step s (record { word = w; held = s.held })
  dequeue :
      (i : ℕ) (w : Packed)
      → try_dequeue_once s.word ≡ (some i, w)
      → Step s (record { word = w; held = λ j. s.held j + one i j })
  give :
      (i : ℕ)
      → 0 < s.held i
      → Step s (record { word = release_pool_slot i s.word; held = λ j. s.held j - one i j })

abbrev pub initial : System
initial = record { word = packed_init; held = λ _. 0 }

pub data Reach : System → Type 0 where
  start : Reach initial
  next : {s t : System} → Reach s → Step s t → Reach t

abbrev pub AllBelow : ℕ → List ℕ → Type 0
AllBelow n [] = Unit {0}
AllBelow n (i ∷ is) = (i < n) × AllBelow n is

-- Where sample `j` is: as a free bit, in the queue, with threads.
abbrev pub places : System → ℕ → ℕ
places s j = bit_of (get_or s.word.free j false) + occurs j (contents s.word) + s.held j
