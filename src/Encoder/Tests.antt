-- ===== src/Encoder/Tests.antt =====
-- Runs of the sample pool, and its theorems at concrete words.
use camera_udp.Base.{
  ℕ, ◌<◌, ◌≡◌, refl, ◌⊎◌, true, false, not, [], ◌∷◌, ◌++◌, some, none, arith, if◌then◌else◌,
}
use camera_udp.Encoder.{
  Packed, try_dequeue_once, try_enqueue_once, try_enqueue_breaks, process_frame, on_need_input,
  packed_init, release_breaks,
}
use camera_udp.Encoder.Fifo.{
  contents, count, IsValid, try_enqueue_once-contents, try_dequeue_once-contents,
}
use camera_udp.Encoder.Steps.{System, take, enqueue, Reach, start, next, places}
use camera_udp.Encoder.Pool.{samples_in_one_place}

-- Two frames before the encoder asks: samples 3 and 2 are queued, and 3 is passed first.
two_frames : Packed
unfolding process_frame
two_frames = (process_frame 8 8 true (process_frame 8 8 true packed_init).2).2

two_frames-contents : contents two_frames ≡ 3 ∷ 2 ∷ []
unfolding two_frames contents
two_frames-contents = refl

two_frames_asked : (on_need_input two_frames).0 ≡ some 3
unfolding two_frames on_need_input
two_frames_asked = refl

-- A request that comes first is served by the next frame at once.
asked_first : (process_frame 8 8 true (on_need_input packed_init).1).1 ≡ some 3
unfolding process_frame on_need_input
asked_first = refl

two_frames-IsValid : IsValid two_frames
unfolding two_frames
two_frames-IsValid = record {
  write_in = omega arith;
  read_in = omega arith;
  queue_in = omega arith;
  empty = λ h. cc;
}

two_frames-count : count two_frames < 4
unfolding two_frames count
two_frames-count = omega arith

try_enqueue_once-contents_example :
    let (queued, s') = try_enqueue_once 1 two_frames in
    (queued ≡ not two_frames.need_input)
    × (contents s'
        ≡ (if two_frames.need_input then contents two_frames else contents two_frames ++ 1 ∷ []))
    × (s'.need_input ≡ false)
    × IsValid s'
try_enqueue_once-contents_example =
    try_enqueue_once-contents 1 two_frames two_frames-IsValid (omega arith) two_frames-count

try_dequeue_once-contents_example :
    let (index, s') = try_dequeue_once two_frames in
    IsValid s'
    × (((contents two_frames ≡ [])
          × (index ≡ none)
          × (s' ≡ record two_frames { need_input = true }))
        ⊎ ((i : ℕ) × (i < 4)
            × (index ≡ some i)
            × (contents two_frames ≡ i ∷ contents s')
            × (s'.need_input ≡ two_frames.need_input)))
try_dequeue_once-contents_example = try_dequeue_once-contents two_frames two_frames-IsValid

-- A thread takes sample 3 and queues it, another takes sample 2.
busy : (s : System) × Reach s
unfolding try_enqueue_once
busy = (_, next (next (next start (take 3 refl)) (enqueue 3 _ (omega arith) refl)) (take 2 refl))

samples_in_one_place_example :
    ((j : ℕ) → j < 4 → places busy.0 j ≡ 1)
    × ((i : ℕ)
        → 0 < busy.0.held i
        → (i < 4)
          × (try_enqueue_breaks busy.0.word ≡ false)
          × (release_breaks i busy.0.word ≡ false))
samples_in_one_place_example = samples_in_one_place busy.1
