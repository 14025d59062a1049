-- ===== src/Capture/Tests.antt =====
-- Runs of the frame reader, and its theorems at concrete states.
use camera_udp.Base.{
  occurs, ℕ, ◌+◌, ◌≤◌, ◌<◌, ◌≡◌, refl, ◌⊎◌, true, false, [], ◌∷◌, some, arith, length, replicate,
}
use camera_udp.Capture.{
  KsRead, empty, samples_buffer_size, status_pending, create, create_pin, create_bound, push_frames,
  push_frame, align_sample, start_reads, read_next, read_from, read_data, check_nt_status,
  on_read_complete, on_read_begin, on_read_end, io_completion_routine, io_failed, push_pointer,
  stop_target, close, stop,
}
use camera_udp.Capture.Steps.{Threads, Step, Reach, created, start_read, fail, start, next}
use camera_udp.Capture.Samples.{create-frames}
use camera_udp.Capture.Conserved.{frames_conserved}
use camera_udp.Capture.Drained.{weight, closed_drains}

-- Samples of 20 bytes take 32 each.
ready : KsRead
unfolding create
ready = (create (some 1024) 0 0 0 20 empty).1

ready-head : length ready.head ≡ 16
unfolding ready create create_pin create_bound push_frames push_frame
ready-head = refl

running : KsRead
unfolding start_reads
running = start_reads (replicate 8 (true, status_pending)) ready

-- The last frame of the buffer is read first.
running-reading : running.reading ≡ 1280 ∷ 1312 ∷ 1344 ∷ 1376 ∷ 1408 ∷ 1440 ∷ 1472 ∷ 1504 ∷ []
unfolding running ready create create_pin create_bound push_frames push_frame align_sample
    start_reads read_next read_from read_data check_nt_status
running-reading = refl

-- A frame that H264 refuses stops the reader and its target once.
refused : (on_read_complete true status_pending 20 false 1504 running).target_stops ≡ 1
unfolding running ready create create_pin create_bound push_frames push_frame align_sample
    start_reads read_next read_from read_data check_nt_status on_read_complete on_read_begin
    on_read_end io_completion_routine io_failed push_pointer stop_target close stop
refused = refl

-- A second failure after a first stops the target again, unless Stop was called.
failed_twice :
    (io_completion_routine 0xC0000120 true 0 0 true 1472
      (io_completion_routine 0xC0000120 true 0 0 true 1504 running)).target_stops
    ≡ 2
unfolding running ready create create_pin create_bound push_frames push_frame align_sample
    start_reads read_next read_from read_data check_nt_status on_read_complete on_read_begin
    on_read_end io_completion_routine io_failed push_pointer stop_target close stop
failed_twice = refl

create-frames_example :
    let head = (create (some 1024) 0 0 0 20 empty).1.head in
    (0 < occurs 1056 head → (1024 ≤ 1056) × (1056 + 20 ≤ 1024 + samples_buffer_size 20))
    × (occurs 1056 head ≤ 1)
create-frames_example = create-frames 1024 0 0 0 20 1056 refl refl (omega arith) (omega arith)

-- The first read of Start.
one_read : Threads
unfolding create
one_read = record {
  reader = start_reads ((true, status_pending) ∷ []) (created 1024 0 0 0 20).reader;
  working = [];
  started = 1;
}

one_read-Reach : Reach (created 1024 0 0 0 20) one_read
unfolding one_read start_reads create
one_read-Reach = next start (start_read true status_pending (omega arith))

frames_conserved_example :
    ((a : ℕ)
      → occurs a one_read.reader.head + occurs a one_read.reader.reading + occurs a one_read.working
        ≡ occurs a (create (some 1024) 0 0 0 20 empty).1.head)
    × (length one_read.reader.reading ≤ 8)
frames_conserved_example = frames_conserved 1024 0 0 0 20 one_read one_read-Reach

-- One request is left after Close, and the driver fails it.
closing : Threads
closing = record {
  reader = record {
    head = [];
    bytes = 0;
    stoping = true;
    is_open = false;
    reading = 1504 ∷ [];
    target_stops = 0;
  };
  working = [];
  started = 8;
}

closed : Threads
closed = record closing { reader = record closing.reader { head = 1504 ∷ []; reading = [] } }

closing-Step : Step closing closed
unfolding closing closed io_failed push_pointer push_frame
closing-Step = fail 1504 (omega arith)

closed_drains_example :
    (closed.reader.is_open ≡ false)
    × ((weight closed < weight closing)
        ⊎ ((closed.reader.reading ≡ closing.reader.reading) × (closed.working ≡ closing.working)))
unfolding closing
closed_drains_example = closed_drains refl closing-Step
