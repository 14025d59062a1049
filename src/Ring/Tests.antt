-- ===== src/Ring/Tests.antt =====
-- Runs of the ring, and its theorems at concrete sizes.
use camera_udp.Base.{
  ℕ, ◌+◌, ◌-◌, ◌%◌, ◌≤◌, ◌<◌, ◌≡◌, ◌≢◌, refl, true, false, [], ◌∷◌, none, some, arith,
}
use camera_udp.Ring.{
  ZRingBuffer, build_buffers, can_read, can_write, start_io, end_io, read_async, write_async, start,
  written, end_write,
}
use camera_udp.Ring.Buffers.{covered, places, build_buffers-places}
use camera_udp.Ring.Flow.{held, IsSetUp}
use camera_udp.Ring.Reached.{Reach, started, write_ends, Reach-flows}

-- Six bytes from place 6 of a ring of eight.
two_buffers : build_buffers false 100 8 6 12 ≡ (106, 2) ∷ (100, 4) ∷ []
unfolding build_buffers
two_buffers = refl

build_buffers-places_example : covered (build_buffers false 100 8 6 12) ≡ places 100 8 6 (12 - 6)
build_buffers-places_example =
    build_buffers-places 100 8 6 12 (omega arith) (omega arith) (omega arith)

set_up : IsSetUp 8 1 1
set_up = record {
  reads = omega arith;
  writes = omega arith;
  room = omega arith;
  small = omega arith;
}

fresh : ZRingBuffer
fresh = record {
  read_offset = 0;
  data_size = 0;
  io_count = 2;
  reading = none;
  writing = some (0, 8);
}

fresh-Reach : Reach 8 1 1 fresh
unfolding fresh start write_async can_write start_io
fresh-Reach = started 0 0 0 fresh refl

-- Five bytes were written.
filled : ZRingBuffer
unfolding end_write
filled = end_write 8 1 1 true true 5 fresh

filled-Reach : Reach 8 1 1 filled
unfolding filled fresh
filled-Reach = write_ends 5 0 8 fresh-Reach refl (omega arith) (omega arith)

filled-reading : filled.reading ≡ some (0, 5)
unfolding filled fresh end_write written end_io start_io can_read can_write read_async write_async
filled-reading = refl

Reach-flows_example :
    (filled.data_size ≤ 8)
    × (0 < held filled.reading + held filled.writing)
    × (filled.io_count ≡ 1 + held filled.reading + held filled.writing)
    × ((f t f' t' i j : ℕ)
        → filled.reading ≡ some (f, t)
        → filled.writing ≡ some (f', t')
        → i < t - f
        → j < t' - f'
        → (f + i) % 8 ≢ (f' + j) % 8)
Reach-flows_example = Reach-flows 8 1 1 filled set_up filled-Reach
