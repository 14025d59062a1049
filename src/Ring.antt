-- ===== src/Ring.antt =====
-- The ring buffer with one reader and one writer (class ZRingBuffer of asio/CiclicBuffer.h and
-- CiclicBuffer.cpp). Its words are unsigned with 32 bits. The handlers run one at a time. Whether
-- BeginRead and BeginWrite start an operation is an argument.
pub mod Buffers
pub mod Flow
pub mod Sound
pub mod Reached
mod Tests
use camera_udp.Base.{
  ℕ, ◌+◌, ◌-◌, ◌%◌, ◌^◌, Bool, true, false, List, [], ◌∷◌, Option, none, some, ltb, leb, ◌==◌,
  if◌then◌else◌,
}

-- `reading` and `writing` are the ranges for which BeginRead and BeginWrite started an operation; no
-- code keeps them.
pub record ZRingBuffer : Type 0 where
  pub read_offset : ℕ
  pub data_size : ℕ
  pub io_count : ℕ
  pub reading : Option (ℕ × ℕ)
  pub writing : Option (ℕ × ℕ)

abbrev pub ulong : ℕ → ℕ
ulong n = n % 2 ^ 32

-- The buffers of the range, as an address and a length; `adjacent` is IsAdjacentBuffers.
unfoldable pub build_buffers : (adjacent : Bool) → (base size from to : ℕ) → List (ℕ × ℕ)
build_buffers adjacent base size from to =
    let f = from % size in
    let t = to % size in
    if adjacent
    then (base + f, to - from) ∷ []
    else if ltb f t
    then (base + f, t - f) ∷ []
    else if t == 0
    then (base + f, size - f) ∷ []
    else (base + f, size - f) ∷ (base, t) ∷ []

-- The size of the ring, GetMinReadBufferSize and GetMinWriteBufferSize.
module _ (size min_read min_write : ℕ) where
  unfoldable pub can_read : ℕ → Bool
  can_read data_size = leb min_read data_size

  unfoldable pub can_write : ℕ → Bool
  can_write data_size = leb min_write (ulong (size + 2 ^ 32 - data_size))

  unfoldable pub start_io : ZRingBuffer → ZRingBuffer
  start_io r = record r { io_count = r.io_count + 1 }

  unfoldable pub end_io : ZRingBuffer → ZRingBuffer
  end_io r = record r { io_count = r.io_count - 1 }

  -- An operation that did not start ends at once with no bytes.
  unfoldable pub read_async :
      (begins : Bool) → (read_offset data_size : ℕ) → ZRingBuffer → ZRingBuffer
  read_async begins read_offset data_size r =
      let range : ℕ × ℕ = (read_offset, ulong (read_offset + data_size)) in
      let started = record (start_io r) { reading = some range } in
      let ended = end_io (start_io r) in
      if can_read data_size then (if begins then started else ended) else r

  unfoldable pub write_async :
      (begins : Bool) → (read_offset data_size : ℕ) → ZRingBuffer → ZRingBuffer
  write_async begins read_offset data_size r =
      let range : ℕ × ℕ = (ulong (read_offset + data_size), ulong (read_offset + size)) in
      let started = record (start_io r) { writing = some range } in
      let ended = end_io (start_io r) in
      if can_write data_size then (if begins then started else ended) else r

  -- `start` is none where the source breaks into the debugger.
  unfoldable pub start : (begins : Bool) → ZRingBuffer → Option ZRingBuffer
  start begins r =
      let fresh = record r { read_offset = 0; data_size = 0; io_count = 1 } in
      if ltb (size + 1) (min_read + min_write) then none else some (write_async begins 0 0 fresh)

  -- The write of `n` bytes has ended, for n other than 0.
  unfoldable pub written : (read_begins write_begins : Bool) → (n : ℕ) → ZRingBuffer → ZRingBuffer
  written read_begins write_begins n r =
      let data_size = ulong (r.data_size + n) in
      let moved = record r { data_size = data_size } in
      let woken = read_async read_begins r.read_offset data_size moved in
      write_async write_begins r.read_offset data_size
        (if can_read r.data_size then moved else woken)

  unfoldable pub end_write : (read_begins write_begins : Bool) → (n : ℕ) → ZRingBuffer → ZRingBuffer
  end_write read_begins write_begins n r =
      let ended = record r { writing = none } in
      end_io (if n == 0 then ended else written read_begins write_begins n ended)

  -- The read of `n` bytes has ended, for n other than 0.
  unfoldable pub taken : (read_begins write_begins : Bool) → (n : ℕ) → ZRingBuffer → ZRingBuffer
  taken read_begins write_begins n r =
      let read_offset = ulong (r.read_offset + n) % size in
      let data_size = ulong (r.data_size + 2 ^ 32 - n) in
      let moved = record r { read_offset = read_offset; data_size = data_size } in
      let woken = write_async write_begins read_offset data_size moved in
      read_async read_begins read_offset data_size (if can_write r.data_size then moved else woken)

  unfoldable pub end_read : (read_begins write_begins : Bool) → (n : ℕ) → ZRingBuffer → ZRingBuffer
  end_read read_begins write_begins n r =
      let ended = record r { reading = none } in
      end_io (if n == 0 then ended else taken read_begins write_begins n ended)
