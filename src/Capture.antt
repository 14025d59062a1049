-- ===== src/Capture.antt =====
-- The frame reader (class KsRead of camera server/read.h and read.cpp): a list of free frames, and the
-- requests that the camera driver holds. A frame is its address. Whether a request is granted memory,
-- and what the driver returns, are arguments; Close and LockHandle are those of asio/io.cpp, where a
-- handle that was closed is not locked again.
pub mod Frames
pub mod Samples
pub mod Drained
pub mod Steps
pub mod Conserved
mod Tests
use camera_udp.Base.{
  ℕ, zero, suc, ◌+◌, ◌*◌, ◌/◌, ◌%◌, ◌^◌, Bool, true, false, List, [], ◌∷◌, Option, none, some, ltb,
  leb, ◌==◌, if◌then◌else◌,
}

-- `reading` are the frames of the requests that the driver holds; `target_stops` counts the calls of
-- H264::Stop.
pub record KsRead : Type 0 where
  pub head : List ℕ
  pub bytes : ℕ
  pub stoping : Bool
  pub is_open : Bool
  pub reading : List ℕ
  pub target_stops : ℕ

abbrev pub status_pending : ℕ
status_pending = 0x103

abbrev pub status_invalid_handle : ℕ
status_invalid_handle = 0xC0000008

-- 0 <= status, of an NTSTATUS
abbrev pub is_success : ℕ → Bool
is_success status = ltb status (2 ^ 31)

-- NT_ERROR(status)
abbrev pub is_error : ℕ → Bool
is_error status = leb 0xC0000000 status

unfoldable pub push_frame : ℕ → KsRead → KsRead
push_frame frame r = record r { head = frame ∷ r.head }

unfoldable pub close : KsRead → KsRead
close r = record r { is_open = false }

unfoldable pub stop_target : KsRead → KsRead
stop_target r = record r { target_stops = suc r.target_stops }

-- `Stop`: the request of SetState changes no field.
unfoldable pub stop : KsRead → KsRead
stop r = close (record r { stoping = true })

unfoldable pub push_pointer : Option ℕ → KsRead → KsRead
push_pointer none r = r
push_pointer (some frame) r = push_frame frame r

-- IOCompletionRoutine for a negative status: `pointer` is the frame of the request, if there was one.
unfoldable pub io_failed : Option ℕ → KsRead → KsRead
io_failed pointer r =
    let r1 = push_pointer pointer r in if r1.stoping then r1 else close (stop_target r1)

-- CheckNtStatus: a request that the driver took is completed later.
unfoldable pub check_nt_status : (frame status : ℕ) → KsRead → KsRead
check_nt_status frame status r =
    if status == status_pending
    then record r { reading = frame ∷ r.reading }
    else if is_error status
    then io_failed (some frame) r
    else record r { reading = frame ∷ r.reading }

-- `Read(Data)`
unfoldable pub read_data : (granted : Bool) → (status frame : ℕ) → KsRead → KsRead
read_data granted status frame r =
    if granted
    then check_nt_status frame (if r.is_open then status else status_invalid_handle) r
    else io_failed none (push_frame frame r)

-- `Read()`, on what the list of free frames is.
unfoldable pub read_from : List ℕ → (granted : Bool) → (status : ℕ) → KsRead → KsRead
read_from [] granted status r = r
read_from (frame ∷ frames) granted status r =
    read_data granted status frame (record r { head = frames })

unfoldable pub read_next : (granted : Bool) → (status : ℕ) → KsRead → KsRead
read_next granted status r = read_from r.head granted status r

-- OnReadComplete before ProcessFrame: the bytes are counted and the next frame is requested.
unfoldable pub on_read_begin : (granted : Bool) → (status data_used : ℕ) → KsRead → KsRead
on_read_begin granted status data_used r =
    read_next granted status (record r { bytes = (r.bytes + data_used) % 2 ^ 64 })

-- OnReadComplete after ProcessFrame, which said `accepted` if there was data.
unfoldable pub on_read_end : (data_used : ℕ) → (accepted : Bool) → (frame : ℕ) → KsRead → KsRead
on_read_end data_used accepted frame r =
    let refused = stop_target (stop r) in
    let r1 = (if accepted then r else if r.stoping then r else refused) in
    push_frame frame (if data_used == 0 then r else r1)

unfoldable pub on_read_complete :
    (granted : Bool) → (status data_used : ℕ) → (accepted : Bool) → (frame : ℕ) → KsRead → KsRead
on_read_complete granted status data_used accepted frame r =
    on_read_end data_used accepted frame (on_read_begin granted status data_used r)

-- IOCompletionRoutine of a read that the driver completes with the status `completed`.
unfoldable pub io_completion_routine :
    (completed : ℕ)
    → (granted : Bool) → (status data_used : ℕ) → (accepted : Bool) → (frame : ℕ) → KsRead
    → KsRead
io_completion_routine completed granted status data_used accepted frame r =
    if is_success completed
    then on_read_complete granted status data_used accepted frame r
    else io_failed (some frame) r

-- `Start`: one read for each of the eight answers.
unfoldable pub start_reads : List (Bool × ℕ) → KsRead → KsRead
start_reads [] r = r
start_reads ((granted, status) ∷ answers) r = start_reads answers (read_next granted status r)

-- ULONG SampleSize, rounded up to the alignment of a list entry
unfoldable pub align_sample : ℕ → ℕ
align_sample size = (size + 15) % 2 ^ 32 / 16 * 16

-- ULONG SamplesBufferSize
unfoldable pub samples_buffer_size : ℕ → ℕ
samples_buffer_size size = 16 * align_sample size % 2 ^ 32

unfoldable pub push_frames : (count pb size : ℕ) → KsRead → KsRead
push_frames zero pb size r = r
push_frames (suc count) pb size r = push_frames count (pb + size) size (push_frame pb r)

-- The constructor.
abbrev pub empty : KsRead
empty = record {
  head = [];
  bytes = 0;
  stoping = false;
  is_open = false;
  reading = [];
  target_stops = 0;
}

-- After CreatePin and BindIoCompletion.
unfoldable pub create_bound : (status base size : ℕ) → KsRead → ℕ × KsRead
create_bound status base size r =
    if is_success status
    then (0, record (push_frames 16 base size r) { is_open = true })
    else (status, r)

unfoldable pub create_pin : (pin bind base size : ℕ) → KsRead → ℕ × KsRead
create_pin pin bind base size r = if is_success pin then create_bound bind base size r else (pin, r)

-- `Create`: what VirtualAlloc gives, or the last status; the statuses of CreatePin and BindIoCompletion.
unfoldable pub create : Option ℕ → (last pin bind sample_size : ℕ) → KsRead → ℕ × KsRead
create none last pin bind sample_size r = (last, r)
create (some base) last pin bind sample_size r =
    create_pin pin bind base (align_sample sample_size) r
