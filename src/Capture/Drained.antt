-- ===== src/Capture/Drained.antt =====
-- After Close no request is added: the requests and the frames in work only run out.
use camera_udp.Base.{
  occurs-remove, ℕ, ◌+◌, ◌*◌, ◌<◌, ◌≡◌, refl, ap, ◌⊎◌, inl, inr, Bool, true, false, List, [], ◌∷◌,
  Option, none, some, arith, length, if◌then◌else◌, Bool-cases,
}
use camera_udp.Capture.{
  KsRead, push_frame, push_pointer, close, stop, stop_target, io_failed, check_nt_status, read_data,
  read_from, read_next, on_read_begin, on_read_end, status_invalid_handle,
}
use camera_udp.Capture.Frames.{kept-on_read_end}
use camera_udp.Capture.Steps.{
  Threads, Step, completed, start_read, complete, processed, fail, stopped,
}

-- Closed, with no new request.
record Shut (r s : KsRead) : Type 0 where
  closed : s.is_open ≡ false
  same : s.reading ≡ r.reading

closed-io_failed :
    (pointer : Option ℕ) (r : KsRead) → r.is_open ≡ false → Shut r (io_failed pointer r)
unfolding io_failed push_pointer push_frame close stop_target
closed-io_failed none r h = elim (Bool-cases r.stoping) [
  | inl e ↦ rw e (record { closed = h; same = refl })
  | inr e ↦ rw e (record { closed = refl; same = refl })
]
closed-io_failed (some frame) r h = elim (Bool-cases r.stoping) [
  | inl e ↦ rw e (record { closed = h; same = refl })
  | inr e ↦ rw e (record { closed = refl; same = refl })
]

closed-check_nt_status :
    (is_open : Bool) (frame status : ℕ) (r : KsRead)
    → is_open ≡ false
    → r.is_open ≡ false
    → Shut r (check_nt_status frame (if is_open then status else status_invalid_handle) r)
unfolding check_nt_status
closed-check_nt_status true frame status r z h = absurd (cc)
closed-check_nt_status false frame status r z h = closed-io_failed (some frame) r h

closed-read_data :
    (granted : Bool) (status frame : ℕ) (r : KsRead)
    → r.is_open ≡ false
    → Shut r (read_data granted status frame r)
unfolding read_data push_frame
closed-read_data true status frame r h = closed-check_nt_status r.is_open frame status r h h
closed-read_data false status frame r h =
    let s = closed-io_failed none (push_frame frame r) h in
    record { closed = s.closed; same = s.same }

closed-read_from :
    (frames : List ℕ) (granted : Bool) (status : ℕ) (r : KsRead)
    → r.is_open ≡ false
    → Shut r (read_from frames granted status r)
unfolding read_from
closed-read_from [] granted status r h = record { closed = h; same = refl }
closed-read_from (frame ∷ frames) granted status r h =
    let s = closed-read_data granted status frame (record r { head = frames }) h in
    record { closed = s.closed; same = s.same }

closed-on_read_end :
    (used : ℕ) (accepted : Bool) (frame : ℕ) (r : KsRead)
    → r.is_open ≡ false
    → (on_read_end used accepted frame r).is_open ≡ false
unfolding on_read_end push_frame stop stop_target close
closed-on_read_end used true frame r h = ground (arith, h)
closed-on_read_end used false frame r h = ground (arith, h)

-- Two for each request of the driver, and one for each frame in work.
abbrev pub weight : Threads → ℕ
weight s = 2 * length s.reader.reading + length s.working

-- After Close, every completion and every frame that was processed makes the work that is left smaller,
-- a further read and Stop leave it, and the handle stays closed.
pub closed_drains :
    {s t : Threads}
    → s.reader.is_open ≡ false
    → Step s t
    → (t.reader.is_open ≡ false)
      × ((weight t < weight s) ⊎ ((t.reader.reading ≡ s.reader.reading) × (t.working ≡ s.working)))
unfolding read_next on_read_begin stop close
closed_drains {s} h (start_read granted status lt) =
    let q = closed-read_from s.reader.head granted status s.reader h in
    (q.closed, inr (q.same, refl))
closed_drains {s} h (complete granted status used frame pos) =
    let q = closed-read_from s.reader.head granted status _ h in
    let o = occurs-remove frame s.reader.reading 0 pos in
    (q.closed, inl (omega (arith, ap length q.same, o.1)))
closed_drains {s} h (processed used accepted frame pos) =
    let o = occurs-remove frame s.working 0 pos in
    (
      closed-on_read_end used accepted frame s.reader h,
      inl (omega (arith, ap length ((kept-on_read_end 0 used accepted frame s.reader).1), o.1)),
    )
closed_drains {s} h (fail frame pos) =
    let q = closed-io_failed (some frame) (completed frame s.reader) h in
    let o = occurs-remove frame s.reader.reading 0 pos in
    (q.closed, inl (omega (arith, ap length q.same, o.1)))
closed_drains h stopped = (refl, inr (refl, refl))
