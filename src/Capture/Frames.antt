-- ===== src/Capture/Frames.antt =====
-- The list of frames that Create makes, and what the operations of the frame reader do to the frames.
use camera_udp.Base.{
  occurs, one, ℕ, suc, ◌+◌, ◌≤◌, ◌≡◌, refl, sym, ap, inl, inr, Bool, true, false, List, [], ◌∷◌,
  Option, none, some, arith, length, ◌==◌, if◌then◌else◌, Bool-cases,
}
use camera_udp.Capture.{
  KsRead, push_frame, push_pointer, close, stop, stop_target, io_failed, check_nt_status, read_data,
  read_from, read_next, on_read_begin, on_read_end, status_pending, is_error,
}

-- How often a frame is in the list of free frames or with the driver.
abbrev pub kept : ℕ → KsRead → ℕ
kept a r = occurs a r.head + occurs a r.reading

pub kept-io_failed :
    (a : ℕ) (pointer : Option ℕ) (r : KsRead)
    → let s = io_failed pointer r in
      (kept a s ≡ kept a (push_pointer pointer r)) × (s.reading ≡ r.reading)
unfolding io_failed push_pointer push_frame close stop_target
kept-io_failed a none r = elim (Bool-cases r.stoping) [
  | inl e ↦ rw e (refl, refl)
  | inr e ↦ rw e (refl, refl)
]
kept-io_failed a (some frame) r = elim (Bool-cases r.stoping) [
  | inl e ↦ rw e (refl, refl)
  | inr e ↦ rw e (refl, refl)
]

-- A request puts its frame with the driver, or back into the list.
record Returned (a frame : ℕ) (r s : KsRead) : Type 0 where
  pub same : kept a s ≡ one frame a + kept a r
  pub most : length s.reading ≤ suc (length r.reading)

Returned-io_failed : (a frame : ℕ) (r : KsRead) → Returned a frame r (io_failed (some frame) r)
unfolding push_pointer push_frame
Returned-io_failed a frame r =
    let (k, e) = kept-io_failed a (some frame) r in
    record { same = omega (arith, k); most = rw e (omega arith) }

Returned-check_nt_status :
    (a frame status : ℕ) (r : KsRead) → Returned a frame r (check_nt_status frame status r)
unfolding check_nt_status
Returned-check_nt_status a frame status r = elim (Bool-cases (status == status_pending)) [
  | inl e ↦ rw e (record { same = omega arith; most = omega arith })
  | inr e ↦ rw e (elim (Bool-cases (is_error status)) [
    | inl e' ↦ rw e' (Returned-io_failed a frame r)
    | inr e' ↦ rw e' (record { same = omega arith; most = omega arith })
  ])
]

Returned-read_data :
    (a : ℕ) (granted : Bool) (status frame : ℕ) (r : KsRead)
    → Returned a frame r (read_data granted status frame r)
unfolding read_data push_pointer push_frame
Returned-read_data a true status frame r = Returned-check_nt_status a frame _ r
Returned-read_data a false status frame r =
    let (k, e) = kept-io_failed a none (push_frame frame r) in
    record { same = omega (arith, k); most = rw e (omega arith) }

pub record Requested (a : ℕ) (r s : KsRead) : Type 0 where
  pub same : kept a s ≡ kept a r
  pub most : length s.reading ≤ suc (length r.reading)

Requested-read_from :
    (a : ℕ) (frames : List ℕ) (granted : Bool) (status : ℕ) (r : KsRead)
    → frames ≡ r.head
    → Requested a r (read_from frames granted status r)
unfolding read_from
Requested-read_from a [] granted status r e = record { same = refl; most = omega arith }
Requested-read_from a (frame ∷ frames) granted status r e =
    let t = Returned-read_data a granted status frame (record r { head = frames }) in
    let o : occurs a r.head ≡ one frame a + occurs a frames = ap (occurs a) (sym e) in
    record { same = omega (arith, t.same, o); most = omega (arith, t.most) }

-- A read keeps every frame, and gives the driver one more request at most.
pub Requested-read_next :
    (a : ℕ) (granted : Bool) (status : ℕ) (r : KsRead) → Requested a r (read_next granted status r)
unfolding read_next
Requested-read_next a granted status r = Requested-read_from a r.head granted status r refl

pub Requested-on_read_begin :
    (a : ℕ) (granted : Bool) (status used : ℕ) (r : KsRead)
    → Requested a r (on_read_begin granted status used r)
unfolding on_read_begin
Requested-on_read_begin a granted status used r =
    let t = Requested-read_next a granted status _ in record { same = t.same; most = t.most }

kept-refused :
    (a : ℕ) (accepted : Bool) (frame : ℕ) (r : KsRead)
    → let s =
        push_frame frame (if accepted then r else if r.stoping then r else stop_target (stop r)) in
      (kept a s ≡ one frame a + kept a r) × (s.reading ≡ r.reading)
unfolding push_frame stop_target stop close
kept-refused a true frame r = (omega arith, refl)
kept-refused a false frame r = elim (Bool-cases r.stoping) [
  | inl e ↦ rw e (omega arith, refl)
  | inr e ↦ rw e (omega arith, refl)
]

-- The end of a completion puts its frame into the list.
pub kept-on_read_end :
    (a used : ℕ) (accepted : Bool) (frame : ℕ) (r : KsRead)
    → let s = on_read_end used accepted frame r in
      (kept a s ≡ one frame a + kept a r) × (s.reading ≡ r.reading)
unfolding on_read_end push_frame
kept-on_read_end a used accepted frame r = elim (Bool-cases (used == 0)) [
  | inl e ↦ rw e (omega arith, refl)
  | inr e ↦ rw e (kept-refused a accepted frame r)
]
