-- ===== src/Capture/Conserved.antt =====
-- No frame is lost or used twice, whatever the driver and the threads do, and at most eight requests
-- are with the driver; after Close, the requests only run out.
use camera_udp.Base.{
  occurs, occurs-remove, ℕ, zero, suc, ◌+◌, ◌≤◌, ◌≡◌, refl, ap, inl, inr, [], some, arith, length,
  Bool-cases,
}
use camera_udp.Capture.{
  KsRead, create, create_pin, create_bound, empty, align_sample, push_frame, push_pointer,
  push_frames, is_success, stop, close,
}
use camera_udp.Capture.Frames.{
  kept, kept-io_failed, Requested-on_read_begin, Requested-read_next, kept-on_read_end,
}
use camera_udp.Capture.Steps.{
  Threads, Step, Reach, created, completed, start_read, complete, processed, fail, stopped, start,
  next,
}

-- The frames of a state, in all places.
abbrev pub places : ℕ → Threads → ℕ
places a s = kept a s.reader + occurs a s.working

record Kept (s t : Threads) : Type 0 where
  same : (a : ℕ) → places a t ≡ places a s
  most :
      length s.reader.reading ≤ s.started
      → s.started ≤ 8
      → (length t.reader.reading ≤ t.started) × (t.started ≤ 8)

Step-Kept : {s t : Threads} → Step s t → Kept s t
unfolding stop close push_pointer push_frame
Step-Kept {s} (start_read granted status lt) =
    let q = λ (a : ℕ). Requested-read_next a granted status s.reader in
    record {
      same = λ a. omega (arith, (q a).same);
      most = λ h g. (omega (arith, (q 0).most), omega arith);
    }
Step-Kept {s} (complete granted status used frame pos) =
    let q = λ (a : ℕ). Requested-on_read_begin a granted status used (completed frame s.reader) in
    let o = λ (a : ℕ). occurs-remove frame s.reader.reading a pos in
    record {
      same = λ a. omega (arith, (q a).same, (o a).0);
      most = λ h g. (omega (arith, (q 0).most, (o 0).1), g);
    }
Step-Kept {s} (processed used accepted frame pos) =
    let q = λ (a : ℕ). kept-on_read_end a used accepted frame s.reader in
    let o = λ (a : ℕ). occurs-remove frame s.working a pos in
    record { same = λ a. omega (arith, (q a).0, (o a).0); most = λ h g. (rw ((q 0).1) h, g) }
Step-Kept {s} (fail frame pos) =
    let q = λ (a : ℕ). kept-io_failed a (some frame) (completed frame s.reader) in
    let o = λ (a : ℕ). occurs-remove frame s.reader.reading a pos in
    record {
      same = λ a. omega (arith, (q a).0, (o a).0);
      most = λ h g. (rw ((q 0).1) (omega (arith, (o 0).1)), g);
    }
Step-Kept stopped = record { same = λ a. refl; most = λ h g. (h, g) }

Reach-Kept :
    {first s : Threads}
    → Reach first s
    → first.started ≡ 0
    → first.reader.reading ≡ []
    → ((a : ℕ) → places a s ≡ places a first)
      × (length s.reader.reading ≤ s.started)
      × (s.started ≤ 8)
Reach-Kept start z e = (λ a. refl, rw e (omega arith), omega arith)
Reach-Kept (next r st) z e =
    let (p, l, m) = Reach-Kept r z e in
    let k = Step-Kept st in let (l', m') = k.most l m in (λ a. omega (arith, k.same a, p a), l', m')

reading-push_frames :
    (n base size : ℕ) (r : KsRead) → (push_frames n base size r).reading ≡ r.reading
unfolding push_frames push_frame
reading-push_frames zero base size r = refl
reading-push_frames (suc n) base size r =
    reading-push_frames n (base + size) size (push_frame base r)

reading-create :
    (base last pin bind size : ℕ) → (create (some base) last pin bind size empty).1.reading ≡ []
unfolding create create_pin create_bound
reading-create base last pin bind size = elim (Bool-cases (is_success pin)) [
  | inr e ↦ rw e refl
  | inl e ↦ rw e (elim (Bool-cases (is_success bind)) [
    | inr e' ↦ rw e' refl
    | inl e' ↦ rw e' (reading-push_frames 16 base (align_sample size) empty)
  ])
]

-- In every state that the reads of Start, completions on any threads, failures and Stop reach after
-- Create, each frame stands as often among the free frames, the driver's and those in work together as
-- Create made it, and the driver holds at most eight.
pub frames_conserved :
    (base last pin bind size : ℕ) (s : Threads)
    → Reach (created base last pin bind size) s
    → ((a : ℕ)
        → occurs a s.reader.head + occurs a s.reader.reading + occurs a s.working
          ≡ occurs a (create (some base) last pin bind size empty).1.head)
      × (length s.reader.reading ≤ 8)
frames_conserved base last pin bind size s r =
    let e = reading-create base last pin bind size in
    let (p, l, m) = Reach-Kept r refl e in (λ a. omega (arith, p a, ap (occurs a) e), omega arith)
