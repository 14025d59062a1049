-- ===== src/Capture/Steps.antt =====
-- The events of a frame reader after Create, in any order: the reads of Start, the completions of the
-- driver, on any number of threads, and Stop. A completion is two steps, before and after ProcessFrame.
use camera_udp.Base.{occurs, remove, ℕ, suc, ◌<◌, Bool, List, [], ◌∷◌, some}
use camera_udp.Capture.{
  KsRead, stop, io_failed, read_next, on_read_begin, on_read_end, create, empty,
}

-- `working` are the frames that threads process, and `started` the reads that Start has made; no code
-- keeps them.
pub record Threads : Type 0 where
  pub reader : KsRead
  pub working : List ℕ
  pub started : ℕ

-- The driver has completed the request of the frame.
abbrev pub completed : ℕ → KsRead → KsRead
completed frame r = record r { reading = remove frame r.reading }

pub data Step (s : Threads) : Threads → Type 0 where
  start_read :
      (granted : Bool) (status : ℕ)
      → s.started < 8
      → Step s (record s { reader = read_next granted status s.reader; started = suc s.started })
  complete :
      (granted : Bool) (status used frame : ℕ)
      → 0 < occurs frame s.reader.reading
      → Step s (record s {
        reader = on_read_begin granted status used (completed frame s.reader);
        working = frame ∷ s.working;
      })
  processed :
      (used : ℕ) (accepted : Bool) (frame : ℕ)
      → 0 < occurs frame s.working
      → Step s (record s {
        reader = on_read_end used accepted frame s.reader;
        working = remove frame s.working;
      })
  fail :
      (frame : ℕ)
      → 0 < occurs frame s.reader.reading
      → Step s (record s { reader = io_failed (some frame) (completed frame s.reader) })
  stopped : Step s (record s { reader = stop s.reader })

abbrev pub created : (base last pin bind sample_size : ℕ) → Threads
created base last pin bind sample_size = record {
  reader = (create (some base) last pin bind sample_size empty).1;
  working = [];
  started = 0;
}

pub data Reach (first : Threads) : Threads → Type 0 where
  start : Reach first first
  next : {s t : Threads} → Reach first s → Step s t → Reach first t
