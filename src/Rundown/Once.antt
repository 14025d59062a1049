-- ===== src/Rundown/Once.antt =====
-- Threads that enter, leave and run down one RundownProtection, in any order: the reply TRUE of
-- `Release`, on which the callers run their completion, comes exactly once.
use camera_udp.Base.{ℕ, ◌+◌, ◌-◌, ◌^◌, ◌≤◌, ◌<◌, ◌≡◌, ◌⊎◌, ◌↔◌, Bool, true, false, some, arith}
use camera_udp.Rundown.{init, acquire_alone, release, rundown_l, is_rundown_completed}
use camera_udp.Rundown.Acquire.{acquire_alone-eq}

-- The word, with two counts that no code keeps: the threads between `Acquire` and `Release`, and the
-- times that `Release` has replied TRUE.
pub record Shared : Type 0 where
  pub word : ℕ
  pub holders : ℕ
  pub completions : ℕ

abbrev pub bit_of : Bool → ℕ
bit_of true = 1
bit_of false = 0

-- One atomic step of some thread. A holder may release; only a holder calls `Rundown_l`.
pub data Step (s : Shared) : Shared → Type 0 where
  enter :
      (word : ℕ)
      → s.holders + 1 < 2 ^ 31
      → acquire_alone s.word ≡ some (true, word)
      → Step s (record s { word = word; holders = s.holders + 1 })
  refused : acquire_alone s.word ≡ some (false, s.word) → Step s s
  close : 0 < s.holders → Step s (record s { word = rundown_l s.word })
  leave :
      0 < s.holders
      → Step s (record {
        word = (release s.word).1;
        holders = s.holders - 1;
        completions = s.completions + bit_of (release s.word).0;
      })

-- From a word that `Init` has taken from 0.
abbrev pub started : Shared
started = record { word = (init 0).1; holders = 0; completions = 0 }

pub data Reach : Shared → Type 0 where
  start : Reach started
  next : {s t : Shared} → Reach s → Step s t → Reach t

-- The word is the sign bit and the holders; a completion has been reported exactly if it is 0.
pub record Inv (s : Shared) : Type 0 where
  pub few : s.holders < 2 ^ 31
  pub counts : (s.word ≡ 2 ^ 31 + s.holders) ⊎ (s.word ≡ s.holders)
  pub running : 0 < s.word → s.completions ≡ 0
  pub completed : s.word ≡ 0 → s.completions ≡ 1

Step-Inv : {s t : Shared} → Step s t → Inv s → Inv t
unfolding rundown_l release
Step-Inv {s} (enter word few e) v = ground (arith, acquire_alone-eq s.word)
Step-Inv (refused e) v = v
Step-Inv (close h) v = ground arith
Step-Inv (leave h) v = ground arith

pub Reach-Inv : {s : Shared} → Reach s → Inv s
unfolding init
Reach-Inv start = ground arith
Reach-Inv (next r st) = Step-Inv st (Reach-Inv r)

-- In every state that threads reach from a successful `Init`, the completion has been reported at most
-- once; it has been reported exactly if IsRundownCompleted; and then no thread holds the protection and
-- `Acquire` refuses.
pub completion_once :
    {s : Shared}
    → Reach s
    → (s.completions ≤ 1)
      × ((s.completions ≡ 1) ↔ (is_rundown_completed s.word ≡ true))
      × (s.completions ≡ 1 → (s.holders ≡ 0) × (acquire_alone s.word ≡ some (false, s.word)))
unfolding is_rundown_completed
completion_once {s} r =
    let v = Reach-Inv r in
    (
      ground arith,
      ((λ e. ground arith), (λ e. ground arith)),
      (λ e. (ground arith, ground (arith, acquire_alone-eq s.word))),
    )
