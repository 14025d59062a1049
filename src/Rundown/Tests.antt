-- ===== src/Rundown/Tests.antt =====
-- Runs of the functions of inc/rundown.h, and the theorems at concrete words and schedules.
use camera_udp.Base.{ℕ, ◌+◌, ◌^◌, ◌≤◌, ◌≡◌, refl, ◌↔◌, true, false, [], ◌∷◌, some, arith}
use camera_udp.Rundown.{
  init, acquire, acquire_alone, release, rundown_l, begin_rundown, is_rundown_completed, obp_lock,
}
use camera_udp.Rundown.Acquire.{Seen, acquire_spec, acquire-Seen}
use camera_udp.Rundown.Once.{Shared, Reach, start, next, enter, close, leave, completion_once}

-- Another thread counts itself in between the first and the second attempt.
acquire_contended :
    acquire ((2 ^ 31 + 4) ∷ (2 ^ 31 + 5) ∷ (2 ^ 31 + 5) ∷ []) ≡ some (true, 2 ^ 31 + 6)
unfolding acquire
acquire_contended = refl

begin_rundown_idle : begin_rundown (2 ^ 31) ≡ some (true, 0)
unfolding begin_rundown
begin_rundown_idle = refl

begin_rundown_held : begin_rundown (2 ^ 31 + 2) ≡ some (false, 2)
unfolding begin_rundown
begin_rundown_held = refl

acquire-Seen_example :
    (w : ℕ) × Seen w ((2 ^ 31 + 4) ∷ (2 ^ 31 + 5) ∷ (2 ^ 31 + 5) ∷ [])
    × ((true, 2 ^ 31 + 6) ≡ acquire_spec w)
acquire-Seen_example = acquire-Seen _ (true, 2 ^ 31 + 6) acquire_contended

obp_lock_contended : obp_lock 3 (4 ∷ 4 ∷ []) ≡ some (true, 5)
unfolding obp_lock
obp_lock_contended = refl

abbrev finished : Shared
finished = record { word = 0; holders = 0; completions = 1 }

-- Two threads enter, one closes, both leave.
finished-Reach : Reach finished
unfolding init acquire_alone rundown_l release
finished-Reach =
    next
      (next
        (next
          (next (next start (enter (2 ^ 31 + 1) (omega arith) refl))
            (enter (2 ^ 31 + 2) (omega arith) refl))
          (close (omega arith)))
        (leave (omega arith)))
      (leave (omega arith))

completion_once_example :
    (1 ≤ 1)
    × ((◌≡◌ {A = ℕ} 1 1) ↔ (is_rundown_completed 0 ≡ true))
    × (◌≡◌ {A = ℕ} 1 1 → (◌≡◌ {A = ℕ} 0 0) × (acquire_alone 0 ≡ some (false, 0)))
completion_once_example = completion_once finished-Reach
