-- ===== src/Rundown.antt =====
-- inc/rundown.h: RundownProtection over one 32-bit word, RUNDOWN_REF, and ObpLock.
-- The word is its bit pattern, below 2 ^ 32: bit 31 is the sign, set while the object runs, and the
-- lower bits count the holders. Each Interlocked operation is one function of the word. A loop over
-- InterlockedCompareExchange takes the words that memory holds at its successive attempts, so other
-- threads may do anything in between; `none` says that the list of attempts ended first.
pub mod Acquire
pub mod Once
mod Tests
use camera_udp.Base.{
  ℕ, ◌+◌, ◌-◌, ◌%◌, ◌^◌, Bool, true, false, not, List, [], ◌∷◌, Option, none, some, ltb, leb, ◌==◌,
  if◌then◌else◌,
}

abbrev pub long_mod : ℕ
long_mod = 2 ^ 32

abbrev pub v_complete : ℕ
v_complete = 0

abbrev pub v_init : ℕ
v_init = 2 ^ 31

-- 0 > value, of a LONG
abbrev pub is_negative : ℕ → Bool
is_negative v = leb (2 ^ 31) v

abbrev pub increment : ℕ → ℕ
increment v = (v + 1) % long_mod

abbrev pub decrement : ℕ → ℕ
decrement v = (v + long_mod - 1) % long_mod

-- The old value, and the word after the operation.
pub compare_exchange : (value new expected : ℕ) → ℕ × ℕ
compare_exchange value new expected = (value, if value == expected then new else value)

unfoldable pub init : ℕ → Bool × ℕ
unfolding compare_exchange
init value =
    let (old, value') = compare_exchange value v_init v_complete in (old == v_complete, value')

unfoldable pub is_rundown_completed : ℕ → Bool
is_rundown_completed value = v_complete == value

unfoldable pub is_rundown_begin : ℕ → Bool
is_rundown_begin value = not (is_negative value)

-- The rounds of `Acquire` from the guess `value`: the reply, and the word that the last attempt left.
acquire_loop : List ℕ → ℕ → Option (Bool × ℕ)
unfolding compare_exchange
acquire_loop [] value = none
acquire_loop (word ∷ words) value =
    let (new_value, after) = compare_exchange word (increment value) value in
    let again = acquire_loop words new_value in
    if new_value == value
    then some (true, after)
    else if is_negative new_value
    then again
    else some (false, after)

unfoldable pub acquire : List ℕ → Option (Bool × ℕ)
unfolding acquire_loop
acquire words = acquire_loop words v_init

unfoldable pub release : ℕ → Bool × ℕ
release value = (decrement value == v_complete, decrement value)

-- InterlockedBitTestAndReset of bit 31
unfoldable pub rundown_l : ℕ → ℕ
rundown_l value = value % 2 ^ 31

-- The rounds of `ObpLock` after the first read of a value that is not 0.
obp_lock_loop : List ℕ → ℕ → Option (Bool × ℕ)
unfolding compare_exchange
obp_lock_loop [] value = none
obp_lock_loop (word ∷ words) value =
    let (new_value, after) = compare_exchange word (increment value) value in
    let again = obp_lock_loop words new_value in
    if new_value == value
    then some (true, after)
    else if new_value == 0
    then some (false, after)
    else again

-- `first` is what the plain read of `*pLock` sees.
unfoldable pub obp_lock : ℕ → List ℕ → Option (Bool × ℕ)
unfolding obp_lock_loop
obp_lock first words = if first == 0 then some (false, first) else obp_lock_loop words first

-- An `Acquire` that no other thread disturbs: both attempts see one word.
unfoldable pub acquire_alone : ℕ → Option (Bool × ℕ)
unfolding acquire
acquire_alone value = acquire (value ∷ value ∷ [])

-- RUNDOWN_REF::BeginRundown, undisturbed: what its `Release` says, and the word.
unfoldable pub begin_rundown : ℕ → Option (Bool × ℕ)
unfolding acquire_alone rundown_l release
begin_rundown value = elim (acquire_alone value) [
  | none ↦ none
  | some (false, v) ↦ some (false, v)
  | some (true, v) ↦ some (release (rundown_l v))
]
