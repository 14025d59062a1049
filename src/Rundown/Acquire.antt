-- ===== src/Rundown/Acquire.antt =====
-- The compare-exchange loops of inc/rundown.h against one atomic step.
use camera_udp.Base.{
  ℕ, ◌+◌, ◌%◌, ◌≡◌, refl, ◌⊎◌, inl, inr, Bool, true, false, List, [], ◌∷◌, ◌++◌, none, some, ◌≢◌,
  arith, ◌==◌, if◌then◌else◌, Bool-cases, ℕ_discrete,
}
use camera_udp.Rundown.{
  long_mod, v_init, is_negative, acquire_loop, acquire, obp_lock_loop, obp_lock, acquire_alone,
}

-- What `Acquire` promises, as one step: count a holder in exactly while the sign bit is set.
abbrev pub acquire_spec : ℕ → Bool × ℕ
acquire_spec word = if is_negative word then (true, (word + 1) % long_mod) else (false, word)

-- The word was in memory at one of the attempts.
abbrev pub Seen : ℕ → List ℕ → Type 0
Seen w [] = ⊥
Seen w (word ∷ words) = (w ≡ word) ⊎ Seen w words

acquire_loop-Seen :
    (words : List ℕ) (value : ℕ) (r : Bool × ℕ)
    → is_negative value ≡ true
    → acquire_loop words value ≡ some r
    → (w : ℕ) × Seen w words × (r ≡ acquire_spec w)
unfolding acquire_loop
acquire_loop-Seen [] value r n e = cc
acquire_loop-Seen (word ∷ words) value r n e = elim (Bool-cases (word == value)) [
  | inl same ↦ (word, inl refl, ground arith)
  | inr other ↦ elim (Bool-cases (is_negative word)) [
    | inl runs ↦
        let (w, seen, e') = acquire_loop-Seen words word r runs (ground arith) in (w, inr seen, e')
    | inr down ↦ (word, inl refl, ground arith)
  ]
]

-- Two attempts in a row that see one word end the loop.
acquire_loop-quiet :
    (before after : List ℕ) (word value : ℕ)
    → is_negative value ≡ true
    → acquire_loop (before ++ word ∷ word ∷ after) value ≢ none
unfolding acquire_loop
acquire_loop-quiet [] after word value n = ground arith
acquire_loop-quiet (b ∷ before) after word value n =
    ground (arith, acquire_loop-quiet before after word b)

-- A reply of `Acquire`, whatever other threads do between its attempts, is the reply of one atomic
-- step at a word that memory held at one of them: it counts a holder in exactly when the sign bit was
-- set there, and else leaves the word.
pub acquire-Seen :
    (words : List ℕ) (r : Bool × ℕ)
    → acquire words ≡ some r
    → (w : ℕ) × Seen w words × (r ≡ acquire_spec w)
unfolding acquire
acquire-Seen words r e = acquire_loop-Seen words v_init r refl e

-- `Acquire` replies as soon as two attempts in a row see the same word, whatever came before.
acquire-ne-none :
    (before after : List ℕ) (word : ℕ) → acquire (before ++ word ∷ word ∷ after) ≢ none
unfolding acquire
acquire-ne-none before after word = acquire_loop-quiet before after word v_init refl

pub acquire_alone-eq : (word : ℕ) → acquire_alone word ≡ some (acquire_spec word)
unfolding acquire_alone acquire_loop
acquire_alone-eq word = ground arith

-- What `ObpLock` promises, as one step: add a reference exactly while there is one.
abbrev pub obp_lock_spec : ℕ → Bool × ℕ
obp_lock_spec word = if word == 0 then (false, word) else (true, (word + 1) % long_mod)

obp_lock_loop-Seen :
    (words : List ℕ) (value : ℕ) (r : Bool × ℕ)
    → value ≢ 0
    → obp_lock_loop words value ≡ some r
    → (w : ℕ) × Seen w words × (r ≡ obp_lock_spec w)
unfolding obp_lock_loop
obp_lock_loop-Seen [] value r n e = cc
obp_lock_loop-Seen (word ∷ words) value r n e = elim (Bool-cases (word == value)) [
  | inl same ↦ (word, inl refl, ground arith)
  | inr other ↦ elim (ℕ_discrete word 0) [
    | yes gone ↦ (word, inl refl, ground arith)
    | no live ↦
        let (w, seen, e') = obp_lock_loop-Seen words word r live (ground arith) in (w, inr seen, e')
  ]
]

-- A reply of `ObpLock` is the reply of one atomic step at a word that memory held at its first read or
-- at one of its attempts: it adds a reference exactly when there was one, and never revives a count of 0.
obp_lock-Seen :
    (first : ℕ) (words : List ℕ) (r : Bool × ℕ)
    → obp_lock first words ≡ some r
    → (w : ℕ) × Seen w (first ∷ words) × (r ≡ obp_lock_spec w)
unfolding obp_lock
obp_lock-Seen first words r e = elim (ℕ_discrete first 0) [
  | yes gone ↦ (first, inl refl, ground arith)
  | no live ↦
      let (w, seen, e') = obp_lock_loop-Seen words first r live (ground arith) in (w, inr seen, e')
]
