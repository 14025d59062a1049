-- ===== src/Viewer/Pictures.antt =====
-- The references of a client to pictures, through every event.
use camera_udp.Base.{
  one, ℕ, ◌+◌, ◌%◌, ◌^◌, ◌≡◌, refl, sym, ◌⊎◌, inl, inr, Bool, true, false, Option, none, some,
  arith, ◌==◌, Bool-cases, Memory,
}
use camera_udp.Formats.Validated.{validate_formats-returns}
use camera_udp.Session.{type_stop, type_fmts}
use camera_udp.Viewer.{
  CClient, Outcome, returned, faulted, type_h264, format_yuy2, post, add_ref, release, release_any,
  drop_vid, destroy_key, on_connect, on_disconnect, start, on_formats, on_stop, on_frame, on_h264,
  on_user_data, Event, user_data, started, connected, disconnected, step,
}

-- One reference to the picture that the client has, and none to others.
abbrev pub held : Option ℕ → ℕ → ℕ
held none a = 0
held (some vid) a = one vid a

abbrev pub Held : CClient → Type 0
Held s = (a : ℕ) → s.references a ≡ held s.vid a

release_any-none_left :
    (o : Option ℕ) (s : CClient) (a : ℕ)
    → s.references a ≡ held o a
    → (release_any o s).references a ≡ 0
unfolding release_any release
release_any-none_left none s a h = h
release_any-none_left (some vid) s a h = omega (arith, h)

Held-drop_vid : (s : CClient) → Held s → Held (drop_vid s)
unfolding drop_vid
Held-drop_vid s h a = release_any-none_left s.vid s a (h a)

Held-start :
    (vid bi_compression send : ℕ) (s : CClient) → Held s → Held (start vid bi_compression send s).1
unfolding start post add_ref release
Held-start vid bi_compression send s h a =
    let z = release_any-none_left s.vid s a (h a) in
    elim (Bool-cases (send == 0)) [
      | inl e ↦ rw e (omega (arith, z))
      | inr e ↦ rw e (omega (arith, z))
    ]

-- The call returns, and the references are right, or it faults for a frame without a picture.
abbrev pub Expected : CClient → Outcome → Type 0
Expected s o =
    ((status : ℕ) × (t : CClient) × (o ≡ returned status t) × Held t)
    ⊎ ((o ≡ faulted) × (s.vid ≡ none) × (s.bi_compression ≡ format_yuy2))

Expected-on_frame :
    (posts : Bool) (status : ℕ) (o : Option ℕ) (s : CClient)
    → Held s
    → o ≡ s.vid
    → s.bi_compression ≡ format_yuy2
    → Expected s (on_frame posts status o s)
unfolding on_frame post
Expected-on_frame posts status none s h e c = inr (refl, sym e, c)
Expected-on_frame true status (some vid) s h e c = elim (Bool-cases (status == 0)) [
  | inl b ↦ rw b (inl (_, _, refl, h))
  | inr b ↦ rw b (inl (_, _, refl, h))
]
Expected-on_frame false status (some vid) s h e c = elim (Bool-cases (status == 0)) [
  | inl b ↦ rw b (inl (_, _, refl, h))
  | inr b ↦ rw b (inl (_, _, refl, h))
]

Expected-on_h264 :
    (posts : Bool) (status cb : ℕ) (s : CClient) → Held s → Expected s (on_h264 posts status cb s)
unfolding on_h264
Expected-on_h264 posts status cb s h = elim (Bool-cases (s.bi_compression == format_yuy2)) [
  | inr e ↦ rw e (inl (_, _, refl, h))
  | inl e ↦ rw e (
      Expected-on_frame posts status s.vid (record s { cb_data = (s.cb_data + cb) % 2 ^ 64 }) h refl
        (ground (arith, e)))
]

Expected-on_formats :
    (posts : Bool) (o : Option Bool) (b : Bool) (cb : ℕ) (s : CClient)
    → o ≡ some b
    → Held s
    → Expected s (on_formats posts o cb s)
unfolding on_formats post
Expected-on_formats posts none b cb s e h = absurd (cc)
Expected-on_formats posts (some false) b cb s e h = inl (_, _, refl, h)
Expected-on_formats true (some true) b cb s e h = inl (_, _, refl, h)
Expected-on_formats false (some true) b cb s e h = inl (_, _, refl, h)

Expected-on_user_data :
    (posts : Bool) (status : ℕ) (m : Memory) (type pb cb : ℕ) (s : CClient)
    → pb % 4 ≡ 0
    → Held s
    → Expected s (on_user_data posts status m type pb cb s)
unfolding on_user_data on_stop post
Expected-on_user_data posts status m type pb cb s aligned h =
    elim (Bool-cases (type == type_fmts)) [
      | inl a ↦
          let (b, e) = validate_formats-returns m pb cb aligned in
          rw a (Expected-on_formats posts _ b cb s e h)
      | inr a ↦ rw a (elim (Bool-cases (type == type_stop)) [
        | inl b ↦ rw b (inl (_, _, refl, Held-drop_vid _ h))
        | inr b ↦ rw b (elim (Bool-cases (type == type_h264)) [
          | inl c ↦ rw c (Expected-on_h264 posts status cb s h)
          | inr c ↦ rw c (inl (_, _, refl, h))
        ])
      ])
    ]

-- The bytes of a message are at a multiple of four.
abbrev pub Aligned : Event → Type 0
Aligned (user_data posts status m type pb cb) = pb % 4 ≡ 0
Aligned (started vid bi_compression send) = Unit {0}
Aligned connected = Unit {0}
Aligned disconnected = Unit {0}

-- Every event at a client that holds one reference to its picture and no other returns and leaves it
-- so, if a message is at a multiple of four; or it faults, and then the client has no picture and the
-- format that was started last is YUY2.
pub step-Expected :
    (event : Event) (s : CClient) → Aligned event → Held s → Expected s (step event s)
unfolding step on_connect on_disconnect post destroy_key
step-Expected (user_data posts status m type pb cb) s al h =
    Expected-on_user_data posts status m type pb cb s al h
step-Expected (started vid bi_compression send) s al h =
    inl (_, _, refl, Held-start vid bi_compression send s h)
step-Expected connected s al h = inl (_, _, refl, h)
step-Expected disconnected s al h = inl (_, _, refl, Held-drop_vid (destroy_key s) h)
