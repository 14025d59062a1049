-- ===== src/Session/Released.antt =====
-- Whatever happens to a session, the destructor gives back all that it made, unless Create failed; a
-- KsRead object whose Create failed is never given back.
use camera_udp.Base.{
  ℕ, suc, ◌<◌, ◌≡◌, refl, sym, ap, ◌∙◌, inl, inr, true, false, List, [], ◌∷◌, Option, none, some,
  arith, ◌==◌, Bool-cases, length,
}
use camera_udp.Capture.{is_success}
use camera_udp.Session.{
  e_fail, CEncTcp, Machine, Event, user_data, disconnected, stopped, empty, type_strt, type_stop,
  type_init, release_pin, stop_pin, stop, delete_buf, delete_m_buf, run_pin, create_pin, start,
  start_found, select, on_start, refresh_info, refresh_with, refresh, on_user_data, on_disconnect,
  destroy, on_stop, step, run,
}
use camera_udp.Session.Owned.{
  held, IsValid, Moved, still, Moved-IsValid, Moved-Moved, Moved-stop, Moved-delete_m_buf,
  m_buf-delete_buf, pin-stop_pin, Creates, Moved-run_pin,
}

module _ (machine : Machine) where
  Moved-create_pin :
      (o : Option ℕ) (format : ℕ) (s : CEncTcp)
      → s.pin ≡ none
      → Moved (Creates machine) s (create_pin machine o format s).1
  unfolding create_pin
  Moved-create_pin none format s e = still s
  Moved-create_pin (some pin) format s e = Moved-run_pin machine pin format s e

  Moved-start :
      (name format : ℕ) (s : CEncTcp)
      → s.pin ≡ none
      → Moved (Creates machine) s (start machine name format s).1
  unfolding start
  Moved-start name format s e = elim (Bool-cases (machine.opens name)) [
    | inr a ↦ rw a (still s)
    | inl a ↦ rw a (elim (Bool-cases machine.new_h264) [
      | inr b ↦ rw b (still s)
      | inl b ↦ rw b (elim (Bool-cases (is_success (machine.init format))) [
        | inr c ↦ rw c (still s)
        | inl c ↦ rw c (Moved-create_pin machine.new_ks_read format s e)
      ])
    ])
  ]

  Moved-start_found :
      (o : Option (Option (ℕ × ℕ))) (s : CEncTcp)
      → s.pin ≡ none
      → Moved (Creates machine) s (start_found machine o s).1
  unfolding start_found
  Moved-start_found none s e = still s
  Moved-start_found (some none) s e = still s
  Moved-start_found (some (some (name, format))) s e = Moved-start name format s e

  Moved-select :
      (o : Option ℕ) (bytes : List ℕ) (s : CEncTcp)
      → s.pin ≡ none
      → Moved (Creates machine) s (select machine o bytes s).1
  unfolding select
  Moved-select none bytes s e = still s
  Moved-select (some buf) bytes s e = elim (Bool-cases (length bytes == 8)) [
    | inl l ↦ rw l (Moved-start_found _ s e)
    | inr l ↦ rw l (still s)
  ]

  Moved-on_start :
      (o : Option ℕ) (bytes : List ℕ) (s : CEncTcp)
      → o ≡ s.pin
      → Moved (Creates machine) s (on_start machine o bytes s).1
  unfolding on_start
  Moved-on_start none bytes s e = Moved-select s.m_buf bytes s (sym e)
  Moved-on_start (some pin) bytes s e = still s

  Moved-refresh_info :
      (o : Option (List ℕ)) (buf : ℕ) (s : CEncTcp)
      → s.m_buf ≡ none
      → Moved (Creates machine) s (refresh_info machine o buf s).1
  unfolding refresh_info
  Moved-refresh_info none buf s e = still s
  Moved-refresh_info (some bytes) buf s e =
      let none_held : held s.m_buf ≡ 0 = ap held e in
      record {
        lost = 0;
        readers = omega arith;
        buffers = omega (arith, none_held);
        none_lost = λ _. refl;
      }

  Moved-refresh_with :
      (o : Option ℕ) (s : CEncTcp)
      → s.m_buf ≡ none
      → Moved (Creates machine) s (refresh_with machine o s).1
  unfolding refresh_with
  Moved-refresh_with none s e = still s
  Moved-refresh_with (some buf) s e = elim (Bool-cases machine.new_payload) [
    | inl p ↦ rw p (Moved-refresh_info machine.formats buf s e)
    | inr p ↦ rw p (still s)
  ]

  Moved-on_user_data :
      (type : ℕ) (bytes : List ℕ) (s : CEncTcp)
      → IsValid s
      → Moved (Creates machine) s (on_user_data machine type bytes s).1
  unfolding on_user_data refresh delete_m_buf
  Moved-on_user_data type bytes s v = elim (Bool-cases (type == type_strt)) [
    | inl a ↦ rw a (Moved-on_start s.pin bytes s refl)
    | inr a ↦ rw a (elim (Bool-cases (type == type_stop)) [
      | inl b ↦ rw b (Moved-stop s v)
      | inr b ↦ rw b (elim (Bool-cases (type == type_init)) [
        | inl c ↦ rw c (
            Moved-Moved (Moved-delete_m_buf s v)
              (Moved-refresh_with machine.new_buffer _ (m_buf-delete_buf s.m_buf s refl)))
        | inr c ↦ rw c (still s)
      ])
    ])
  ]

-- Create succeeds in all events.
abbrev pub AllCreate : List Event → Type 0
AllCreate [] = Unit {0}
AllCreate (user_data machine type bytes ∷ events) = Creates machine × AllCreate events
AllCreate (disconnected ∷ events) = AllCreate events
AllCreate (stopped ∷ events) = AllCreate events

Moved-on_disconnect : {Ok : Type 0} (s : CEncTcp) → IsValid s → Moved Ok s (on_disconnect s)
unfolding on_disconnect
Moved-on_disconnect s v =
    let w = Moved-stop s v in Moved-Moved w (Moved-delete_m_buf (stop s).1 (Moved-IsValid v w))

weaken : {Ok Ok' : Type 0} {s t : CEncTcp} → (Ok' → Ok) → Moved Ok s t → Moved Ok' s t
weaken f w = record {
  lost = w.lost;
  readers = w.readers;
  buffers = w.buffers;
  none_lost = λ ok. w.none_lost (f ok);
}

Moved-run :
    (events : List Event) (s : CEncTcp) → IsValid s → Moved (AllCreate events) s (run events s)
unfolding run step on_stop
Moved-run [] s v = still s
Moved-run (user_data machine type bytes ∷ events) s v =
    let w = Moved-on_user_data machine type bytes s v in
    Moved-Moved (weaken (λ ok. ok.0) w)
      (weaken (λ ok. ok.1) (Moved-run events _ (Moved-IsValid v w)))
Moved-run (disconnected ∷ events) s v =
    let w = Moved-on_disconnect s v in Moved-Moved w (Moved-run events _ (Moved-IsValid v w))
Moved-run (stopped ∷ events) s v =
    let w : Moved (AllCreate events) s (on_stop s) = record {
      lost = 0;
      readers = omega arith;
      buffers = refl;
      none_lost = λ _. refl;
    } in
    Moved-Moved w (Moved-run events _ (Moved-IsValid v w))

-- The destructor leaves nothing that is held.
record Ended (Ok : Type 0) (s t : CEncTcp) : Type 0 where
  moved : Moved Ok s t
  no_pin : t.pin ≡ none
  no_buf : t.m_buf ≡ none

m_buf-stop_pin : (o : Option ℕ) (s : CEncTcp) → (stop_pin o s).1.m_buf ≡ s.m_buf
unfolding stop_pin release_pin
m_buf-stop_pin none s = refl
m_buf-stop_pin (some pin) s = refl

Ended-destroy : {Ok : Type 0} (s : CEncTcp) → IsValid s → Ended Ok s (destroy s)
unfolding destroy stop delete_m_buf
Ended-destroy s v =
    let w = Moved-delete_m_buf s v in
    let u = delete_buf s.m_buf s in
    record {
      moved = Moved-Moved w (Moved-stop u (Moved-IsValid v w));
      no_pin = pin-stop_pin u.pin u refl;
      no_buf = m_buf-stop_pin u.pin u ∙ m_buf-delete_buf s.m_buf s refl;
    }

-- After any events on a new session in which Create does not fail, and the destructor, every buffer
-- and every KsRead object that the session made is given back.
pub destroy-releases_all :
    (events : List Event)
    → AllCreate events
    → let s = destroy (run events empty) in (s.readers ≡ 0) × (s.buffers ≡ 0)
destroy-releases_all events ok =
    let w = Moved-run events empty (record { readers = omega arith; buffers = omega arith }) in
    let v = Moved-IsValid (record { readers = omega arith; buffers = omega arith }) w in
    let e : Ended (AllCreate events) (run events empty) (destroy (run events empty)) =
      Ended-destroy _ v in
    let k = e.moved in
    (
      omega (arith, w.readers, k.readers, w.none_lost ok, k.none_lost ok, ap held e.no_pin),
      omega (arith, w.buffers, k.buffers, ap held e.no_buf),
    )

-- One object more than the session holds stays one more.
more_made :
    (s : CEncTcp) (events : List Event)
    → IsValid s
    → 0 < (destroy (run events (record s { readers = suc s.readers }))).readers
more_made s events v =
    let t : CEncTcp = record s { readers = suc s.readers } in
    let valid : IsValid t = record { readers = omega (arith, v.readers); buffers = v.buffers } in
    let w = Moved-run events t valid in
    let z : Ended (AllCreate events) (run events t) (destroy (run events t)) =
      Ended-destroy _ (Moved-IsValid valid w) in
    let k = z.moved in omega (arith, w.readers, k.readers, v.readers, ap held z.no_pin)

-- When the device opens, H264 and KsRead are made and Create fails, Start returns E_FAIL, and the
-- KsRead object is not given back by any events after it or by the destructor.
start-forgets :
    (machine : Machine) (name format pin : ℕ) (s : CEncTcp) (events : List Event)
    → IsValid s
    → s.pin ≡ none
    → machine.opens name ≡ true
    → machine.new_h264 ≡ true
    → is_success (machine.init format) ≡ true
    → machine.new_ks_read ≡ some pin
    → is_success (machine.create format) ≡ false
    → ((start machine name format s).0 ≡ e_fail)
      × (0 < (destroy (run events (start machine name format s).1)).readers)
unfolding start create_pin run_pin
start-forgets machine name format pin s events v e a b c d f =
    rw (a, b, c, d, f) (refl, more_made s events v)
