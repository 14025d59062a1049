-- ===== src/Connections/Timer.antt =====
-- OnTimer gives up two references of an endpoint whose time is over, where the list has one.
use camera_udp.Base.{
  ℕ, ◌-◌, ◌^◌, ◌<◌, ◌≡◌, refl, ap, ◌∙◌, true, [], ◌∷◌, arith, ltb, one, occurs, ==_of_eq,
}
use camera_udp.Rundown.{decrement}
use camera_udp.Connections.{
  Table, release_ref, unlink, notify_disconnect, remove_connection, expired, on_timer,
  disconnect_all,
}
use camera_udp.Connections.Counts.{Sound}

ref_count-release_ref :
    (p : ℕ) (t : Table) → ((release_ref p t).heap p).ref_count ≡ decrement (t.heap p).ref_count
unfolding release_ref
ref_count-release_ref p t = rw (==_of_eq {a = p} refl) refl

ref_count-remove_connection :
    (p : ℕ) (t : Table)
    → ((remove_connection p t).heap p).ref_count ≡ decrement (t.heap p).ref_count
unfolding remove_connection release_ref notify_disconnect
ref_count-remove_connection p t = rw (==_of_eq {a = p} refl) refl

-- RemoveConnection deletes an endpoint with one reference.
deleted-remove_connection :
    (p : ℕ) (t : Table) → (t.heap p).ref_count ≡ 1 → 0 < occurs p (remove_connection p t).deleted
unfolding remove_connection release_ref notify_disconnect
deleted-remove_connection p t e = rw (==_of_eq {a = p} refl) (ground arith)

deleted-release_ref :
    (p : ℕ) (t : Table) → 0 < occurs p t.deleted → 0 < occurs p (release_ref p t).deleted
unfolding release_ref
deleted-release_ref p t h = ground arith

expired-one :
    (now p : ℕ) (t : Table)
    → t.list ≡ p ∷ []
    → (t.heap p).tick < now
    → expired now t.heap t.list [] ≡ p ∷ []
expired-one now p t e h =
    let late : ltb (t.heap p).tick now ≡ true = ground arith in rw (e, late) refl

-- When the one connection of a table with right references is out of time, and no caller holds
-- it, OnTimer deletes the endpoint and then releases it once more: the count ends at -1.
on_timer_over_release :
    (now p : ℕ) (t : Table) (held : ℕ → ℕ)
    → Sound t held
    → t.list ≡ p ∷ []
    → held p ≡ 0
    → (t.heap p).tick < now
    → (0 < occurs p (on_timer now t).deleted) × (((on_timer now t).heap p).ref_count ≡ 2 ^ 32 - 1)
unfolding on_timer disconnect_all
on_timer_over_release now p t held v e unheld late =
    let self : one p p ≡ 1 = ground arith in
    let listed : occurs p t.list ≡ 1 = rw e (omega (arith, self)) in
    let count : (t.heap p).ref_count ≡ 1 = omega (arith, v.counted p) in
    let t1 = remove_connection p (unlink p t) in
    rw (expired-one now p t e late) (
      deleted-release_ref p t1 (deleted-remove_connection p (unlink p t) count),
      ref_count-release_ref p t1
          ∙ ap decrement (ref_count-remove_connection p (unlink p t))
          ∙ rw count refl,
    )
