-- ===== src/Connections/Handlers.antt =====
-- The handlers of datagrams that name a connection by its cookie, and Stop, keep the references right.
use camera_udp.Base.{
  ℕ, ◌+◌, ◌^◌, ◌<◌, ◌≡◌, refl, sym, ap, ◌∙◌, ◌⊎◌, inl, inr, true, List, [], ◌∷◌, none, some, arith,
  ◌==◌, one, occurs, ==_of_eq, ==_of_ne, ℕ_discrete, Bool-cases,
}
use camera_udp.Endpoint.{Endpoint, Sockaddr, set_disconnect_time}
use camera_udp.Connections.{
  Table, add_ref, release_ref, remove_all, notify_disconnect, remove_connection, find, get,
  disconnect_found, on_disconnect, sockaddr_eq, ping_found, on_ping, stop_all, stop, ping_magic,
}
use camera_udp.Connections.Counts.{
  Sound, plus, Sound-eq, release_ref-Sound, add_ref-Sound, notify_disconnect-Sound,
  remove_connection-Sound,
}

find-some :
    (cookie : ℕ) (heap : ℕ → Endpoint) (ps : List ℕ)
    → (find cookie heap ps ≡ none)
      ⊎ ((p : ℕ) × (find cookie heap ps ≡ some p) × (0 < occurs p ps) × ((heap p).cookie ≡ cookie))
find-some cookie heap [] = inl refl
find-some cookie heap (p ∷ ps) = elim (ℕ_discrete cookie (heap p).cookie) [
  | yes e ↦ rw (==_of_eq e) (inr (p, refl, ground arith, sym e))
  | no ne ↦ rw (==_of_ne ne) (elim (find-some cookie heap ps) [
    | inl h ↦ inl h
    | inr (q, h, pos, c) ↦ inr (q, h, omega arith, c)
  ])
]

-- What `get` finds: a listed endpoint with the cookie, which is not 0, with one reference more.
pub get-found :
    (cookie : ℕ) (t : Table)
    → (get cookie t ≡ (none, t))
      ⊎ ((p : ℕ) × (get cookie t ≡ (some p, add_ref p t))
          × (0 < occurs p t.list)
          × ((t.heap p).cookie ≡ cookie)
          × (0 < cookie))
unfolding get
get-found cookie t = elim (ℕ_discrete cookie 0) [
  | yes e ↦ rw (==_of_eq e) (inl refl)
  | no ne ↦ rw (==_of_ne ne) (elim (find-some cookie t.heap t.list) [
    | inl h ↦ rw h (inl refl)
    | inr (p, h, pos, c) ↦ rw h (inr (p, refl, pos, c, omega arith))
  ])
]

-- Few enough callers hold each endpoint that two more can.
abbrev pub Room : (ℕ → ℕ) → Type 0
Room held = (p : ℕ) → held p + 2 < 2 ^ 31

abbrev pub Kept : Sockaddr → (cookie : ℕ) → Table → Table → Type 0
Kept sa cookie t t' =
    (t'.list ≡ t.list)
    ⊎ ((p : ℕ) × (0 < occurs p t.list)
        × ((t.heap p).cookie ≡ cookie)
        × (sockaddr_eq sa (t.heap p).sa ≡ true)
        × (t'.list ≡ remove_all p t.list))

sa-add_ref : (p : ℕ) (t : Table) → ((add_ref p t).heap p).sa ≡ (t.heap p).sa
unfolding add_ref
sa-add_ref p t = rw (==_of_eq {a = p} refl) refl

pub list-add_ref : (p : ℕ) (t : Table) → (add_ref p t).list ≡ t.list
unfolding add_ref
list-add_ref p t = refl

pub list-release_ref : (p : ℕ) (t : Table) → (release_ref p t).list ≡ t.list
unfolding release_ref
list-release_ref p t = refl

list-notify_disconnect : (p : ℕ) (t : Table) → (notify_disconnect p t).list ≡ t.list
unfolding notify_disconnect
list-notify_disconnect p t = refl

pub list-remove_connection :
    (p : ℕ) (t : Table) → (remove_connection p t).list ≡ remove_all p t.list
unfolding remove_connection release_ref notify_disconnect
list-remove_connection p t = refl

pub release_again :
    {t : Table} {held : ℕ → ℕ} (p : ℕ) → Sound t (plus held p) → Sound (release_ref p t) held
release_again {t} {held} p v =
    let self : one p p ≡ 1 = ground arith in
    Sound-eq (λ q. omega arith) (release_ref-Sound p (omega (arith, self)) v)

disconnect_found-Sound :
    (sa : Sockaddr) (cookie p : ℕ) (t : Table) (held : ℕ → ℕ)
    → Room held
    → 0 < occurs p t.list
    → (t.heap p).cookie ≡ cookie
    → Sound t held
    → Sound (disconnect_found sa (some p, add_ref p t)) held
      × Kept sa cookie t (disconnect_found sa (some p, add_ref p t))
unfolding disconnect_found
disconnect_found-Sound sa cookie p t held room pos c v =
    let self : one p p ≡ 1 = ground arith in
    let t1 = add_ref p t in
    let e_list = list-add_ref p t in
    let v1 : Sound t1 (plus held p) = add_ref-Sound p (omega arith) (omega (arith, room p)) v in
    elim (Bool-cases (sockaddr_eq sa (t1.heap p).sa)) [
      | inl e ↦ rw e (
        release_again p
            (remove_connection-Sound p (rw e_list pos) (omega (arith, room p, self)) v1),
        inr (
          p,
          pos,
          c,
          ap (sockaddr_eq sa) (sym (sa-add_ref p t)) ∙ e,
          list-release_ref p (remove_connection p t1)
              ∙ list-remove_connection p t1
              ∙ ap (remove_all p) e_list,
        ),
      )
      | inr e ↦ rw e (release_again p v1, inl (list-release_ref p t1 ∙ e_list))
    ]

-- A datagram that asks to disconnect: the references stay right, if few enough callers hold each endpoint;
-- and either the list stays as it is, or an endpoint left it that was in it, has the cookie and
-- has the address of the sender.
pub on_disconnect-Sound :
    (cookie : ℕ) (sa : Sockaddr) (t : Table) (held : ℕ → ℕ)
    → Room held
    → Sound t held
    → Sound (on_disconnect cookie sa t) held × Kept sa cookie t (on_disconnect cookie sa t)
unfolding on_disconnect disconnect_found
on_disconnect-Sound cookie sa t held room v = elim (get-found cookie t) [
  | inl h ↦ rw h (v, inl refl)
  | inr (p, h, pos, c, nz) ↦ rw h (disconnect_found-Sound sa cookie p t held room pos c v)
]

stop_all-Sound :
    (ps : List ℕ) (t : Table) (held : ℕ → ℕ)
    → ((p : ℕ) → held p < 2 ^ 31)
    → Sound t (λ q. held q + occurs q ps)
    → Sound (stop_all ps t) held × ((stop_all ps t).list ≡ t.list)
unfolding stop_all
stop_all-Sound [] t held few v = (Sound-eq (λ q. omega arith) v, refl)
stop_all-Sound (p ∷ ps) t held few v =
    let self : one p p ≡ 1 = ground arith in
    let v1 = release_ref-Sound p (omega (arith, self)) (notify_disconnect-Sound p v) in
    let (v2, e) = stop_all-Sound ps _ held few (Sound-eq (λ q. omega arith) v1) in
    (v2, e ∙ list-release_ref p (notify_disconnect p t) ∙ list-notify_disconnect p t)

-- `Stop` empties the list and releases its references, so that those of the callers are left.
stop-Sound :
    (t : Table) (held : ℕ → ℕ)
    → Room held
    → Sound t held
    → Sound (stop t) held × ((stop t).list ≡ [])
unfolding stop
stop-Sound t held room v =
    stop_all-Sound t.list (record t { list = [] }) held v.few
      (record {
        counted = λ p. omega (arith, v.counted p);
        once = λ p. omega arith;
        alive = λ p h. omega (arith, v.alive p h);
        few = λ p. omega (arith, room p, v.once p);
      })

ping_found-Sound :
    (now : ℕ) (sa : Sockaddr) (p : ℕ) (t : Table) (held : ℕ → ℕ)
    → Sound t (plus held p)
    → Sound (ping_found now sa (some p, t)) held × ((ping_found now sa (some p, t)).list ≡ t.list)
unfolding ping_found set_disconnect_time
ping_found-Sound now sa p t held v = elim (Bool-cases (sockaddr_eq sa (t.heap p).sa)) [
  | inl e ↦ rw e (
    release_again p (record {
      counted = λ q. ground (arith, v.counted q);
      once = v.once;
      alive = v.alive;
      few = v.few;
    }),
    list-release_ref p _,
  )
  | inr e ↦ rw e (release_again p v, list-release_ref p t)
]

-- A ping keeps the references right, if few enough callers hold each endpoint, and leaves the list alone.
pub on_ping-Sound :
    (now magic crc : ℕ) (sa : Sockaddr) (t : Table) (held : ℕ → ℕ)
    → Room held
    → Sound t held
    → Sound (on_ping now magic crc sa t) held × ((on_ping now magic crc sa t).list ≡ t.list)
unfolding on_ping ping_found
on_ping-Sound now magic crc sa t held room v = elim (Bool-cases (magic == ping_magic)) [
  | inr e ↦ rw e (v, refl)
  | inl e ↦ rw e (elim (get-found crc t) [
    | inl h ↦ rw h (v, refl)
    | inr (p, h, pos, c, nz) ↦
        let v1 = add_ref-Sound p (omega arith) (omega (arith, room p)) v in
        let (v2, same) = ping_found-Sound now sa p (add_ref p t) held v1 in
        rw h (v2, same ∙ list-add_ref p t)
  ])
]
