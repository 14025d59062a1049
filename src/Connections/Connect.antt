-- ===== src/Connections/Connect.antt =====
-- Endpoint::Connect of camera server/TUDP.cpp, for an endpoint of the table: its place in the list, and
-- the packet with its cookie. The memory of the packet and SendTo are arguments.
use camera_udp.Base.{
  occurs, ℕ, ◌+◌, ◌^◌, ◌<◌, ◌≡◌, refl, sym, subst, inl, inr, List, ◌∷◌, ◌++◌, Option, none, some,
  arith, ◌==◌, if◌then◌else◌, Bool-cases, Memory,
}
use camera_udp.Packet.{DataPacket, plain_create}
use camera_udp.Endpoint.{
  Endpoint, Sockaddr, Msgb, init, status_no_memory, set_disconnect_time, e_inactive_time,
}
use camera_udp.Wire.{put_ulong64, ulong64_bytes}
use camera_udp.Connections.{Table, update, add_ref, add_connection, remove_connection}
use camera_udp.Connections.Counts.{Sound, replace-Sound, remove_connection-Sound}

-- The sending failed: the endpoint leaves the list.
unfoldable pub connected_with : (p status : ℕ) → Table → ℕ × Table
connected_with p status t = (status, if status == 0 then t else remove_connection p t)

-- The plain packet with the cookie and the data of the caller.
unfoldable pub connect_packet :
    (p : ℕ) → Sockaddr → (send_to : DataPacket → ℕ) → Option DataPacket → Table → ℕ × Table
unfolding connected_with
connect_packet p sa send_to none t = connected_with p status_no_memory t
connect_packet p sa send_to (some packet) t =
    let named = record packet { memory = put_ulong64 0 0 packet.memory } in
    connected_with p (send_to named)
      (record t { heap = update p (record (t.heap p) { sa = sa }) t.heap })

-- `sent` is the plain packet with the cookie and the data, if there is memory.
unfoldable pub connect_started :
    (now p : ℕ)
    → Sockaddr
    → (send_to : DataPacket → ℕ) → Option DataPacket
    → Endpoint
    → ℕ
    → Table
    → ℕ × Table
unfolding connect_packet
connect_started now p sa send_to sent e status t =
    let waiting = record t { heap = update p (set_disconnect_time now e_inactive_time e) t.heap } in
    if status == 0
    then connect_packet p sa send_to sent (add_connection p waiting)
    else (status, record t { heap = update p e t.heap })

-- `Connect`: `fresh` are the buffers that Init makes, and `bytes` the data of the caller.
unfoldable pub connect :
    (new_memory : ℕ → Option Memory)
    → (send_to : DataPacket → ℕ) → Option (List Msgb)
    → (now p : ℕ) → Sockaddr
    → List ℕ
    → Table
    → ℕ × Table
unfolding connect_started
connect new_memory send_to fresh now p sa bytes t =
    let (status, e) = init fresh sa 0 (t.heap p) in
    let sent = plain_create new_memory (ulong64_bytes (t.heap p).cookie ++ bytes) in
    connect_started now p sa send_to sent e status t

-- An endpoint that is not in the list, but held by the caller, gets its place.
link-Sound :
    {t : Table} {held : ℕ → ℕ} (p : ℕ)
    → occurs p t.list ≡ 0
    → 0 < held p
    → Sound t held
    → Sound (add_connection p t) held
unfolding add_connection add_ref
link-Sound p unlisted pos v = record {
  counted = λ q. ground (arith, v.counted q, v.counted p, v.few p);
  once = λ q. ground (arith, v.once q);
  alive = λ q h. ground (arith, v.alive q, v.alive p);
  few = v.few;
}

list-link : (p : ℕ) (t : Table) → (add_connection p t).list ≡ p ∷ t.list
unfolding add_connection add_ref
list-link p t = refl

connected_with-Sound :
    {t : Table} {held : ℕ → ℕ} (p status : ℕ)
    → 0 < occurs p t.list
    → held p + 1 < 2 ^ 31
    → Sound t held
    → Sound (connected_with p status t).1 held
unfolding connected_with
connected_with-Sound p status listed room v = elim (Bool-cases (status == 0)) [
  | inl e ↦ rw e v
  | inr e ↦ rw e (remove_connection-Sound p listed room v)
]

connect_packet-Sound :
    {t : Table} {held : ℕ → ℕ} (p : ℕ) (sa : Sockaddr) (send_to : DataPacket → ℕ)
    (packet : Option DataPacket)
    → 0 < occurs p t.list
    → held p + 1 < 2 ^ 31
    → Sound t held
    → Sound (connect_packet p sa send_to packet t).1 held
unfolding connect_packet
connect_packet-Sound p sa send_to none listed room v =
    connected_with-Sound p status_no_memory listed room v
connect_packet-Sound {t} p sa send_to (some packet) listed room v =
    connected_with-Sound p _ listed room
      (replace-Sound p (record (t.heap p) { sa = sa }) t.disconnected refl v)

pub ref_count-init :
    (fresh : Option (List Msgb)) (sa : Sockaddr) (rcookie : ℕ) (e : Endpoint)
    → (init fresh sa rcookie e).1.ref_count ≡ e.ref_count
unfolding init
ref_count-init fresh sa rcookie e = ground arith

-- Connect of an endpoint that its caller holds and that is not in the list keeps the references of all
-- endpoints right, whether it succeeds or fails at the buffers, at the packet or at SendTo, if fewer than
-- 2 ^ 31 callers hold it.
pub connect-Sound :
    (new_memory : ℕ → Option Memory) (send_to : DataPacket → ℕ) (fresh : Option (List Msgb))
    (now p : ℕ) (sa : Sockaddr) (bytes : List ℕ) (t : Table) (held : ℕ → ℕ)
    → occurs p t.list ≡ 0
    → 0 < held p
    → held p + 1 < 2 ^ 31
    → Sound t held
    → Sound (connect new_memory send_to fresh now p sa bytes t).1 held
unfolding connect connect_started set_disconnect_time
connect-Sound new_memory send_to fresh now p sa bytes t held unlisted pos room v =
    let (status, e) = init fresh sa 0 (t.heap p) in
    let same = ref_count-init fresh sa 0 (t.heap p) in
    let waiting = record e { tick = now + e_inactive_time } in
    elim (Bool-cases (status == 0)) [
      | inr f ↦ rw f (replace-Sound p e t.disconnected same v)
      | inl f ↦ rw f (
          connect_packet-Sound p sa send_to _ (listed waiting) room
            (link-Sound p unlisted pos (replace-Sound p waiting t.disconnected same v)))
    ]
  where
    listed :
        (e : Endpoint)
        → 0 < occurs p (add_connection p (record t { heap = update p e t.heap })).list
    listed e = subst (λ ps. 0 < occurs p ps) (sym (list-link p _)) (ground arith)
