-- ===== src/Connections/Dispatch/Handled.antt =====
-- Any datagram, from anyone, keeps the references of all endpoints right.
use camera_udp.Base.{
  ℕ, ◌+◌, ◌^◌, ◌<◌, ◌≡◌, refl, inl, inr, Bool, true, false, List, ◌∷◌, Option, none, some, arith,
  ltb, ◌==◌, if◌then◌else◌, one, occurs, Bool-cases, Memory,
}
use camera_udp.Rundown.{acquire_alone}
use camera_udp.Packet.PublicKey.{decode}
use camera_udp.Packet.{aes_decode, is_size_valid, is_plain_data}
use camera_udp.Endpoint.{
  Endpoint, Sockaddr, EPacket, on_data_with, receive_found, set_disconnect_time,
}
use camera_udp.Wire.{get_ulong64}
use camera_udp.Connections.{Table, update, sockaddr_eq, add_ref, add_connection}
use camera_udp.Connections.Counts.{
  replace-Sound, add_connection-Sound, list-add_connection, Sound, plus, add_ref-Sound,
  remove_connection-Sound,
}
use camera_udp.Connections.Handlers.{
  Room, get-found, release_again, list-add_ref, on_disconnect-Sound, on_ping-Sound,
}
use camera_udp.Connections.Connect.{ref_count-init}
use camera_udp.Connections.Dispatch.{
  connect_created, key_of, handle_acquired, Program, on_fragment, on_decoded, on_session_data,
  on_cookie, on_reply, handle, handle_protected, message_to, accept_endpoint, connect_endpoint,
  on_connect, on_unknown, message_found, on_message, on_datagram,
}

ref_count-on_data_with :
    (on_user_data : ℕ → List ℕ → ℕ) (partial now : ℕ) (p : EPacket) (e : Endpoint)
    → (on_data_with on_user_data partial now p e).1.ref_count ≡ e.ref_count
unfolding on_data_with receive_found set_disconnect_time
ref_count-on_data_with on_user_data partial now p e = ground arith

module _ (program : Program) where
  ref_count-on_fragment :
      (now : ℕ) (p : Option EPacket) (e : Endpoint)
      → (on_fragment program now p e).1.ref_count ≡ e.ref_count
  unfolding on_fragment
  ref_count-on_fragment now none e = refl
  ref_count-on_fragment now (some p) e =
      ref_count-on_data_with program.on_user_data program.partial now p e

  ref_count-on_decoded :
      (now : ℕ) (m : Memory) (out : Option (ℕ × ℕ)) (e : Endpoint)
      → (on_decoded program now m out e).1.ref_count ≡ e.ref_count
  unfolding on_decoded
  ref_count-on_decoded now m none e = refl
  ref_count-on_decoded now m (some (at, cb)) e = ref_count-on_fragment now _ e

  ref_count-on_session_data :
      (now : ℕ) (m : Memory) (e : Endpoint)
      → (on_session_data program now m e).1.ref_count ≡ e.ref_count
  unfolding on_session_data
  ref_count-on_session_data now m e =
      let d = aes_decode program.cng e.key m in
      ground (arith, ref_count-on_decoded now d.memory d.out e)

  ref_count-on_cookie :
      (m : Memory) (out : Option (ℕ × ℕ)) (e : Endpoint)
      → (on_cookie program m out e).1.ref_count ≡ e.ref_count
  unfolding on_cookie
  ref_count-on_cookie m none e = refl
  ref_count-on_cookie m (some (at, cb)) e = ground arith

  ref_count-on_reply :
      (m : Memory) (e : Endpoint) → (on_reply program m e).1.ref_count ≡ e.ref_count
  unfolding on_reply
  ref_count-on_reply m e =
      let (d, key) = decode program.cng program.get_private_key m in
      ground (arith, ref_count-on_cookie d.memory d.out (record e { key = key_of key }))

  ref_count-handle :
      (now : ℕ) (m : Memory) (e : Endpoint) → (handle program now m e).1.ref_count ≡ e.ref_count
  unfolding handle
  ref_count-handle now m e =
      ground (arith, ref_count-on_reply m e, ref_count-on_session_data now m e)

  ref_count-handle_acquired :
      (now : ℕ) (m : Memory) (e : Endpoint) (acquired : Option (Bool × ℕ))
      → (handle_acquired program now m e acquired).1.ref_count ≡ e.ref_count
  unfolding handle_acquired
  ref_count-handle_acquired now m e none = refl
  ref_count-handle_acquired now m e (some (false, v)) = refl
  ref_count-handle_acquired now m e (some (true, v)) = ref_count-handle now m (record e { rp = v })

  -- A message keeps the references right of a listed endpoint that the caller holds.
  message_to-Sound :
      (now : ℕ) (m : Memory) (p : ℕ) (t : Table) (held : ℕ → ℕ)
      → 0 < occurs p t.list
      → held p + 1 < 2 ^ 31
      → Sound t held
      → Sound (message_to program now m p t) held
  unfolding message_to handle_protected
  message_to-Sound now m p t held pos room v =
      let r = handle_acquired program now m (t.heap p) (acquire_alone (t.heap p).rp) in
      let e_count = ref_count-handle_acquired now m (t.heap p) (acquire_alone (t.heap p).rp) in
      let v1 = replace-Sound p r.1 (if r.2 then p ∷ t.disconnected else t.disconnected) e_count v in
      elim (Bool-cases (r.0 == 0)) [
        | inl e ↦ rw e v1
        | inr e ↦ rw e (remove_connection-Sound p pos room v1)
      ]

  ref_count-accept_endpoint :
      (client_cookie pub_key : ℕ) (sa : Sockaddr) (e : Endpoint)
      → (accept_endpoint program client_cookie pub_key sa e).1.ref_count ≡ e.ref_count
  unfolding accept_endpoint
  ref_count-accept_endpoint client_cookie pub_key sa e =
      ground (arith, ref_count-init program.new_msgbs sa client_cookie e)

  -- A new object: one reference, and an address that nothing knows yet.
  connect_endpoint-Sound :
      (client_cookie pub_key : ℕ) (sa : Sockaddr) (p : ℕ) (e : Endpoint) (t : Table) (held : ℕ → ℕ)
      → e.ref_count ≡ 1
      → occurs p t.list ≡ 0
      → occurs p t.deleted ≡ 0
      → held p ≡ 0
      → Sound t held
      → Sound (connect_endpoint program client_cookie pub_key sa p e t) held
  unfolding connect_endpoint
  connect_endpoint-Sound client_cookie pub_key sa p e t held single unlisted undeleted unheld v =
      let self : one p p ≡ 1 = ground arith in
      let t1 = add_connection p (record t { heap = update p e t.heap }) in
      let r = accept_endpoint program client_cookie pub_key sa (t1.heap p) in
      let e_count = ref_count-accept_endpoint client_cookie pub_key sa (t1.heap p) in
      let v1 = add_connection-Sound p e single unlisted undeleted unheld v in
      let v2 = replace-Sound p r.1 t1.disconnected e_count v1 in
      let listed : 0 < occurs p t1.list = rw (list-add_connection p e t) (omega (arith, self)) in
      elim (Bool-cases (r.0 == 0)) [
        | inl h ↦ rw h (release_again p v2)
        | inr h ↦ rw h (release_again p (remove_connection-Sound p listed (omega (arith, self)) v2))
      ]

  -- The address that CreateEndpoint returns.
  abbrev pub New : Table → (held : ℕ → ℕ) → Option (ℕ × Endpoint) → Type 0
  New t held none = Unit {0}
  New t held (some (p, e)) =
      (e.ref_count ≡ 1) × (occurs p t.list ≡ 0) × (occurs p t.deleted ≡ 0) × (held p ≡ 0)

  connect_created-Sound :
      (client_cookie pub_key : ℕ) (sa : Sockaddr) (created : Option (ℕ × Endpoint)) (t : Table)
      (held : ℕ → ℕ)
      → New t held created
      → Sound t held
      → Sound (connect_created program client_cookie pub_key sa created t) held
  unfolding connect_created
  connect_created-Sound client_cookie pub_key sa none t held new v = v
  connect_created-Sound client_cookie pub_key sa (some (p, e)) t held (a, b, c, d) v =
      connect_endpoint-Sound client_cookie pub_key sa p e t held a b c d v

  on_connect-Sound :
      (client_cookie : ℕ) (bytes : List ℕ) (sa : Sockaddr) (t : Table) (held : ℕ → ℕ)
      → New t held program.create_endpoint
      → Sound t held
      → Sound (on_connect program client_cookie bytes sa t) held
  unfolding on_connect
  on_connect-Sound client_cookie bytes sa t held new v =
      elim (Bool-cases ((program.create_pub_key bytes).0 == 0)) [
        | inl h ↦
            rw h (connect_created-Sound client_cookie _ sa program.create_endpoint t held new v)
        | inr h ↦ rw h v
      ]

  on_unknown-Sound :
      (m : Memory) (out : Option (ℕ × ℕ)) (sa : Sockaddr) (t : Table) (held : ℕ → ℕ)
      → New t held program.create_endpoint
      → Sound t held
      → Sound (on_unknown program m out sa t) held
  unfolding on_unknown
  on_unknown-Sound m none sa t held new v = v
  on_unknown-Sound m (some (at, cb)) sa t held new v = elim (Bool-cases (ltb 8 cb)) [
    | inl h ↦ rw h (on_connect-Sound _ _ sa t held new v)
    | inr h ↦ rw h v
  ]

  message_found-Sound :
      (now : ℕ) (m : Memory) (sa : Sockaddr) (p : ℕ) (t : Table) (held : ℕ → ℕ)
      → 0 < occurs p t.list
      → held p + 2 < 2 ^ 31
      → Sound t (plus held p)
      → Sound (message_found program now m sa (some p, t)) held
  unfolding message_found
  message_found-Sound now m sa p t held pos room v =
      let self : one p p ≡ 1 = ground arith in
      elim (Bool-cases (sockaddr_eq sa (t.heap p).sa)) [
        | inl h ↦
            rw h (
              release_again p
                (message_to-Sound now m p t (plus held p) pos (omega (arith, self)) v))
        | inr h ↦ rw h (release_again p v)
      ]

  on_message-Sound :
      (now cb : ℕ) (m : Memory) (sa : Sockaddr) (t : Table) (held : ℕ → ℕ)
      → New t held program.create_endpoint
      → Room held
      → Sound t held
      → Sound (on_message program now cb m sa t) held
  unfolding on_message message_found
  on_message-Sound now cb m sa t held new room v = elim (Bool-cases (is_size_valid m cb)) [
    | inr h ↦ rw h v
    | inl h ↦ rw h (elim (get-found (get_ulong64 m 0) t) [
      | inl g ↦ rw g (on_unknown-Sound m (is_plain_data m) sa t held new v)
      | inr (p, g, pos, c, nz) ↦ rw g (
          message_found-Sound now m sa p (add_ref p t) held (rw (list-add_ref p t) pos) (room p)
            (add_ref-Sound p (omega arith) (omega (arith, room p)) v))
    ])
  ]

  -- Any datagram, of any size, with any bytes and from any address: if all references are right before,
  -- few enough callers hold each endpoint, and a new endpoint has one reference and an
  -- address that is not in use, then all references are right after it.
  pub on_datagram-Sound :
      (now cb : ℕ) (m : Memory) (sa : Sockaddr) (t : Table) (held : ℕ → ℕ)
      → New t held program.create_endpoint
      → Room held
      → Sound t held
      → Sound (on_datagram program now cb m sa t) held
  unfolding on_datagram
  on_datagram-Sound now cb m sa t held new room v = elim (Bool-cases (cb == 8)) [
    | inl h ↦ rw h (on_disconnect-Sound _ sa t held room v).0
    | inr h ↦ rw h (elim (Bool-cases (cb == 16)) [
      | inl g ↦ rw g (on_ping-Sound now _ _ sa t held room v).0
      | inr g ↦ rw g (on_message-Sound now cb m sa t held new room v)
    ])
  ]
