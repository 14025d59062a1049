-- ===== src/Connections/Dispatch.antt =====
-- What one datagram does to the connections of a socket: CClientServerR::OnData and OnConnect of
-- camera server/TUDP.cpp (remote camera has the same). The class that derives from Endpoint, the classes
-- that create endpoints and keys, the socket and the system are the record `Program`.
pub mod Handled
pub mod Delivered
mod Tests
use camera_udp.Base.{
  ℕ, ◌+◌, ◌-◌, Bool, true, false, List, [], ◌∷◌, Option, none, some, ltb, ◌==◌, if◌then◌else◌,
  Memory, read,
}
use camera_udp.Rundown.{acquire_alone, release}
use camera_udp.Packet.{Cng, DataPacket, Decoded, is_size_valid, is_plain_data, aes_decode}
use camera_udp.Packet.PublicKey.{decode}
use camera_udp.Packet.Agreement.{encode}
use camera_udp.Endpoint.{Endpoint, Sockaddr, Msgb, EPacket, init, on_data_with}
use camera_udp.Wire.{e_packet_at, get_ulong64, put_ulong64, ulong64_bytes}
use camera_udp.Connections.{
  Table, update, sockaddr_eq, get, add_connection, remove_connection, release_ref, on_disconnect,
  on_ping,
}

abbrev pub status_too_late : ℕ
status_too_late = 0xC0000189

-- `partial` is what OnData returns for a fragment that completes no message: the two copies of the file
-- differ there. A key is a handle, and 0 is none. `create_endpoint` gives the address of the new object.
pub record Program : Type 0 where
  pub cng : Cng ℕ
  pub random : ℕ → ℕ × List ℕ
  pub new_memory : ℕ → Option Memory
  pub new_msgbs : Option (List Msgb)
  pub partial : ℕ
  pub on_user_data : ℕ → List ℕ → ℕ
  pub on_connected : ℕ
  pub get_private_key : ℕ
  pub create_pub_key : List ℕ → ℕ × ℕ
  pub create_endpoint : Option (ℕ × Endpoint)
  pub accept : Sockaddr → ℕ
  pub send_to : DataPacket → ℕ

abbrev pub key_of : Option ℕ → ℕ
key_of none = 0
key_of (some key) = key

module _ (program : Program) where
  -- The fragment in the decoded data, if there are sizeof(E_PACKET) bytes.
  unfoldable pub on_fragment : (now : ℕ) → Option EPacket → Endpoint → ℕ × Endpoint
  on_fragment now none e = (status_too_late, e)
  on_fragment now (some p) e =
      let (r, e') = on_data_with program.on_user_data program.partial now p e in (r.status, e')

  unfoldable pub on_decoded : (now : ℕ) → Memory → Option (ℕ × ℕ) → Endpoint → ℕ × Endpoint
  unfolding on_fragment
  on_decoded now m none e = (status_too_late, e)
  on_decoded now m (some (at, cb)) e = on_fragment now (e_packet_at (read m at cb)) e

  -- A datagram under the session key.
  unfoldable pub on_session_data : (now : ℕ) → Memory → Endpoint → ℕ × Endpoint
  on_session_data now m e =
      let d = aes_decode program.cng e.key m in
      if d.status == 0 then on_decoded now d.memory d.out e else (status_too_late, e)

  unfoldable pub on_cookie : Memory → Option (ℕ × ℕ) → Endpoint → ℕ × Endpoint
  on_cookie m none e = (status_too_late, e)
  on_cookie m (some (at, cb)) e =
      if cb == 8
      then (program.on_connected, record e { rcookie = get_ulong64 m at })
      else (status_too_late, e)

  -- The reply to a request for a connection: the cookie of the other end, and the session key.
  unfoldable pub on_reply : Memory → Endpoint → ℕ × Endpoint
  on_reply m e =
      let (d, key) = decode program.cng program.get_private_key m in
      let e' : Endpoint = record e { key = key_of key } in
      if program.get_private_key == 0
      then (status_too_late, e)
      else (if d.status == 0 then on_cookie d.memory d.out e' else (status_too_late, e'))

  unfoldable pub handle : (now : ℕ) → Memory → Endpoint → ℕ × Endpoint
  unfolding on_session_data on_reply
  handle now m e = if e.rcookie == 0 then on_reply m e else on_session_data now m e

  -- Between Acquire and Release: the status, the endpoint, and whether its rundown completed.
  unfoldable pub handle_acquired :
      (now : ℕ) → Memory → Endpoint → Option (Bool × ℕ) → ℕ × Endpoint × Bool
  handle_acquired now m e none = (status_too_late, e, false)
  handle_acquired now m e (some (false, v)) = (status_too_late, record e { rp = v }, false)
  handle_acquired now m e (some (true, v)) =
      let (status, e1) = handle now m (record e { rp = v }) in
      let (completed, w) = release e1.rp in (status, record e1 { rp = w }, completed)

  unfoldable pub handle_protected : (now : ℕ) → Memory → Endpoint → ℕ × Endpoint × Bool
  unfolding handle_acquired
  handle_protected now m e = handle_acquired now m e (acquire_alone e.rp)

  unfoldable pub message_to : (now : ℕ) → Memory → ℕ → Table → Table
  unfolding handle_protected
  message_to now m p t =
      let (status, e, completed) = handle_protected now m (t.heap p) in
      let t1 : Table = record t {
        heap = update p e t.heap;
        disconnected = if completed then p ∷ t.disconnected else t.disconnected;
      } in
      if status == 0 then t1 else remove_connection p t1

  -- OnConnect, on the new endpoint: its status, and the endpoint.
  unfoldable pub accept_endpoint : (client_cookie pub_key : ℕ) → Sockaddr → Endpoint → ℕ × Endpoint
  accept_endpoint client_cookie pub_key sa e =
      let (status, e1) = init program.new_msgbs sa client_cookie e in
      let (hr, packet, key) =
        encode program.cng program.random program.new_memory pub_key
          (some (ulong64_bytes e1.cookie)) in
      let e2 : Endpoint = record e1 { key = elim key [ none ↦ e1.key | some k ↦ k ] } in
      let sent : ℕ = elim packet [
        | none ↦ hr
        | some p ↦ program.send_to (record p { memory = put_ulong64 0 client_cookie p.memory })
      ] in
      if status == 0
      then (if program.accept sa == 0
          then (if hr == 0 then (sent, e2) else (hr, e2))
          else (program.accept sa, e1))
      else (status, e1)

  -- `OnConnect` with the object that CreateEndpoint made.
  unfoldable pub connect_endpoint :
      (client_cookie pub_key : ℕ) → Sockaddr → (p : ℕ) → Endpoint → Table → Table
  unfolding accept_endpoint
  connect_endpoint client_cookie pub_key sa p e t =
      let t1 = add_connection p (record t { heap = update p e t.heap }) in
      let (hr, e1) = accept_endpoint client_cookie pub_key sa (t1.heap p) in
      let t2 : Table = record t1 { heap = update p e1 t1.heap } in
      release_ref p (if hr == 0 then t2 else remove_connection p t2)

  unfoldable pub connect_created :
      (client_cookie pub_key : ℕ) → Sockaddr → Option (ℕ × Endpoint) → Table → Table
  connect_created client_cookie pub_key sa none t = t
  connect_created client_cookie pub_key sa (some (p, e)) t =
      connect_endpoint client_cookie pub_key sa p e t

  unfoldable pub on_connect : (client_cookie : ℕ) → List ℕ → Sockaddr → Table → Table
  unfolding connect_created
  on_connect client_cookie bytes sa t =
      let (status, pub_key) = program.create_pub_key bytes in
      if status == 0 then connect_created client_cookie pub_key sa program.create_endpoint t else t

  -- The datagram of an unknown sender: sizeof(C_PACKET) is 8.
  unfoldable pub on_unknown : Memory → Option (ℕ × ℕ) → Sockaddr → Table → Table
  on_unknown m none sa t = t
  on_unknown m (some (at, cb)) sa t =
      if ltb 8 cb then on_connect (get_ulong64 m at) (read m (at + 8) (cb - 8)) sa t else t

  unfoldable pub message_found : (now : ℕ) → Memory → Sockaddr → Option ℕ × Table → Table
  unfolding message_to on_unknown
  message_found now m sa (none, t) = on_unknown m (is_plain_data m) sa t
  message_found now m sa (some p, t) =
      release_ref p (if sockaddr_eq sa (t.heap p).sa then message_to now m p t else t)

  unfoldable pub on_message : (now cb : ℕ) → Memory → Sockaddr → Table → Table
  on_message now cb m sa t =
      if is_size_valid m cb then message_found now m sa (get (get_ulong64 m 0) t) else t

  -- `OnData`: sizeof(ULONG64) is 8 and sizeof(P_PACKET) is 16.
  unfoldable pub on_datagram : (now cb : ℕ) → Memory → Sockaddr → Table → Table
  unfolding on_message
  on_datagram now cb m sa t =
      if cb == 8
      then on_disconnect (get_ulong64 m 0) sa t
      else (if cb == 16
          then on_ping now (get_ulong64 m 0) (get_ulong64 m 8) sa t
          else on_message now cb m sa t)
