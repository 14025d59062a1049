-- ===== src/Connections/Dispatch/Delivered.antt =====
-- From SendMsg at one end to Endpoint::OnData at the other, through encryption and the dispatcher.
use camera_udp.Base.{ℕ, ◌+◌, ◌^◌, ◌<◌, ◌≡◌, ◌≢◌, refl, ◌∙◌, true, some, length, Memory, ==_of_ne}
use camera_udp.Packet.{DataPacket, succeeded, offset_buf, is_size_valid}
use camera_udp.Packet.Session.{AesLaws}
use camera_udp.Endpoint.{Endpoint, EPacket, on_data_with}
use camera_udp.Wire.{e_packet_bytes, get_ulong64, send_msg}
use camera_udp.Wire.RoundTrip.{Fits, Arrives, send_msg-Arrives}
use camera_udp.Connections.Dispatch.{Program, on_fragment, on_decoded, on_session_data, handle}

module _ (program : Program) where
  on_session_data-Arrives :
      (now rcookie : ℕ) (p : EPacket) (packet : DataPacket) (e : Endpoint)
      → Arrives program.cng program.new_memory program.random program.send_to e.key rcookie p packet
      → on_session_data program now packet.memory e ≡ on_fragment program now (some p) e
  unfolding on_session_data on_decoded
  on_session_data-Arrives now rcookie p packet e a = rw (a.decoded, a.fragment) refl

  handle-session :
      (now : ℕ) (m : Memory) (e : Endpoint)
      → e.rcookie ≢ 0
      → handle program now m e ≡ on_session_data program now m e
  unfolding handle
  handle-session now m e ne = rw (==_of_ne ne) refl

  -- A fragment that SendMsg of one end sends, with AES-GCM, when memory is granted and the calls of CNG
  -- succeed: its datagram has a valid size and the cookie of the other end; and there, on an endpoint with
  -- the same key and an established session, the dispatcher passes to OnData exactly that fragment.
  pub handle-send_msg :
      (laws : AesLaws program.cng) (now rcookie : ℕ) (p : EPacket) (m : Memory) (e : Endpoint)
      → e.rcookie ≢ 0
      → Fits p
      → rcookie < 2 ^ 64
      → offset_buf + length (e_packet_bytes p) < 2 ^ 32
      → program.new_memory (offset_buf + length (e_packet_bytes p)) ≡ some m
      → length (program.random 12).1 ≡ 12
      → succeeded (program.random 12).0 ≡ true
      → succeeded (program.cng.encrypt e.key (program.random 12).1 (e_packet_bytes p)).0 ≡ true
      → (packet : DataPacket) × (send_msg program.cng program.new_memory program.random
            program.send_to e.key rcookie p
          ≡ (program.send_to packet, some packet))
        × (is_size_valid packet.memory packet.data_size ≡ true)
        × (get_ulong64 packet.memory 0 ≡ rcookie)
        × (let (r, e') = on_data_with program.on_user_data program.partial now p e in
            handle program now packet.memory e ≡ (r.status, e'))
  unfolding on_fragment
  handle-send_msg laws now rcookie p m e ne f small fits g h s s' =
      let (packet, sent, a) =
        send_msg-Arrives program.cng program.new_memory program.random program.send_to laws e.key
          rcookie p m f small fits g h s s' in
      (
        packet,
        sent,
        a.valid,
        a.cookie,
        handle-session now packet.memory e ne ∙ on_session_data-Arrives now rcookie p packet e a,
      )
