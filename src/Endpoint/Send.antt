-- ===== src/Endpoint/Send.antt =====
-- Endpoint::SendUserData of camera server/TUDP.cpp and remote camera/TUDP.cpp: a message is cut into
-- fragments, which go out in order. What SendMsg returns for a fragment (encryption, allocation, the
-- socket) is the argument `send_msg`.
pub mod Split
use camera_udp.Base.{
  ℕ, zero, suc, ◌+◌, ◌-◌, ◌*◌, ◌%◌, ◌^◌, List, [], ◌∷◌, Option, none, some, ltb, ◌==◌,
  if◌then◌else◌, length, take, drop, min,
}
use camera_udp.Endpoint.Buffers.{max_packet_size, max_fragments, EPacket}

abbrev pub status_port_message_too_long : ℕ
status_port_message_too_long = 0xC000002F

-- sizeof(E_PACKET)
abbrev pub e_packet_size : ℕ
e_packet_size = 12

-- The fragments that were handed to SendMsg, and the status of the call.
abbrev pub Sent : Type 0
Sent = List EPacket × ℕ

abbrev pub sent_before : EPacket → Option Sent → Option Sent
sent_before p none = none
sent_before p (some (ps, status)) = some (p ∷ ps, status)

module _ (send_msg : EPacket → ℕ) where
  -- The rounds of the loop from fragment `n` on, for the bytes that are left. `none`: out of fuel.
  unfoldable pub send_loop : (fuel msg_length type m n : ℕ) → List ℕ → Option Sent
  send_loop zero msg_length type m n bytes = none
  send_loop (suc fuel) msg_length type m n bytes =
      let s = min (length bytes) max_packet_size in
      let p : EPacket = record {
        msg_length = msg_length;
        type = type;
        m = m;
        n = n;
        buf = take s bytes;
      } in
      let status = send_msg p in
      let rest = send_loop fuel msg_length type m ((n + 1) % 2 ^ 16) (drop s bytes) in
      if status == 0
      then (if length bytes - s == 0 then some (p ∷ [], 0) else sent_before p rest)
      else some (p ∷ [], status)

  -- The result, and the new m_M. One round of fuel for each byte is plenty.
  abbrev pub send_all : (type m : ℕ) → List ℕ → Option Sent × ℕ
  send_all type m bytes =
      let m' = (m + 1) % 2 ^ 16 in (send_loop (length bytes + 1) (length bytes) type m' 0 bytes, m')

  -- remote camera/TUDP.cpp
  unfoldable pub send_user_data_client : (type m : ℕ) → List ℕ → Option Sent × ℕ
  send_user_data_client type m bytes =
      if ltb (max_packet_size * max_fragments) (length bytes)
      then (some ([], status_port_message_too_long), m)
      else send_all type m bytes

  -- camera server/TUDP.cpp
  unfoldable pub send_user_data : (type m : ℕ) → List ℕ → Option Sent × ℕ
  send_user_data type m bytes =
      if ltb (max_packet_size * max_fragments) (e_packet_size + length bytes)
      then (some ([], status_port_message_too_long), m)
      else send_all type m bytes
