-- ===== src/Wire.antt =====
-- A fragment as a datagram: E_PACKET and Endpoint::SendMsg of camera server/TUDP.cpp (remote camera has
-- the same). SendTo of the socket is an argument, which gives its status.
pub mod RoundTrip
mod Tests
use camera_udp.Base.{
  ℕ, ◌+◌, ◌*◌, ◌/◌, ◌%◌, ◌^◌, List, [], ◌∷◌, ◌++◌, Option, none, some, if◌then◌else◌, length,
  Memory, copy, read,
}
use camera_udp.Packet.{
  Cng, DataPacket, succeeded, status_no_memory, offset_buf, to_bytes, get_ulong, put_ulong,
  aes_encode,
}
use camera_udp.Endpoint.{EPacket}

abbrev pub ushort_bytes : ℕ → List ℕ
ushort_bytes v = (v % 256) ∷ (v / 256 % 256) ∷ []

-- The 12 bytes of the header, and Buf.
unfoldable pub e_packet_bytes : EPacket → List ℕ
unfolding to_bytes
e_packet_bytes p =
    to_bytes p.msg_length ++ to_bytes p.type ++ ushort_bytes p.m ++ ushort_bytes p.n ++ p.buf

-- Where fewer than sizeof(E_PACKET) bytes came, there is no packet.
unfoldable pub e_packet_at : List ℕ → Option EPacket
e_packet_at (a0 ∷ a1 ∷ a2 ∷ a3 ∷ t0 ∷ t1 ∷ t2 ∷ t3 ∷ m0 ∷ m1 ∷ n0 ∷ n1 ∷ buf) = some (record {
  msg_length = a0 + 256 * (a1 + 256 * (a2 + 256 * a3));
  type = t0 + 256 * (t1 + 256 * (t2 + 256 * t3));
  m = m0 + 256 * m1;
  n = n0 + 256 * n1;
  buf = buf;
})
e_packet_at bytes = none

-- UH_PACKET::cookie, and other ULONG64.
unfoldable pub get_ulong64 : Memory → ℕ → ℕ
get_ulong64 m at = get_ulong m at + 2 ^ 32 * get_ulong m (at + 4)

unfoldable pub put_ulong64 : ℕ → ℕ → Memory → Memory
put_ulong64 at v m = put_ulong (at + 4) (v / 2 ^ 32) (put_ulong at v m)

-- The eight bytes of a ULONG64.
unfoldable pub ulong64_bytes : ℕ → List ℕ
unfolding to_bytes
ulong64_bytes v = to_bytes v ++ to_bytes (v / 2 ^ 32)

module _ {Key : Type 0} (cng : Cng Key) (new_memory : ℕ → Option Memory) (random : ℕ → ℕ × List ℕ)
    (send_to : DataPacket → ℕ) where
  -- The packet that is handed to SendTo, and the status of the call.
  unfoldable pub sent_packet :
      (key : Key) (rcookie : ℕ) (bytes : List ℕ) → Memory → ℕ × Option DataPacket
  sent_packet key rcookie bytes m =
      let size = (offset_buf + length bytes) % 2 ^ 32 in
      let m1 = copy m offset_buf bytes in
      let (status, m2) = aes_encode cng random key (read m1 offset_buf (length bytes)) m1 in
      let packet : DataPacket = record {
        memory = put_ulong64 0 rcookie m2;
        buffer_size = size;
        data_size = size;
      } in
      if succeeded status then (send_to packet, some packet) else (status, none)

  unfoldable pub send_msg : (key : Key) (rcookie : ℕ) → EPacket → ℕ × Option DataPacket
  unfolding e_packet_bytes
  send_msg key rcookie p =
      let bytes = e_packet_bytes p in
      elim (new_memory ((offset_buf + length bytes) % 2 ^ 32)) [
        | none ↦ (status_no_memory, none)
        | some m ↦ sent_packet key rcookie bytes m
      ]
