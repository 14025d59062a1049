-- ===== src/Connections/Dispatch/Tests.antt =====
-- One program with a toy cipher: a datagram under the session key, and one that asks for a connection.
use camera_udp.Base.{◌≡◌, refl, [], ◌∷◌, true, some, arith, Memory}
use camera_udp.Packet.{DataPacket, is_size_valid, set_packet_size, set_magic, e_plain}
use camera_udp.Packet.Toy.{toy, toy-AesLaws, zeros, toy_random}
use camera_udp.Endpoint.{EPacket, noerror, on_data_with}
use camera_udp.Wire.{get_ulong64, send_msg}
use camera_udp.Wire.RoundTrip.{Fits, length-e_packet_bytes}
use camera_udp.Connections.Counts.{Sound}
use camera_udp.Connections.Sample.{address, listed_endpoint, two, nobody, two-Sound}
use camera_udp.Connections.Dispatch.{Program, handle, on_datagram}
use camera_udp.Connections.Dispatch.Handled.{on_datagram-Sound}
use camera_udp.Connections.Dispatch.Delivered.{handle-send_msg}

abbrev program : Program
program = record {
  cng = toy;
  random = toy_random;
  new_memory = zeros;
  new_msgbs = some [];
  partial = noerror;
  on_user_data = λ type bytes. 0;
  on_connected = 0;
  get_private_key = 0;
  create_pub_key = λ bytes. (0, 7);
  create_endpoint = some (3, record (listed_endpoint 13) { rp = 0 });
  accept = λ sa. 0;
  send_to = λ packet. 0;
}

-- A plain packet of 40 bytes from an unknown sender.
abbrev request : Memory
request = set_packet_size 40 (set_magic e_plain (λ i. 0))

on_datagram-Sound_example : Sound (on_datagram program 100 40 request address two) nobody
on_datagram-Sound_example =
    on_datagram-Sound program 100 40 request address two nobody (refl, refl, refl, refl)
      (λ p. omega arith) two-Sound

abbrev fragment : EPacket
fragment = record { msg_length = 2; type = 0x74696E69; m = 513; n = 0; buf = 7 ∷ 8 ∷ [] }

fragment-Fits : Fits fragment
fragment-Fits = record {
  msg_length = omega arith;
  type = omega arith;
  m = omega arith;
  n = omega arith;
}

handle-send_msg_example :
    (packet : DataPacket) × (send_msg toy zeros toy_random program.send_to 0 11 fragment
      ≡ (0, some packet))
    × (is_size_valid packet.memory packet.data_size ≡ true)
    × (get_ulong64 packet.memory 0 ≡ 11)
    × (let (r, e') = on_data_with program.on_user_data noerror 100 fragment (listed_endpoint 11) in
        handle program 100 packet.memory (listed_endpoint 11) ≡ (r.status, e'))
handle-send_msg_example =
    handle-send_msg program toy-AesLaws 100 11 fragment (λ i. 0) (listed_endpoint 11) (omega arith)
      fragment-Fits (omega arith) (omega (arith, length-e_packet_bytes fragment)) refl refl refl
      refl
