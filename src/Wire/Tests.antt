-- ===== src/Wire/Tests.antt =====
-- A fragment on the wire.
use camera_udp.Base.{◌≡◌, refl, [], ◌∷◌, some, none, arith}
use camera_udp.Packet.{DataPacket, to_bytes}
use camera_udp.Packet.Toy.{toy, toy-AesLaws, zeros, toy_random}
use camera_udp.Endpoint.{EPacket}
use camera_udp.Wire.{e_packet_bytes, e_packet_at, send_msg}
use camera_udp.Wire.RoundTrip.{Fits, Arrives, send_msg-Arrives, length-e_packet_bytes}

abbrev fragment : EPacket
fragment = record { msg_length = 2; type = 0x74696E69; m = 513; n = 0; buf = 7 ∷ 8 ∷ [] }

fragment_bytes :
    e_packet_bytes fragment ≡ 2 ∷ 0 ∷ 0 ∷ 0 ∷ 0x69 ∷ 0x6E ∷ 0x69 ∷ 0x74 ∷ 1 ∷ 2 ∷ 0 ∷ 0 ∷ 7 ∷ 8 ∷ []
unfolding e_packet_bytes to_bytes
fragment_bytes = refl

short : e_packet_at (2 ∷ 0 ∷ 0 ∷ 0 ∷ 0x69 ∷ 0x6E ∷ 0x69 ∷ 0x74 ∷ 1 ∷ 2 ∷ 0 ∷ []) ≡ none
unfolding e_packet_at
short = refl

fragment-Fits : Fits fragment
fragment-Fits = record {
  msg_length = omega arith;
  type = omega arith;
  m = omega arith;
  n = omega arith;
}

send_msg-Arrives_example :
    (packet : DataPacket) × (send_msg toy zeros toy_random (λ p. 0) 3 77 fragment
      ≡ (0, some packet))
    × Arrives toy zeros toy_random (λ p. 0) 3 77 fragment packet
send_msg-Arrives_example =
    send_msg-Arrives toy zeros toy_random (λ p. 0) toy-AesLaws 3 77 fragment (λ i. 0) fragment-Fits
      (omega arith) (omega (arith, length-e_packet_bytes fragment)) refl refl refl refl
