-- ===== src/Packet/Tests.antt =====
-- Packets with a toy cipher in the place of CNG.
use camera_udp.Base.{
  ℕ, ◌+◌, ◌≤◌, ◌<◌, ◌≡◌, refl, ◌⊎◌, true, false, [], ◌∷◌, none, some, arith, length, Memory, copy,
  read,
}
use camera_udp.Packet.{
  DataPacket, offset_rsa_data, offset_buf, data_size, offset_rsa_aes_data, is_size_valid,
  set_packet_size, set_data_size, set_magic, get_ulong, put_ulong, e_aes, aes_decode,
  aes_encode_packet,
}
use camera_udp.Packet.Session.{aes_decode-aes_encode_packet, aes_decode_in_bounds}
use camera_udp.Packet.Agreement.{dh_encode}
use camera_udp.Packet.Agreement.RoundTrip.{DhPair, decode-dh_encode}
use camera_udp.Packet.PublicKey.{rsa_encode_packet, decode}
use camera_udp.Packet.PublicKey.RoundTrip.{decode-rsa_encode_packet}
use camera_udp.Packet.PublicKey.Hybrid.{decode-rsa_aes_packet}
use camera_udp.Packet.Toy.{
  toy, toy-AesLaws, toy-RsaPair, zeros, toy_random, hello, length-toy_decrypt,
}

aes_decode-aes_encode_packet_example :
    (packet : DataPacket) × (aes_encode_packet toy zeros toy_random 3 hello ≡ (0, some packet))
    × (is_size_valid packet.memory packet.data_size ≡ true)
    × ((aes_decode toy 3 packet.memory).status ≡ 0)
    × ((aes_decode toy 3 packet.memory).out ≡ some (offset_buf, length hello))
    × (read (aes_decode toy 3 packet.memory).memory offset_buf (length hello) ≡ hello)
aes_decode-aes_encode_packet_example =
    aes_decode-aes_encode_packet toy toy-AesLaws zeros toy_random 3 hello (λ i. 0) (omega arith)
      (omega arith) refl refl refl refl

decode-rsa_encode_packet_example :
    (packet : DataPacket) × (rsa_encode_packet toy toy_random zeros 7 (some hello) false
      ≡ (0, some (packet, none)))
    × (is_size_valid packet.memory packet.data_size ≡ true)
    × (let (d, key) = decode toy 7 packet.memory in
        (d.status ≡ 0)
        × (d.out ≡ some (offset_rsa_data, length hello))
        × (read d.memory offset_rsa_data (length hello) ≡ hello)
        × (key ≡ none))
decode-rsa_encode_packet_example =
    decode-rsa_encode_packet toy 7 7 128 toy-RsaPair toy_random zeros hello (λ i. 0) (omega arith)
      (omega arith) refl refl

decode-rsa_aes_packet_example :
    (packet : DataPacket) × (rsa_encode_packet toy toy_random zeros 7 (some hello) true
      ≡ (0, some (packet, some 5)))
    × (is_size_valid packet.memory packet.data_size ≡ true)
    × (let (d, key) = decode toy 7 packet.memory in
        (d.status ≡ 0)
        × (d.out ≡ some (offset_rsa_aes_data, length hello))
        × (read d.memory offset_rsa_aes_data (length hello) ≡ hello)
        × (key ≡ some 5))
decode-rsa_aes_packet_example =
    decode-rsa_aes_packet toy 7 7 128 toy-RsaPair toy-AesLaws toy_random zeros 5 hello (λ i. 0)
      (omega arith) (omega arith) (omega arith) refl refl refl refl refl refl refl refl

-- A packet of 50 bytes, two of them data.
abbrev packet50 : Memory
packet50 = set_packet_size 50 (set_data_size 2 (set_magic e_aes (λ i. 0)))

packet50_valid : is_size_valid packet50 50 ≡ true
unfolding is_size_valid get_ulong put_ulong copy read
packet50_valid = refl

aes_decode_in_bounds_example :
    let d = aes_decode toy 3 packet50 in
    ((i : ℕ) → 50 ≤ i → d.memory i ≡ packet50 i)
    × ((d.out ≡ none)
        ⊎ ((n : ℕ) × (0 < n)
            × (offset_buf + n ≡ 50)
            × (data_size packet50 ≡ n)
            × (d.out ≡ some (offset_buf, n))))
aes_decode_in_bounds_example =
    aes_decode_in_bounds toy 3 packet50 50
      (λ nonce tag cipher. omega (arith, length-toy_decrypt 3 cipher)) packet50_valid

toy-DhPair : DhPair toy 8 7 21 (21 ∷ 0 ∷ 0 ∷ []) 5
toy-DhPair = record {
  created = refl;
  exported = refl;
  agreed = refl;
  imported = 7;
  imports = refl;
  agrees = refl;
}

decode-dh_encode_example :
    (packet : DataPacket) × (dh_encode toy toy_random zeros 8 hello ≡ (0, some packet, some 5))
    × (is_size_valid packet.memory packet.data_size ≡ true)
    × (let (d, key) = decode toy 7 packet.memory in
        (d.status ≡ 0)
        × (d.out ≡ some (offset_buf + 3, length hello))
        × (read d.memory (offset_buf + 3) (length hello) ≡ hello)
        × (key ≡ some 5))
decode-dh_encode_example =
    decode-dh_encode toy toy_random 8 7 21 5 (21 ∷ 0 ∷ 0 ∷ []) hello toy-DhPair toy-AesLaws refl
      (omega arith) zeros (λ i. 0) (omega arith) (omega arith) refl refl refl
