-- ===== src/Endpoint/Tests.antt =====
-- The endpoint's theorems at concrete messages.
use mathlib.Core.List.{Permᴰ}
use camera_udp.Base.{
  ℕ, ◌^◌, ◌≡◌, refl, List, [], ◌∷◌, ◌++◌, some, none, arith, map, replicate, length, read, copy,
}
use camera_udp.Endpoint.{
  EPacket, Msgb, Endpoint, noerror, max_packet_size, no_bits, maxulong, receive, on_data_client,
  fill,
}
use camera_udp.Endpoint.Send.{send_user_data, send_user_data_client}
use camera_udp.Endpoint.Send.Split.{
  fragment, fragment_count, range_from, send_user_data-fragments, send_user_data_client-fragments,
}
use camera_udp.Endpoint.Arrival.{arrive, packets, indices}
use camera_udp.Endpoint.Delivery.{Emptied, arrive-on_data_client}
use camera_udp.Endpoint.Faults.{receive_in_bounds}

abbrev empty_msgb : Msgb
empty_msgb = record {
  bits = no_bits;
  m = maxulong;
  cb_msg = 0;
  cb_need = 0;
  tick = 0;
  buf = λ _. 0xcc;
}

abbrev empty_msgbs : List Msgb
empty_msgbs = empty_msgb ∷ empty_msgb ∷ empty_msgb ∷ empty_msgb ∷ []

-- An end just after Init.
abbrev fresh_end : Endpoint
fresh_end = record {
  cookie = 5;
  rcookie = 7;
  tick = 15000;
  bits = 0;
  key = 1;
  msgbs = some empty_msgbs;
  rp = 2 ^ 31;
  ref_count = 1;
  sa = record { family = 2; image = [] };
  m = 0;
}

-- 1408 bytes of 1, then 2 and 3.
message : List ℕ
message = replicate max_packet_size 1 ++ 2 ∷ 3 ∷ []

length-message : length message ≡ 1410
unfolding message
length-message = refl

fragment_count-message : fragment_count message ≡ 2
unfolding fragment_count
fragment_count-message = rw length-message refl

-- Fragment 1 comes at time 10, fragment 0 at time 2000.
swapped : Permᴰ (indices ((10, 1) ∷ (2000, 0) ∷ [])) (range_from 0 (fragment_count message))
swapped = rw fragment_count-message (Permᴰ.swap refl refl)

arrive-on_data_client_example :
    (e' : Endpoint) × (arrive
        (on_data_client (λ type bytes. 0))
        (packets 9 3 message ((10, 1) ∷ (2000, 0) ∷ []))
        fresh_end
      ≡ (
        record { status = noerror; delivered = none }
            ∷ record { status = 0; delivered = some (9, message) }
            ∷ [],
        e',
      ))
    × Emptied 3 (length message) 0 e'
arrive-on_data_client_example =
    arrive-on_data_client (λ type bytes. 0) 9 3 0 message fresh_end empty_msgbs (10, 1)
      ((2000, 0) ∷ []) refl refl (omega arith) refl (omega (arith, length-message)) swapped

send_user_data_client-fragments_example :
    send_user_data_client (λ p. 0) 9 2 message
    ≡ (some (map (fragment 9 3 message) (range_from 0 (fragment_count message)), 0), 3)
send_user_data_client-fragments_example =
    send_user_data_client-fragments (λ p. 0) 9 2 message (λ p. refl) (omega (arith, length-message))

send_user_data-fragments_example :
    send_user_data (λ p. 0) 9 2 message
    ≡ (some (map (fragment 9 3 message) (range_from 0 (fragment_count message)), 0), 3)
send_user_data-fragments_example =
    send_user_data-fragments (λ p. 0) 9 2 message (λ p. refl) (omega (arith, length-message))

abbrev first_part : EPacket
first_part = record { msg_length = 5; type = 9; m = 3; n = 0; buf = 1 ∷ 2 ∷ [] }

abbrev third_part : EPacket
third_part = record { msg_length = 5; type = 9; m = 3; n = 2; buf = 5 ∷ 6 ∷ 7 ∷ [] }

receive_in_bounds_example :
    (receive (λ type bytes. 0) 0 0 10 first_part empty_msgb).1.buf 90112 ≡ 0xcc
receive_in_bounds_example =
    receive_in_bounds (λ type bytes. 0) 0 0 10 first_part empty_msgb 90112 (omega arith)
      (omega arith)

abbrev long_part : EPacket
long_part = record { msg_length = 90200; type = 9; m = 3; n = 63; buf = replicate 1418 1 ++ 2 ∷ [] }

abbrev taken_msgb : Msgb
taken_msgb = record empty_msgb { m = 3; cb_msg = 5; cb_need = 5 }

-- The bytes 2 to 4 of the message are what the memory held: 0xcc.
gap_message :
    read (fill 20 third_part (receive (λ type bytes. 0) 0 0 10 first_part taken_msgb).1).buf 0 5
    ≡ 1 ∷ 2 ∷ 0xcc ∷ 0xcc ∷ 0xcc ∷ []
unfolding receive read copy
gap_message = refl
