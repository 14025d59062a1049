-- ===== src/Endpoint/Send/Split.antt =====
-- What SendUserData sends: the message, cut at multiples of max_packet_size.
use camera_udp.Base.{
  ℕ, zero, suc, ◌+◌, ◌-◌, ◌*◌, ◌/◌, ◌%◌, ◌^◌, ◌≤◌, ◌<◌, ◌≡◌, refl, ◌≢◌, ◌⊎◌, List, [], ◌∷◌, some,
  arith, ap, ==_of_ne, false, ltb, ◌==◌, if◌then◌else◌, length, take, drop, min, length-drop, map,
}
use camera_udp.Endpoint.Buffers.{max_packet_size, max_fragments, EPacket}
use camera_udp.Endpoint.Send.{
  sent_before, send_loop, send_all, send_user_data, send_user_data_client, e_packet_size,
}

-- Fragment `i` of a message: its bytes from i * max_packet_size on, at most max_packet_size of them.
abbrev pub fragment : (type m : ℕ) (bytes : List ℕ) → ℕ → EPacket
fragment type m bytes i = record {
  msg_length = length bytes;
  type = type;
  m = m;
  n = i;
  buf = take max_packet_size (drop (i * max_packet_size) bytes);
}

-- The number of fragments: one for an empty message.
unfoldable pub fragment_count : List ℕ → ℕ
fragment_count bytes =
    if length bytes == 0 then 1 else (length bytes + (max_packet_size - 1)) / max_packet_size

-- The numbers from `i` on, `k` of them.
abbrev pub range_from : (i k : ℕ) → List ℕ
range_from i zero = []
range_from i (suc k) = i ∷ range_from (i + 1) k

drop-nil {ℓ} : {A : Type ℓ} (n : ℕ) → drop {A = A} n [] ≡ []
drop-nil zero = refl
drop-nil (suc n) = refl

pub drop-drop {ℓ} : {A : Type ℓ} (a b : ℕ) (xs : List A) → drop a (drop b xs) ≡ drop (b + a) xs
drop-drop a zero xs = let e : 0 + a ≡ a = omega arith in rw e
drop-drop a (suc b) [] = let e : suc b + a ≡ suc (b + a) = omega arith in rw e (drop-nil a)
drop-drop a (suc b) (x ∷ xs) =
    let e : suc b + a ≡ suc (b + a) = omega arith in rw e (drop-drop a b xs)

take-min {ℓ} : {A : Type ℓ} (n : ℕ) (xs : List A) → take (min (length xs) n) xs ≡ take n xs
take-min zero xs = let e : min (length xs) 0 ≡ 0 = omega arith in rw e
take-min (suc n) [] = let e : min 0 (suc n) ≡ 0 = omega arith in rw e
take-min (suc n) (x ∷ xs) =
    let e : min (suc (length xs)) (suc n) ≡ suc (min (length xs) n) = omega arith in
    rw (e, take-min n xs)

module _ (send_msg : EPacket → ℕ) (msg_length type m : ℕ) where
  abbrev first : (n : ℕ) → List ℕ → EPacket
  first n bytes = record {
    msg_length = msg_length;
    type = type;
    m = m;
    n = n;
    buf = take max_packet_size bytes;
  }

  send_loop-last :
      (fuel n : ℕ) (bytes : List ℕ)
      → send_msg (first n bytes) ≡ 0
      → length bytes ≤ max_packet_size
      → send_loop send_msg (suc fuel) msg_length type m n bytes ≡ some (first n bytes ∷ [], 0)
  unfolding send_loop
  send_loop-last fuel n bytes ok h = rw (take-min max_packet_size bytes, ok) (ground arith)

  send_loop-more :
      (fuel n : ℕ) (bytes : List ℕ)
      → send_msg (first n bytes) ≡ 0
      → max_packet_size < length bytes
      → send_loop send_msg (suc fuel) msg_length type m n bytes
        ≡ sent_before (first n bytes) (
            send_loop send_msg fuel msg_length type m
              ((n + 1) % 2 ^ 16)
              (drop max_packet_size bytes))
  unfolding send_loop
  send_loop-more fuel n bytes ok h =
      let e : min (length bytes) max_packet_size ≡ max_packet_size = omega arith in
      let t : (length bytes - max_packet_size == 0) ≡ false = ==_of_ne (omega arith) in
      rw (e, ok, t) refl

  -- The first failure ends the loop, and its status is returned.
  pub send_loop-fails :
      (fuel n : ℕ) (bytes : List ℕ)
      → send_msg (first n bytes) ≢ 0
      → send_loop send_msg (suc fuel) msg_length type m n bytes
        ≡ some (first n bytes ∷ [], send_msg (first n bytes))
  unfolding send_loop
  send_loop-fails fuel n bytes bad = rw (take-min max_packet_size bytes) (ground arith)

-- The loop from fragment `i` on, when every send succeeds.
send_loop-eq :
    (send_msg : EPacket → ℕ) (type m : ℕ) (bytes : List ℕ)
    → ((p : EPacket) → send_msg p ≡ 0)
    → (fuel k i : ℕ) → k < fuel
    → i + suc k < 2 ^ 16
    → (k ≡ 0) ⊎ ((i + k) * max_packet_size < length bytes)
    → length bytes ≤ (i + suc k) * max_packet_size
    → send_loop send_msg fuel (length bytes) type m i (drop (i * max_packet_size) bytes)
      ≡ some (map (fragment type m bytes) (range_from i (suc k)), 0)
send_loop-eq send_msg type m bytes ok zero k i f small lo hi = absurd (omega arith)
send_loop-eq send_msg type m bytes ok (suc fuel) zero i f small lo hi =
    send_loop-last send_msg (length bytes) type m fuel i (drop (i * max_packet_size) bytes) (ok _)
      (omega (arith, length-drop (i * max_packet_size) bytes))
send_loop-eq send_msg type m bytes ok (suc fuel) (suc k) i f small lo hi =
    let e : (i + 1) % 2 ^ 16 ≡ i + 1 = omega arith in
    let e' : i * max_packet_size + max_packet_size ≡ (i + 1) * max_packet_size = omega arith in
    let rest = drop (i * max_packet_size) bytes in
    rw (
      send_loop-more send_msg (length bytes) type m fuel i rest (ok _)
          (omega (arith, length-drop (i * max_packet_size) bytes)),
      e,
      drop-drop max_packet_size (i * max_packet_size) bytes,
      e',
      send_loop-eq send_msg type m bytes ok fuel k (i + 1) (omega arith) (omega arith) (omega arith)
          (omega arith),
    )

pub fragment_count_bounds :
    (bytes : List ℕ)
    → let c = fragment_count bytes in
      (0 < c)
      × ((c ≡ 1) ⊎ ((c - 1) * max_packet_size < length bytes))
      × (length bytes ≤ c * max_packet_size)
unfolding fragment_count
fragment_count_bounds bytes = ground arith

fragment_count-pred : (bytes : List ℕ) → (k : ℕ) × (fragment_count bytes ≡ suc k)
fragment_count-pred bytes =
    (fragment_count bytes - 1, omega (arith, (fragment_count_bounds bytes).0))

send_all-eq :
    (send_msg : EPacket → ℕ) (type m : ℕ) (bytes : List ℕ)
    → ((p : EPacket) → send_msg p ≡ 0)
    → length bytes ≤ max_packet_size * max_fragments
    → let m' = (m + 1) % 2 ^ 16 in
      send_all send_msg type m bytes
      ≡ (some (map (fragment type m' bytes) (range_from 0 (fragment_count bytes)), 0), m')
send_all-eq send_msg type m bytes ok h =
    let (k, e) = fragment_count-pred bytes in
    let b = fragment_count_bounds bytes in
    let c : (0 < suc k)
        × ((suc k ≡ 1) ⊎ ((suc k - 1) * max_packet_size < length bytes))
        × (length bytes ≤ suc k * max_packet_size) =
      rw e at b in
    let m' = (m + 1) % 2 ^ 16 in
    rw e (
      ap (λ r. (r, m'))
        (send_loop-eq send_msg type m' bytes ok (length bytes + 1) k 0 (omega arith) (omega arith)
          (omega arith) (omega arith)))

-- The client's SendUserData, for a message that fits 64 full fragments and a network that takes every
-- packet: it succeeds, raises m_M by one modulo 2 ^ 16, and sends the fragments 0, 1, … of the message
-- in order, with the new m_M, as many as it takes to cover it.
pub send_user_data_client-fragments :
    (send_msg : EPacket → ℕ) (type m : ℕ) (bytes : List ℕ)
    → ((p : EPacket) → send_msg p ≡ 0)
    → length bytes ≤ max_packet_size * max_fragments
    → let m' = (m + 1) % 2 ^ 16 in
      send_user_data_client send_msg type m bytes
      ≡ (some (map (fragment type m' bytes) (range_from 0 (fragment_count bytes)), 0), m')
unfolding send_user_data_client
send_user_data_client-fragments send_msg type m bytes ok h =
    let t : ltb (max_packet_size * max_fragments) (length bytes) ≡ false = ground arith in
    rw t (send_all-eq send_msg type m bytes ok h)

-- The server's SendUserData does the same, for messages at least 12 bytes shorter.
pub send_user_data-fragments :
    (send_msg : EPacket → ℕ) (type m : ℕ) (bytes : List ℕ)
    → ((p : EPacket) → send_msg p ≡ 0)
    → e_packet_size + length bytes ≤ max_packet_size * max_fragments
    → let m' = (m + 1) % 2 ^ 16 in
      send_user_data send_msg type m bytes
      ≡ (some (map (fragment type m' bytes) (range_from 0 (fragment_count bytes)), 0), m')
unfolding send_user_data
send_user_data-fragments send_msg type m bytes ok h =
    let t : ltb (max_packet_size * max_fragments) (e_packet_size + length bytes) ≡ false =
      ground arith in
    rw t (send_all-eq send_msg type m bytes ok (omega arith))
