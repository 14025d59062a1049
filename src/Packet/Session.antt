-- ===== src/Packet/Session.antt =====
-- Packets under a session key: what AES_Encode writes, AES_Decode reads back, and AES_Decode stays in
-- the packet.
use camera_udp.Base.{
  ℕ, ◌+◌, ◌-◌, ◌%◌, ◌^◌, ◌≤◌, ◌<◌, ◌≡◌, refl, ◌∙◌, sym, ◌⊎◌, inl, inr, true, ◌&&◌, List, Option,
  none, some, arith, ltb, ◌==◌, length, Memory, copy, read, read-copy_self, ==_of_eq, Bool-cases,
  copy_outside, length-read,
}
use camera_udp.Packet.{
  Cng, is_size_valid, DataPacket, succeeded, offset_buf, offset_nonce, offset_tag, e_aes,
  packet_size, magic, data_size, set_packet_size, set_data_size, set_magic, nonce, tag,
  aes_decode_i, aes_encode_i, aes_decode, aes_encode, aes_encode_packet,
}
use camera_udp.Packet.Layout.{
  get_ulong-put_self, get_ulong-put_other, get_ulong-copy_other, read-copy_other, read-copy_whole,
}

-- The header of a packet under a session key, for `n` bytes of data.
pub record Header (n : ℕ) (m : Memory) : Type 0 where
  pub is_aes : magic m ≡ e_aes
  pub whole : packet_size m ≡ offset_buf + n
  pub size : data_size m ≡ n

pub set-Header :
    (n : ℕ) (m : Memory)
    → offset_buf + n < 2 ^ 32
    → Header n (set_packet_size ((offset_buf + n) % 2 ^ 32) (set_data_size n (set_magic e_aes m)))
set-Header n m h = record {
  is_aes =
      get_ulong-put_other _ _ _ _ (inl (omega arith))
      ∙ get_ulong-put_other _ _ _ _ (inl (omega arith))
      ∙ get_ulong-put_self _ e_aes m (omega arith);
  whole = get_ulong-put_self _ _ _ (omega arith) ∙ (omega arith);
  size = get_ulong-put_other _ _ _ _ (inr (omega arith)) ∙ get_ulong-put_self _ n _ (omega arith);
}

pub copy-Header :
    (n : ℕ) (m : Memory) (at : ℕ) (bs : List ℕ)
    → offset_nonce ≤ at
    → Header n m
    → Header n (copy m at bs)
copy-Header n m at bs h v = record {
  is_aes = get_ulong-copy_other m at bs _ (inl (omega arith)) ∙ v.is_aes;
  whole = get_ulong-copy_other m at bs _ (inl (omega arith)) ∙ v.whole;
  size = get_ulong-copy_other m at bs _ (inl (omega arith)) ∙ v.size;
}

-- What the documentation of BCryptEncrypt and BCryptDecrypt says of AES-GCM: a ciphertext is as long as
-- its plaintext, a tag has 16 bytes, and one key decrypts what it encrypted.
pub record AesLaws {Key : Type 0} (cng : Cng Key) : Type 0 where
  pub length_cipher :
      (key : Key) (nonce plain : List ℕ) → length (cng.encrypt key nonce plain).1 ≡ length plain
  pub length_tag : (key : Key) (nonce plain : List ℕ) → length (cng.encrypt key nonce plain).2 ≡ 16
  pub decrypt_encrypt :
      (key : Key) (nonce plain : List ℕ)
      → succeeded (cng.encrypt key nonce plain).0 ≡ true
      → cng.decrypt key nonce (cng.encrypt key nonce plain).2 (cng.encrypt key nonce plain).1
        ≡ (0, plain)

module _ {Key : Type 0} (cng : Cng Key) where
  -- Memory after AES_Encode_I, if both calls succeed.
  abbrev pub sealed : (fresh : List ℕ) → Key → List ℕ → (at : ℕ) → Memory → Memory
  sealed fresh key bytes at m =
      let (_, cipher, t) = cng.encrypt key fresh bytes in
      copy (copy (copy m offset_nonce fresh) at cipher) offset_tag t

  pub aes_encode_i-sealed :
      (random : ℕ → ℕ × List ℕ) (key : Key) (bytes : List ℕ) (at : ℕ) (m : Memory)
      → length (random 12).1 ≡ 12
      → succeeded (random 12).0 ≡ true
      → aes_encode_i cng random key bytes at m
        ≡ ((cng.encrypt key (random 12).1 bytes).0, sealed (random 12).1 key bytes at m)
  unfolding aes_encode_i
  aes_encode_i-sealed random key bytes at m e h =
      rw (h, read-copy_whole m offset_nonce (random 12).1 12 e) refl

  -- Memory holds the nonce, the tag and the ciphertext of some bytes.
  abbrev pub Holds : (fresh : List ℕ) → Key → List ℕ → (at : ℕ) → Memory → Type 0
  Holds fresh key bytes at m =
      let (_, cipher, t) = cng.encrypt key fresh bytes in
      (nonce m ≡ fresh) × (tag m ≡ t) × (read m at (length bytes) ≡ cipher)

  pub sealed-Holds :
      (laws : AesLaws cng) (fresh : List ℕ) (key : Key) (bytes : List ℕ) (at : ℕ) (m : Memory)
      → length fresh ≡ 12
      → offset_buf ≤ at
      → Holds fresh key bytes at (sealed fresh key bytes at m)
  sealed-Holds laws fresh key bytes at m e above =
      let (_, cipher, t) = cng.encrypt key fresh bytes in
      let len_t = laws.length_tag key fresh bytes in
      let len_c = laws.length_cipher key fresh bytes in
      let m1 = copy m offset_nonce fresh in
      (
        read-copy_other _ _ _ _ 12 (inl (omega arith))
            ∙ read-copy_other _ _ _ _ 12 (inl (omega arith))
            ∙ read-copy_whole m _ fresh 12 e,
        read-copy_whole _ _ t 16 len_t,
        read-copy_other _ offset_tag t at (length bytes) (inr (omega arith))
            ∙ read-copy_whole m1 at cipher (length bytes) len_c,
      )

  -- AES_Decode_I of what AES_Encode_I wrote.
  pub aes_decode_i-Holds :
      (laws : AesLaws cng) (fresh : List ℕ) (key : Key) (bytes : List ℕ) (at : ℕ) (m : Memory)
      → succeeded (cng.encrypt key fresh bytes).0 ≡ true
      → Holds fresh key bytes at m
      → aes_decode_i cng key at (length bytes) m ≡ (0, copy m at bytes)
  unfolding aes_decode_i
  aes_decode_i-Holds laws fresh key bytes at m h (a, b, c) =
      rw (a, b, c, laws.decrypt_encrypt key fresh bytes h) refl

  -- AES_Decode of a packet with the header of AES_Encode.
  pub aes_decode-Header :
      (key : Key) (n : ℕ) (m m' : Memory) (status : ℕ)
      → 0 < n
      → Header n m
      → aes_decode_i cng key offset_buf n m ≡ (status, m')
      → aes_decode cng key m ≡ record { status = status; out = some (offset_buf, n); memory = m' }
  unfolding aes_decode
  aes_decode-Header key n m m' status pos v e =
      let e1 : offset_buf + n - offset_buf ≡ n = omega arith in
      let lt : ltb offset_buf (offset_buf + n) ≡ true = ground arith in
      rw (v.whole, v.is_aes, v.size, e1, e, lt, ==_of_eq {a = n} refl) refl

  -- A buffer that is sealed behind its header keeps the header.
  pub sealed-Header :
      (fresh : List ℕ) (key : Key) (bytes : List ℕ) (m : Memory)
      → Header (length bytes) m
      → Header (length bytes) (sealed fresh key bytes offset_buf m)
  sealed-Header fresh key bytes m v =
      copy-Header _ _ _ _ (omega arith)
        (copy-Header _ _ _ _ (omega arith) (copy-Header _ _ _ _ (omega arith) v))

  aes_encode_packet-granted :
      (new_memory : ℕ → Option Memory) (random : ℕ → ℕ × List ℕ) (key : Key) (bytes : List ℕ)
      (m m' : Memory) (status : ℕ)
      → new_memory ((offset_buf + length bytes) % 2 ^ 32) ≡ some m
      → aes_encode cng random key bytes m ≡ (status, m')
      → succeeded status ≡ true
      → aes_encode_packet cng new_memory random key bytes ≡ (
        0,
        some (record {
          memory = m';
          buffer_size = (offset_buf + length bytes) % 2 ^ 32;
          data_size = (offset_buf + length bytes) % 2 ^ 32;
        }),
      )
  unfolding aes_encode_packet
  aes_encode_packet-granted new_memory random key bytes m m' status g e h =
      rw (aes_encode_packet, g, e, h) refl

  -- Under a key of CNG's AES-GCM, if memory is granted and the calls of BCryptGenRandom and
  -- BCryptEncrypt succeed, AES_Encode of one byte or more (that fit a packet of 32-bit size) makes a
  -- packet. Its size passes IsSizeValid, and AES_Decode with the same key returns 0 and the place and
  -- the size of the data, where the bytes now stand.
  pub aes_decode-aes_encode_packet :
      (laws : AesLaws cng) (new_memory : ℕ → Option Memory) (random : ℕ → ℕ × List ℕ) (key : Key)
      (bytes : List ℕ) (m : Memory)
      → 0 < length bytes
      → offset_buf + length bytes < 2 ^ 32
      → new_memory (offset_buf + length bytes) ≡ some m
      → length (random 12).1 ≡ 12
      → succeeded (random 12).0 ≡ true
      → succeeded (cng.encrypt key (random 12).1 bytes).0 ≡ true
      → (packet : DataPacket) × (aes_encode_packet cng new_memory random key bytes
          ≡ (0, some packet))
        × (is_size_valid packet.memory packet.data_size ≡ true)
        × ((aes_decode cng key packet.memory).status ≡ 0)
        × ((aes_decode cng key packet.memory).out ≡ some (offset_buf, length bytes))
        × (read (aes_decode cng key packet.memory).memory offset_buf (length bytes) ≡ bytes)
  unfolding aes_encode is_size_valid
  aes_decode-aes_encode_packet laws new_memory random key bytes m pos fits granted e h h' =
      let n = length bytes in
      let size : (offset_buf + n) % 2 ^ 32 ≡ offset_buf + n = omega arith in
      let m0 = set_packet_size ((offset_buf + n) % 2 ^ 32) (set_data_size n (set_magic e_aes m)) in
      let m1 = sealed (random 12).1 key bytes offset_buf m0 in
      let v = sealed-Header (random 12).1 key bytes m0 (set-Header n m fits) in
      let d = aes_decode-Header key n m1 _ 0 pos v (
        aes_decode_i-Holds laws (random 12).1 key bytes offset_buf m1 h'
          (sealed-Holds laws (random 12).1 key bytes offset_buf m0 e (omega arith))) in
      (
        record {
          memory = m1;
          buffer_size = (offset_buf + n) % 2 ^ 32;
          data_size = (offset_buf + n) % 2 ^ 32;
        },
        aes_encode_packet-granted new_memory random key bytes m m1 _ (rw size granted)
            (aes_encode_i-sealed random key bytes offset_buf m0 e h) h',
        rw (v.whole) (ground arith),
        rw d refl,
        rw d refl,
        rw d (read-copy_self m1 offset_buf bytes),
      )

  -- AES_Decode of a packet whose size passes IsSizeValid for a datagram of `cb` bytes changes nothing
  -- behind the datagram, as long as BCryptDecrypt writes no more bytes than it gets; and where it gives
  -- data, that is one byte or more, ends with the datagram, and has the size in the packet.
  pub aes_decode_in_bounds :
      (key : Key) (m : Memory) (cb : ℕ)
      → ((nonce tag cipher : List ℕ) → length (cng.decrypt key nonce tag cipher).1 ≤ length cipher)
      → is_size_valid m cb ≡ true
      → let d = aes_decode cng key m in
        ((i : ℕ) → cb ≤ i → d.memory i ≡ m i)
        × ((d.out ≡ none)
            ⊎ ((n : ℕ) × (0 < n)
                × (offset_buf + n ≡ cb)
                × (data_size m ≡ n)
                × (d.out ≡ some (offset_buf, n))))
  unfolding is_size_valid aes_decode aes_decode_i
  aes_decode_in_bounds key m cb law valid =
      let n = packet_size m - offset_buf in
      let e_cb : packet_size m ≡ cb = ground arith in
      let len = law (nonce m) (tag m) (read m offset_buf n) in
      elim (Bool-cases
        (ltb offset_buf (packet_size m) && (magic m == e_aes) && (n == data_size m))) [
          | inl g ↦
              let above : offset_buf < packet_size m = ground arith in
              let e_size : n ≡ data_size m = ground arith in
              rw g (
                λ i le.
                    copy_outside m offset_buf _ i
                      (λ a b. omega (arith, len, length-read m offset_buf n)),
                inr (n, omega arith, omega arith, sym e_size, refl),
              )
          | inr g ↦ rw g (λ i le. refl, inl refl)
        ]
