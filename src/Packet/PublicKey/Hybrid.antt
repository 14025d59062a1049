-- ===== src/Packet/PublicKey/Hybrid.antt =====
-- A session key for a message: RSA_AES_Encode makes an AES key, puts it under the public key, and
-- RSA_AES_Decode gives the owner of the private key that key and the data.
use camera_udp.Base.{
  ℕ, ◌+◌, ◌%◌, ◌^◌, ◌≤◌, ◌<◌, ◌≡◌, refl, ap, ◌∙◌, inl, inr, true, false, List, Option, some, arith,
  ltb, ◌==◌, length, max, Memory, copy, read, read-copy_self, ==_of_ne,
}
use camera_udp.Packet.{
  Cng, DataPacket, succeeded, offset_encrypted, offset_aes, offset_rsa_aes_data, e_rsa_aes, magic,
  set_magic, set_data_size, is_size_valid,
}
use camera_udp.Packet.Layout.{
  get_ulong-put_self, get_ulong-put_other, read-copy_other, read-copy_whole, read-put_other,
}
use camera_udp.Packet.Session.{
  AesLaws, sealed, Holds, sealed-Holds, aes_decode_i-Holds, aes_encode_i-sealed,
}
use camera_udp.Packet.PublicKey.{
  byteswap_ulong, rsa_decode, rsa_encode, rsa_encode_packet, rsa_packet_size, rsa_aes_encode,
  rsa_encode_by, rsa_aes_decode, rsa_aes_decode_with, decode,
}
use camera_udp.Packet.PublicKey.Restore.{
  byteswap_ulong-lt, SameBody, SameBody-read, enciphered, RsaPair, cipher_of, rsa_decode-enciphered,
}
use camera_udp.Packet.PublicKey.RoundTrip.{
  packet_size-enciphered, magic-enciphered, is_size_valid-enciphered, decode-rsa_aes,
  rsa_encode_packet-granted,
}

rsa_packet_size-key :
    (block cb : ℕ)
    → offset_rsa_aes_data + cb < 2 ^ 32
    → offset_encrypted + block < 2 ^ 32
    → rsa_packet_size block cb true
      ≡ (true, max (offset_rsa_aes_data + cb) (offset_encrypted + block))
unfolding rsa_packet_size
rsa_packet_size-key block cb h h' =
    let e : (offset_encrypted + block) % 2 ^ 32 ≡ offset_encrypted + block = omega arith in
    let e' : (offset_rsa_aes_data + cb) % 2 ^ 32 ≡ offset_rsa_aes_data + cb = omega arith in
    rw (e, e') refl

module _ {Key : Type 0} (cng : Cng Key) (random : ℕ → ℕ × List ℕ) where
  -- The packet before its body is encrypted under the public key.
  abbrev pub rsa_aes_body : Key → List ℕ → Memory → Memory
  rsa_aes_body aes bytes m = set_data_size (byteswap_ulong (length bytes)) (
      set_magic e_rsa_aes
        (sealed cng (random 12).1 aes bytes offset_rsa_aes_data (copy m offset_aes (random 32).1)))

  rsa_aes_body-Holds :
      (laws : AesLaws cng) (aes : Key) (bytes : List ℕ) (m : Memory)
      → length (random 12).1 ≡ 12
      → Holds cng (random 12).1 aes bytes offset_rsa_aes_data (rsa_aes_body aes bytes m)
  rsa_aes_body-Holds laws aes bytes m e =
      let m1 = copy m offset_aes (random 32).1 in
      let (a, b, c) =
        sealed-Holds cng laws (random 12).1 aes bytes offset_rsa_aes_data m1 e (omega arith) in
      (
        read-put_other _ _ _ _ 12 (inr (omega arith))
            ∙ read-put_other _ _ _ _ 12 (inr (omega arith))
            ∙ a,
        read-put_other _ _ _ _ 16 (inr (omega arith))
            ∙ read-put_other _ _ _ _ 16 (inr (omega arith))
            ∙ b,
        read-put_other _ _ _ _ (length bytes) (inr (omega arith))
            ∙ read-put_other _ _ _ _ (length bytes) (inr (omega arith))
            ∙ c,
      )

  -- The AES key stands in the body.
  rsa_aes_body-aes :
      (laws : AesLaws cng) (aes : Key) (bytes : List ℕ) (m : Memory)
      → length (random 12).1 ≡ 12
      → length (random 32).1 ≡ 32
      → read (rsa_aes_body aes bytes m) offset_aes 32 ≡ (random 32).1
  rsa_aes_body-aes laws aes bytes m e e' =
      read-put_other _ _ _ _ 32 (inr (omega arith))
      ∙ read-put_other _ _ _ _ 32 (inr (omega arith))
      ∙ read-copy_other _ _ _ _ 32 (inr (omega (arith, laws.length_tag aes (random 12).1 bytes)))
      ∙ read-copy_other _ _ _ _ 32 (inl (omega arith))
      ∙ read-copy_other _ _ _ _ 32 (inr (omega arith))
      ∙ read-copy_whole m offset_aes (random 32).1 32 e'

  rsa_aes_encode-body :
      (public aes : Key) (bytes : List ℕ) (block : ℕ) (m : Memory)
      → 0 < length bytes
      → length (random 12).1 ≡ 12
      → length (random 32).1 ≡ 32
      → succeeded (random 12).0 ≡ true
      → succeeded (random 32).0 ≡ true
      → cng.gen_aes_key (random 32).1 ≡ (0, aes)
      → succeeded (cng.encrypt aes (random 12).1 bytes).0 ≡ true
      → (cng.rsa_encrypt public (read (rsa_aes_body aes bytes m) offset_encrypted block)).0 ≡ 0
      → rsa_aes_encode cng random public bytes block m ≡ (
        0,
        copy
            (rsa_aes_body aes bytes m)
            offset_encrypted
            (cng.rsa_encrypt public (read (rsa_aes_body aes bytes m) offset_encrypted block)).1,
        some aes,
      )
  unfolding rsa_aes_encode rsa_encode
  rsa_aes_encode-body public aes bytes block m pos e e' s s' g h r =
      let m1 = copy m offset_aes (random 32).1 in
      let e_key : read m1 offset_aes 32 ≡ (random 32).1 =
        read-copy_whole m offset_aes (random 32).1 32 e' in
      let ne : (length bytes == 0) ≡ false = ==_of_ne (omega arith) in
      rw
        (
          s',
          e_key,
          g,
          ne,
          aes_encode_i-sealed cng random aes bytes offset_rsa_aes_data m1 e s,
          h,
          r,
        )
        refl

  rsa_aes_decode_with-body :
      (laws : AesLaws cng) (aes : Key) (bytes : List ℕ) (size : ℕ) (m m' : Memory)
      → offset_rsa_aes_data + length bytes ≤ size
      → length (random 12).1 ≡ 12
      → length (random 32).1 ≡ 32
      → cng.gen_aes_key (random 32).1 ≡ (0, aes)
      → succeeded (cng.encrypt aes (random 12).1 bytes).0 ≡ true
      → SameBody m' (rsa_aes_body aes bytes m)
      → rsa_aes_decode_with cng size (length bytes) m' ≡ (
        record {
          status = 0;
          out = some (offset_rsa_aes_data, length bytes);
          memory = copy m' offset_rsa_aes_data bytes;
        },
        some aes,
      )
  unfolding rsa_aes_decode_with
  rsa_aes_decode_with-body laws aes bytes size m m' fits e e' g h same =
      let (a, b, c) = rsa_aes_body-Holds laws aes bytes m e in
      let held : Holds cng (random 12).1 aes bytes offset_rsa_aes_data m' = (
        SameBody-read same _ 12 (omega arith) ∙ a,
        SameBody-read same _ 16 (omega arith) ∙ b,
        SameBody-read same _ (length bytes) (omega arith) ∙ c,
      ) in
      let e_key : read m' offset_aes 32 ≡ (random 32).1 =
        SameBody-read same _ 32 (omega arith) ∙ rsa_aes_body-aes laws aes bytes m e e' in
      let no : ltb size (offset_rsa_aes_data + length bytes) ≡ false = ground arith in
      rw
        (
          e_key,
          g,
          no,
          aes_decode_i-Holds cng laws (random 12).1 aes bytes offset_rsa_aes_data m' h held,
        )
        refl

  rsa_aes_decode-some :
      (key : Key) (size at cb : ℕ) (m m' : Memory)
      → rsa_decode cng key size m ≡ record { status = 0; out = some (at, cb); memory = m' }
      → rsa_aes_decode cng key size m ≡ rsa_aes_decode_with cng size cb m'
  unfolding rsa_aes_decode
  rsa_aes_decode-some key size at cb m m' e =
      rw (rsa_aes_decode, e) (ap (λ d. rsa_aes_decode_with cng size cb d.memory) e)

module _ {Key : Type 0} (cng : Cng Key) (public secret : Key) (block : ℕ)
    (pair : RsaPair cng public secret block) where
  -- With a pair of RSA keys and AES-GCM: if memory is granted, and the calls for random bytes, for the
  -- AES key and for both encryptions succeed, the static RSA_Encode that is asked for a session key makes
  -- a packet of one byte of data or more, up to a 32-bit size, and hands over the AES key. The packet's
  -- size passes IsSizeValid, and Decode with the private key returns 0, the place and the size of the
  -- data, where the bytes now stand, and the same AES key.
  pub decode-rsa_aes_packet :
      (laws : AesLaws cng) (random : ℕ → ℕ × List ℕ) (new_memory : ℕ → Option Memory) (aes : Key)
      (bytes : List ℕ) (m : Memory)
      → 0 < length bytes
      → offset_rsa_aes_data + length bytes < 2 ^ 32
      → offset_encrypted + block < 2 ^ 32
      → new_memory (max (offset_rsa_aes_data + length bytes) (offset_encrypted + block)) ≡ some m
      → length (random 12).1 ≡ 12
      → length (random 32).1 ≡ 32
      → succeeded (random 12).0 ≡ true
      → succeeded (random 32).0 ≡ true
      → cng.gen_aes_key (random 32).1 ≡ (0, aes)
      → succeeded (cng.encrypt aes (random 12).1 bytes).0 ≡ true
      → (cng.rsa_encrypt public
          (read (rsa_aes_body cng random aes bytes m) offset_encrypted block)).0
        ≡ 0
      → (packet : DataPacket) × (rsa_encode_packet cng random new_memory public (some bytes) true
          ≡ (0, some (packet, some aes)))
        × (is_size_valid packet.memory packet.data_size ≡ true)
        × (let (d, key) = decode cng secret packet.memory in
            (d.status ≡ 0)
            × (d.out ≡ some (offset_rsa_aes_data, length bytes))
            × (read d.memory offset_rsa_aes_data (length bytes) ≡ bytes)
            × (key ≡ some aes))
  unfolding rsa_encode_by
  decode-rsa_aes_packet laws random new_memory aes bytes m pos fits fits' granted e e' s s' g h r =
      let n = length bytes in
      let size = max (offset_rsa_aes_data + n) (offset_encrypted + block) in
      let body = rsa_aes_body cng random aes bytes m in
      let c = cipher_of cng public secret block pair body in
      let m1 = enciphered size c body in
      let (m', e_rsa_decode, same) =
        rsa_decode-enciphered cng public secret block pair body size size n
          (get_ulong-put_self _ _ _ (byteswap_ulong-lt n)) (omega arith) (omega arith)
          (rw r refl) in
      let e_magic : magic m1 ≡ e_rsa_aes =
        magic-enciphered size c body
        ∙ get_ulong-put_other _ _ _ _ (inl (omega arith))
        ∙ get_ulong-put_self _ _ _ (omega arith) in
      let e_dec =
        decode-rsa_aes cng secret m1 e_magic
        ∙ ap (λ k. rsa_aes_decode cng secret k m1)
            (packet_size-enciphered size c body (omega arith))
        ∙ rsa_aes_decode-some cng random secret size _ n m1 m' e_rsa_decode
        ∙ rsa_aes_decode_with-body cng random laws aes bytes size m m' (omega arith) e e' g h
            same in
      (
        record { memory = m1; buffer_size = size; data_size = size },
        rsa_encode_packet-granted cng random new_memory public (some bytes) true true block size 0 m
            _ (some aes) pair.block_public (rsa_packet_size-key block n fits fits') granted
            (rsa_aes_encode-body cng random public aes bytes block m pos e e' s s' g h r) refl,
        is_size_valid-enciphered size c body (omega arith) (omega arith),
        rw e_dec (refl, refl, read-copy_self m' offset_rsa_aes_data bytes, refl),
      )
