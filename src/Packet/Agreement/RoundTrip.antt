-- ===== src/Packet/Agreement/RoundTrip.antt =====
-- What DH_Encode makes with a public key, Decode reads with the private key.
use camera_udp.Base.{
  ℕ, ◌+◌, ◌-◌, ◌%◌, ◌^◌, ◌≤◌, ◌<◌, ◌≡◌, refl, ap, ◌∙◌, inl, inr, true, false, List, Option, some,
  arith, ltb, ◌==◌, length, Memory, copy, read, read-copy_self, ==_of_ne,
}
use camera_udp.Packet.{
  Cng, DataPacket, succeeded, offset_buf, offset_nonce, e_ecdh, magic, packet_size, data_size,
  set_magic, set_packet_size, set_data_size, is_size_valid,
}
use camera_udp.Packet.Layout.{
  get_ulong-put_self, get_ulong-put_other, read-put_other, read-copy_other,
}
use camera_udp.Packet.Session.{
  AesLaws, sealed, Holds, sealed-Holds, aes_decode_i-Holds, aes_encode_i-sealed,
}
use camera_udp.Packet.PublicKey.{dh_decode, dh_decode_with, decode}
use camera_udp.Packet.Agreement.{
  dh_encode_with, dh_encode_keys, dh_encode_exported, dh_encode_granted, dh_encode_created,
  dh_encode,
}

-- What CNG documents of a key agreement: the owner of the private key imports an exported public key,
-- and both sides agree on one AES key.
pub record DhPair {Key : Type 0} (cng : Cng Key) (public secret own : Key) (blob : List ℕ)
    (aes : Key) : Type 0 where
  pub created : cng.create_key_pair ≡ (0, own)
  pub exported : cng.export_key own ≡ (0, blob)
  pub agreed : cng.agree_aes_key own public ≡ (0, aes)
  pub imported : Key
  pub imports : cng.import_pub_key secret blob ≡ (0, imported)
  pub agrees : cng.agree_aes_key secret imported ≡ (0, aes)

module _ {Key : Type 0} (cng : Cng Key) (random : ℕ → ℕ × List ℕ) where
  -- The packet, with the exported key `blob`.
  abbrev pub dh_packet : (size : ℕ) → Key → (blob bytes : List ℕ) → Memory → Memory
  dh_packet size aes blob bytes m = set_packet_size size (
      set_data_size (length bytes) (
        set_magic e_ecdh
          (sealed cng (random 12).1 aes bytes (offset_buf + length blob) (copy m offset_buf blob))))

  read-dh_packet :
      (size : ℕ) (aes : Key) (blob bytes : List ℕ) (m : Memory) (at n : ℕ)
      → offset_nonce ≤ at
      → read (dh_packet size aes blob bytes m) at n
        ≡ read
            (sealed cng (random 12).1 aes bytes (offset_buf + length blob) (copy m offset_buf blob))
            at
            n
  read-dh_packet size aes blob bytes m at n h =
      read-put_other _ _ _ at n (inr (omega arith))
      ∙ read-put_other _ _ _ at n (inr (omega arith))
      ∙ read-put_other _ _ _ at n (inr (omega arith))

  dh_packet-Holds :
      (laws : AesLaws cng) (size : ℕ) (aes : Key) (blob bytes : List ℕ) (m : Memory)
      → length (random 12).1 ≡ 12
      → Holds cng
          (random 12).1
          aes
          bytes
          (offset_buf + length blob)
          (dh_packet size aes blob bytes m)
  dh_packet-Holds laws size aes blob bytes m e =
      let (a, b, c) =
        sealed-Holds cng laws (random 12).1 aes bytes (offset_buf + length blob) _ e
          (omega arith) in
      (
        read-dh_packet size aes blob bytes m _ 12 (omega arith) ∙ a,
        read-dh_packet size aes blob bytes m _ 16 (omega arith) ∙ b,
        read-dh_packet size aes blob bytes m _ (length bytes) (omega arith) ∙ c,
      )

  -- The exported key stands before the data.
  dh_packet-blob :
      (laws : AesLaws cng) (size : ℕ) (aes : Key) (blob bytes : List ℕ) (m : Memory)
      → length (random 12).1 ≡ 12
      → read (dh_packet size aes blob bytes m) offset_buf (length blob) ≡ blob
  dh_packet-blob laws size aes blob bytes m e =
      read-dh_packet size aes blob bytes m _ (length blob) (omega arith)
      ∙ read-copy_other _ _ _ _ (length blob)
          (inr (omega (arith, laws.length_tag aes (random 12).1 bytes)))
      ∙ read-copy_other _ _ _ _ (length blob) (inl (omega arith))
      ∙ read-copy_other _ _ _ _ (length blob) (inr (omega arith))
      ∙ read-copy_self m offset_buf blob

  dh_encode_with-packet :
      (size agreed : ℕ) (aes : Key) (blob bytes : List ℕ) (m : Memory)
      → 0 < length bytes
      → length (random 12).1 ≡ 12
      → succeeded (random 12).0 ≡ true
      → succeeded (cng.encrypt aes (random 12).1 bytes).0 ≡ true
      → dh_encode_with cng random size agreed aes blob bytes (copy m offset_buf blob) ≡ (
        (cng.encrypt aes (random 12).1 bytes).0,
        some (record {
          memory = dh_packet size aes blob bytes m;
          buffer_size = size;
          data_size = size;
        }),
        some aes,
      )
  unfolding dh_encode_with
  dh_encode_with-packet size agreed aes blob bytes m pos e h h' =
      let ne : (length bytes == 0) ≡ false = ==_of_ne (omega arith) in
      rw
        (
          ne,
          aes_encode_i-sealed cng random aes bytes (offset_buf + length blob)
              (copy m offset_buf blob) e h,
          h',
        )
        refl

  dh_encode_keys-with :
      (new_memory : ℕ → Option Memory) (public secret own aes : Key) (blob bytes : List ℕ)
      (m : Memory)
      → DhPair cng public secret own blob aes
      → new_memory ((offset_buf + length blob + length bytes) % 2 ^ 32) ≡ some m
      → dh_encode_keys cng random new_memory own public bytes
        ≡ dh_encode_with cng random
            ((offset_buf + length blob + length bytes) % 2 ^ 32)
            0
            aes
            blob
            bytes
            (copy m offset_buf blob)
  unfolding dh_encode_keys dh_encode_exported dh_encode_granted
  dh_encode_keys-with new_memory public secret own aes blob bytes m pair g =
      let size = (offset_buf + length blob + length bytes) % 2 ^ 32 in
      ap (dh_encode_exported cng random new_memory (cng.agree_aes_key own public) bytes)
        pair.exported
      ∙ ap (λ a. dh_encode_granted cng random size a blob bytes (new_memory size)) pair.agreed
      ∙ ap (dh_encode_granted cng random size (0, aes) blob bytes) g

  dh_encode-with :
      (new_memory : ℕ → Option Memory) (public secret own aes : Key) (blob bytes : List ℕ)
      (m : Memory)
      → DhPair cng public secret own blob aes
      → new_memory ((offset_buf + length blob + length bytes) % 2 ^ 32) ≡ some m
      → dh_encode cng random new_memory public bytes
        ≡ dh_encode_with cng random
            ((offset_buf + length blob + length bytes) % 2 ^ 32)
            0
            aes
            blob
            bytes
            (copy m offset_buf blob)
  unfolding dh_encode dh_encode_created
  dh_encode-with new_memory public secret own aes blob bytes m pair g =
      ap (dh_encode_created cng random new_memory public bytes) pair.created
      ∙ dh_encode_keys-with new_memory public secret own aes blob bytes m pair g

module _ {Key : Type 0} (cng : Cng Key) (random : ℕ → ℕ × List ℕ) (public secret own aes : Key)
    (blob bytes : List ℕ) (pair : DhPair cng public secret own blob aes) (laws : AesLaws cng)
    (random_length : length (random 12).1 ≡ 12) (pos : 0 < length bytes) where
  dh_decode_with-packet :
      (size : ℕ) (m : Memory)
      → length bytes < 2 ^ 32
      → succeeded (cng.encrypt aes (random 12).1 bytes).0 ≡ true
      → let m1 = dh_packet cng random size aes blob bytes m in
        dh_decode_with cng 0 (length blob) aes m1 ≡ (
          record {
            status = 0;
            out = some (offset_buf + length blob, length bytes);
            memory = copy m1 (offset_buf + length blob) bytes;
          },
          some aes,
        )
  unfolding dh_decode_with
  dh_decode_with-packet size m small h =
      let m1 = dh_packet cng random size aes blob bytes m in
      let e_size : data_size m1 ≡ length bytes =
        get_ulong-put_other _ _ _ _ (inr (omega arith)) ∙ get_ulong-put_self _ _ _ small in
      let ne : (length bytes == 0) ≡ false = ==_of_ne (omega arith) in
      rw
        (
          e_size,
          ne,
          aes_decode_i-Holds cng laws (random 12).1 aes bytes (offset_buf + length blob) m1 h
              (dh_packet-Holds cng random laws size aes blob bytes m random_length),
        )
        refl

  dh_decode-packet :
      (size : ℕ) (m : Memory)
      → size ≡ offset_buf + length blob + length bytes
      → size < 2 ^ 32
      → 0 < length blob
      → succeeded (cng.encrypt aes (random 12).1 bytes).0 ≡ true
      → dh_decode cng secret size (dh_packet cng random size aes blob bytes m)
        ≡ dh_decode_with cng 0 (length blob) aes (dh_packet cng random size aes blob bytes m)
  unfolding dh_decode
  dh_decode-packet size m e small key h =
      let m1 = dh_packet cng random size aes blob bytes m in
      let e_size : data_size m1 ≡ length bytes =
        get_ulong-put_other _ _ _ _ (inr (omega arith)) ∙ get_ulong-put_self _ _ _ (omega arith) in
      let left : (size + 2 ^ 32 - offset_buf) % 2 ^ 32 ≡ length blob + length bytes = omega arith in
      let cb_key : length blob + length bytes - length bytes ≡ length blob = omega arith in
      let lt : ltb (length bytes) (length blob + length bytes) ≡ true = ground arith in
      rw
        (
          e_size,
          left,
          cb_key,
          lt,
          dh_packet-blob cng random laws size aes blob bytes m random_length,
          pair.imports,
          pair.agrees,
        )
        refl

  decode-dh :
      (size : ℕ) (m : Memory)
      → size < 2 ^ 32
      → decode cng secret (dh_packet cng random size aes blob bytes m)
        ≡ dh_decode cng secret size (dh_packet cng random size aes blob bytes m)
  unfolding decode
  decode-dh size m small =
      let m1 = dh_packet cng random size aes blob bytes m in
      let e_magic : magic m1 ≡ e_ecdh =
        get_ulong-put_other _ _ _ _ (inl (omega arith))
        ∙ get_ulong-put_other _ _ _ _ (inl (omega arith))
        ∙ get_ulong-put_self _ _ _ (omega arith) in
      let e_whole : packet_size m1 ≡ size = get_ulong-put_self _ _ _ small in
      rw (e_magic, e_whole) refl

  -- With two parties whose elliptic-curve keys agree on an AES key, and AES-GCM: if memory is granted,
  -- and BCryptGenRandom and BCryptEncrypt succeed, DH_Encode of one byte or more makes a packet of
  -- a 32-bit size and hands over the AES key. The packet's size passes IsSizeValid, and Decode with
  -- the private key returns 0, the place and the size of the data behind the exported key, where the
  -- bytes now stand, and the same AES key.
  pub decode-dh_encode :
      (new_memory : ℕ → Option Memory) (m : Memory)
      → 0 < length blob
      → offset_buf + length blob + length bytes < 2 ^ 32
      → new_memory (offset_buf + length blob + length bytes) ≡ some m
      → succeeded (random 12).0 ≡ true
      → succeeded (cng.encrypt aes (random 12).1 bytes).0 ≡ true
      → (packet : DataPacket) × (dh_encode cng random new_memory public bytes
          ≡ ((cng.encrypt aes (random 12).1 bytes).0, some packet, some aes))
        × (is_size_valid packet.memory packet.data_size ≡ true)
        × (let (d, key) = decode cng secret packet.memory in
            (d.status ≡ 0)
            × (d.out ≡ some (offset_buf + length blob, length bytes))
            × (read d.memory (offset_buf + length blob) (length bytes) ≡ bytes)
            × (key ≡ some aes))
  unfolding is_size_valid
  decode-dh_encode new_memory m key small g h h' =
      let size = offset_buf + length blob + length bytes in
      let m1 = dh_packet cng random size aes blob bytes m in
      let e_mod : size % 2 ^ 32 ≡ size = omega arith in
      let e_whole : packet_size m1 ≡ size = get_ulong-put_self _ _ _ small in
      let e_dec =
        decode-dh size m small
        ∙ dh_decode-packet size m refl small key h'
        ∙ dh_decode_with-packet size m (omega arith) h' in
      (
        record { memory = m1; buffer_size = size; data_size = size },
        dh_encode-with cng random new_memory public secret own aes blob bytes m pair (rw e_mod g)
            ∙ ap (λ k. dh_encode_with cng random k 0 aes blob bytes (copy m offset_buf blob)) e_mod
            ∙ dh_encode_with-packet cng random size 0 aes blob bytes m pos random_length h h',
        rw e_whole (ground arith),
        rw e_dec (refl, refl, read-copy_self m1 (offset_buf + length blob) bytes, refl),
      )
