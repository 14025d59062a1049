-- ===== src/Packet/PublicKey/RoundTrip.antt =====
-- What the static RSA_Encode makes with a public key, Decode reads with the private key.
use camera_udp.Base.{
  ℕ, ◌+◌, ◌-◌, ◌%◌, ◌^◌, ◌≤◌, ◌<◌, ◌≡◌, refl, ap, ◌∙◌, inl, inr, Bool, true, false, List, Option,
  none, some, arith, ltb, if◌then◌else◌, length, Memory, copy, read, read-copy_self,
}
use camera_udp.Packet.{
  Cng, DataPacket, succeeded, offset_encrypted, offset_rsa_data, e_rsa, e_rsa_aes, magic,
  packet_size, set_magic, set_packet_size, set_data_size, is_size_valid,
}
use camera_udp.Packet.Layout.{
  get_ulong-put_self, get_ulong-put_other, get_ulong-copy_other, read-put_other,
}
use camera_udp.Packet.PublicKey.{
  byteswap_ulong, rsa_decode, rsa_encode, rsa_encode_packet, rsa_packet_size, rsa_packet,
  rsa_encode_sized, rsa_encode_by, bytes_of, rsa_aes_decode, decode,
}
use camera_udp.Packet.PublicKey.Restore.{
  byteswap_ulong-lt, SameBody-read, enciphered, RsaPair, cipher_of, rsa_decode-enciphered,
}

-- The header of an encrypted packet.
pub packet_size-enciphered :
    (size : ℕ) (cipher : List ℕ) (m : Memory)
    → size < 2 ^ 32
    → packet_size (enciphered size cipher m) ≡ size
packet_size-enciphered size cipher m h = get_ulong-put_self _ size _ h

pub magic-enciphered :
    (size : ℕ) (cipher : List ℕ) (m : Memory) → magic (enciphered size cipher m) ≡ magic m
magic-enciphered size cipher m =
    get_ulong-put_other _ _ _ _ (inl (omega arith))
    ∙ get_ulong-copy_other m _ cipher _ (inl (omega arith))

pub is_size_valid-enciphered :
    (size : ℕ) (cipher : List ℕ) (m : Memory)
    → offset_encrypted < size
    → size < 2 ^ 32
    → is_size_valid (enciphered size cipher m) size ≡ true
unfolding is_size_valid
is_size_valid-enciphered size cipher m pos h =
    rw (packet_size-enciphered size cipher m h) (ground arith)

-- The packet before its body is encrypted, when the data itself goes in.
abbrev pub rsa_body : List ℕ → Memory → Memory
rsa_body bytes m =
    set_data_size (byteswap_ulong (length bytes)) (copy (set_magic e_rsa m) offset_rsa_data bytes)

rsa_packet_size-small :
    (block cb : ℕ)
    → 4 + cb ≤ block
    → offset_encrypted + block < 2 ^ 32
    → rsa_packet_size block cb false ≡ (false, offset_encrypted + block)
unfolding rsa_packet_size
rsa_packet_size-small block cb h fits =
    let no : ltb ((block + 2 ^ 64 - 4) % 2 ^ 64) cb ≡ false = ground arith in
    let e : (offset_encrypted + block) % 2 ^ 32 ≡ offset_encrypted + block = omega arith in
    rw (no, e) refl

module _ {Key : Type 0} (cng : Cng Key) where
  decode-rsa :
      (key : Key) (m : Memory)
      → magic m ≡ e_rsa
      → decode cng key m ≡ (rsa_decode cng key (packet_size m) m, none)
  unfolding decode
  decode-rsa key m e = rw e refl

  pub decode-rsa_aes :
      (key : Key) (m : Memory)
      → magic m ≡ e_rsa_aes
      → decode cng key m ≡ rsa_aes_decode cng key (packet_size m) m
  unfolding decode rsa_aes_decode
  decode-rsa_aes key m e = rw e refl

  rsa_encode_sized-granted :
      (random : ℕ → ℕ × List ℕ) (new_memory : ℕ → Option Memory) (key : Key)
      (bytes : Option (List ℕ)) (want_key with_aes : Bool) (block size status : ℕ) (m m' : Memory)
      (aes : Option Key)
      → new_memory size ≡ some m
      → rsa_encode_by cng random with_aes key bytes block m ≡ (status, m', aes)
      → succeeded status ≡ true
      → rsa_encode_sized cng random new_memory key bytes want_key block (with_aes, size) ≡ (
        0,
        some (
          record { memory = set_packet_size size m'; buffer_size = size; data_size = size },
          if want_key then aes else none,
        ),
      )
  unfolding rsa_encode_sized rsa_packet
  rsa_encode_sized-granted random new_memory key bytes want_key with_aes block size status m m' aes
        g f h =
      rw (rsa_encode_sized, g, f, h) refl

  pub rsa_encode_packet-granted :
      (random : ℕ → ℕ × List ℕ) (new_memory : ℕ → Option Memory) (key : Key)
      (bytes : Option (List ℕ)) (want_key with_aes : Bool) (block size status : ℕ) (m m' : Memory)
      (aes : Option Key)
      → cng.get_block_length key ≡ (0, block)
      → rsa_packet_size block (length (bytes_of bytes)) want_key ≡ (with_aes, size)
      → new_memory size ≡ some m
      → rsa_encode_by cng random with_aes key bytes block m ≡ (status, m', aes)
      → succeeded status ≡ true
      → rsa_encode_packet cng random new_memory key bytes want_key ≡ (
        0,
        some (
          record { memory = set_packet_size size m'; buffer_size = size; data_size = size },
          if want_key then aes else none,
        ),
      )
  unfolding rsa_encode_packet
  rsa_encode_packet-granted random new_memory key bytes want_key with_aes block size status m m' aes
        e e' g f h =
      rw (e, e')
        (rsa_encode_sized-granted random new_memory key bytes want_key with_aes block size status m
          m' aes g f h)

module _ {Key : Type 0} (cng : Cng Key) (public secret : Key) (block : ℕ)
    (pair : RsaPair cng public secret block) where
  -- With a pair of RSA keys: if memory is granted and BCryptEncrypt succeeds, the static RSA_Encode of
  -- data that leaves four bytes of a block makes a packet of one block. Its size passes IsSizeValid, and
  -- Decode with the private key returns 0 and the place and the size of the data, where the bytes now
  -- stand, and no session key.
  pub decode-rsa_encode_packet :
      (random : ℕ → ℕ × List ℕ) (new_memory : ℕ → Option Memory) (bytes : List ℕ) (m : Memory)
      → 4 + length bytes ≤ block
      → offset_encrypted + block < 2 ^ 32
      → new_memory (offset_encrypted + block) ≡ some m
      → succeeded (cng.rsa_encrypt public (read (rsa_body bytes m) offset_encrypted block)).0 ≡ true
      → (packet : DataPacket) × (rsa_encode_packet cng random new_memory public (some bytes) false
          ≡ (0, some (packet, none)))
        × (is_size_valid packet.memory packet.data_size ≡ true)
        × (let (d, key) = decode cng secret packet.memory in
            (d.status ≡ 0)
            × (d.out ≡ some (offset_rsa_data, length bytes))
            × (read d.memory offset_rsa_data (length bytes) ≡ bytes)
            × (key ≡ none))
  unfolding rsa_encode rsa_encode_by
  decode-rsa_encode_packet random new_memory bytes m room fits granted h =
      let size = offset_encrypted + block in
      let body = rsa_body bytes m in
      let c = cipher_of cng public secret block pair body in
      let m1 = enciphered size c body in
      let (m', e, same) =
        rsa_decode-enciphered cng public secret block pair body size size (length bytes)
          (get_ulong-put_self _ _ _ (byteswap_ulong-lt (length bytes))) (omega arith) (omega arith)
          h in
      let e_magic : magic m1 ≡ e_rsa =
        magic-enciphered size c body
        ∙ get_ulong-put_other _ _ _ _ (inl (omega arith))
        ∙ get_ulong-copy_other _ _ bytes _ (inl (omega arith))
        ∙ get_ulong-put_self _ _ m (omega arith) in
      let e_dec : decode cng secret m1
          ≡ (record { status = 0; out = some (offset_rsa_data, length bytes); memory = m' }, none) =
        decode-rsa cng secret m1 e_magic
        ∙ ap (λ k. (rsa_decode cng secret k m1, none)) (packet_size-enciphered size c body fits)
        ∙ ap (λ d. (d, none)) e in
      let e_data : read m' offset_rsa_data (length bytes) ≡ bytes =
        SameBody-read same offset_rsa_data (length bytes) (omega arith)
        ∙ read-put_other _ _ _ _ (length bytes) (inr (omega arith))
        ∙ read-copy_self _ offset_rsa_data bytes in
      (
        record { memory = m1; buffer_size = size; data_size = size },
        rsa_encode_packet-granted cng random new_memory public (some bytes) false false block size _
            m _ none pair.block_public (rsa_packet_size-small block (length bytes) room fits)
            granted refl h,
        is_size_valid-enciphered size c body (omega arith) fits,
        rw e_dec (refl, refl, e_data, refl),
      )
