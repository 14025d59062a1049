-- ===== src/Packet/PublicKey.antt =====
-- Packets that go out under a public key (camera server/pkt.cpp): RSA_Encode, RSA_AES_Encode, Encode for
-- RSA keys, and RSA_Decode, RSA_AES_Decode, DH_Decode and Decode.
pub mod Restore
pub mod RoundTrip
pub mod Hybrid
use camera_udp.Base.{
  ℕ, zero, suc, ◌+◌, ◌-◌, ◌*◌, ◌/◌, ◌%◌, ◌^◌, Bool, true, false, not, ◌&&◌, ◌||◌, List, [], ◌∷◌,
  Option, none, some, ltb, ◌==◌, if◌then◌else◌, length, max, Memory, copy, read,
}
use camera_udp.Packet.{
  Cng, DataPacket, Decoded, succeeded, bad_data, status_bad_data, status_no_memory,
  offset_encrypted, offset_rsa_data, offset_buf, offset_aes, offset_rsa_aes_data, e_rsa, e_rsa_aes,
  e_ecdh, magic, packet_size, data_size, set_magic, set_packet_size, set_data_size, aes_decode_i,
  aes_encode_i,
}

-- _byteswap_ulong
unfoldable pub byteswap_ulong : ℕ → ℕ
byteswap_ulong v =
    v % 256 * 16777216 + v / 256 % 256 * 65536 + v / 65536 % 256 * 256 + v / 16777216 % 256

-- The bytes of an optional pointer, or none.
abbrev pub bytes_of : Option (List ℕ) → List ℕ
bytes_of none = []
bytes_of (some bytes) = bytes

-- The size of a packet for `cb` bytes, and whether the data goes under an AES key.
unfoldable pub rsa_packet_size : (block cb : ℕ) (want_key : Bool) → Bool × ℕ
rsa_packet_size block cb want_key =
    let least = (offset_encrypted + block) % 2 ^ 32 in
    if want_key || ltb ((block + 2 ^ 64 - 4) % 2 ^ 64) cb
    then (true, max ((offset_rsa_aes_data + cb) % 2 ^ 32) least)
    else (false, least)

module _ {Key : Type 0} (cng : Cng Key) where
  -- The rest of `RSA_Decode`, with the block length and the result of BCryptDecrypt.
  unfoldable pub rsa_decode_with : (cb_packet block : ℕ) → ℕ × List ℕ → Memory → Decoded
  unfolding byteswap_ulong
  rsa_decode_with cb_packet block (status, plain) m =
      let m' = copy m offset_encrypted plain in
      if ltb cb_packet (offset_encrypted + block)
      then bad_data m
      else (if succeeded status
          then record {
            status = status;
            out = some (offset_rsa_data, byteswap_ulong (data_size m'));
            memory = m';
          }
          else record { status = status; out = none; memory = m' })

  unfoldable pub rsa_decode : Key → (cb_packet : ℕ) → Memory → Decoded
  rsa_decode key cb_packet m =
      let (status, block) = cng.get_block_length key in
      if succeeded status
      then rsa_decode_with cb_packet block (cng.rsa_decrypt key (read m offset_encrypted block)) m
      else record { status = status; out = none; memory = m }

  -- The data under the AES key in the decrypted block; the key is handed over if all went well.
  unfoldable pub rsa_aes_decode_with : (cb_packet cb : ℕ) → Memory → Decoded × Option Key
  rsa_aes_decode_with cb_packet cb m =
      let (status, key) = cng.gen_aes_key (read m offset_aes 32) in
      let (status', m') = aes_decode_i cng key offset_rsa_aes_data cb m in
      if ltb cb_packet (offset_rsa_aes_data + cb)
      then (bad_data m, none)
      else (if succeeded status
          then (
            record { status = status'; out = some (offset_rsa_aes_data, cb); memory = m' },
            if status' == 0 then some key else none,
          )
          else (record { status = status; out = none; memory = m }, none))

  unfoldable pub rsa_aes_decode : Key → (cb_packet : ℕ) → Memory → Decoded × Option Key
  rsa_aes_decode key cb_packet m =
      let d = rsa_decode key cb_packet m in
      elim d.out [ none ↦ (d, none) | some (_, cb) ↦ rsa_aes_decode_with cb_packet cb d.memory ]

  -- The data behind a public key of `cb_key` bytes; `status` is that of the agreement on the AES key.
  unfoldable pub dh_decode_with : (status cb_key : ℕ) → Key → Memory → Decoded × Option Key
  dh_decode_with status cb_key key m =
      let cb = data_size m in
      let (status', m') = aes_decode_i cng key (offset_buf + cb_key) cb m in
      if status == 0
      then (if cb == 0
          then (
            record { status = status; out = some (offset_buf + cb_key, cb); memory = m },
            some key,
          )
          else (
            record {
              status = status';
              out = if succeeded status' then some (offset_buf + cb_key, cb) else none;
              memory = m';
            },
            if status' == 0 then some key else none,
          ))
      else (record { status = status; out = none; memory = m }, none)

  unfoldable pub dh_decode : Key → (cb_packet : ℕ) → Memory → Decoded × Option Key
  unfolding dh_decode_with
  dh_decode key cb_packet m =
      let left = (cb_packet + 2 ^ 32 - offset_buf) % 2 ^ 32 in
      let cb_key = left - data_size m in
      let (status, public) = cng.import_pub_key key (read m offset_buf cb_key) in
      let (status', aes) = cng.agree_aes_key key public in
      if ltb (data_size m) left
      then (if succeeded status
          then dh_decode_with status' cb_key aes m
          else (record { status = status; out = none; memory = m }, none))
      else (bad_data m, none)

  -- With a null `phKey` the key is destroyed instead of handed over.
  unfoldable pub decode : Key → Memory → Decoded × Option Key
  unfolding rsa_aes_decode dh_decode
  decode key m =
      if magic m == e_rsa
      then (rsa_decode key (packet_size m) m, none)
      else (if magic m == e_rsa_aes
          then rsa_aes_decode key (packet_size m) m
          else (if magic m == e_ecdh then dh_decode key (packet_size m) m else (bad_data m, none)))

  -- With a null `pbData` the data is in the packet already.
  unfoldable pub rsa_encode : Key → Option (List ℕ) → (cb block : ℕ) → Memory → ℕ × Memory
  rsa_encode key bytes cb block m =
      let m1 : Memory = elim bytes [
        | none ↦ m
        | some bs ↦ copy (set_magic e_rsa m) offset_rsa_data bs
      ] in
      let m2 = set_data_size (byteswap_ulong cb) m1 in
      let (status, cipher) = cng.rsa_encrypt key (read m2 offset_encrypted block) in
      (status, copy m2 offset_encrypted cipher)

  module _ (random : ℕ → ℕ × List ℕ) where
    -- The AES key is handed over if all went well, and the caller asks for it.
    unfoldable pub rsa_aes_encode : Key → List ℕ → (block : ℕ) → Memory → ℕ × Memory × Option Key
    rsa_aes_encode key bytes block m =
        let (status, fresh) = random 32 in
        let m1 = copy m offset_aes fresh in
        let (status1, aes) = cng.gen_aes_key (read m1 offset_aes 32) in
        let (status2, m2) : ℕ × Memory =
          if length bytes == 0
          then (0, m1)
          else aes_encode_i cng random aes bytes offset_rsa_aes_data m1 in
        let (status3, m3) = rsa_encode key none (length bytes) block (set_magic e_rsa_aes m2) in
        if succeeded status
        then (if succeeded status1
            then (if succeeded status2
                then (status3, m3, if status3 == 0 then some aes else none)
                else (status2, m2, none))
            else (status1, m1, none))
        else (status, m, none)

    -- The member function that the static RSA_Encode calls.
    unfoldable pub rsa_encode_by :
        (with_aes : Bool) → Key → Option (List ℕ) → (block : ℕ) → Memory → ℕ × Memory × Option Key
    rsa_encode_by true key bytes block m = rsa_aes_encode key (bytes_of bytes) block m
    rsa_encode_by false key bytes block m =
        let (status, m') = rsa_encode key bytes (length (bytes_of bytes)) block m in
        (status, m', none)

    -- The packet around its result. A failure is reported as STATUS_NO_MEMORY.
    unfoldable pub rsa_packet :
        (size : ℕ) (want_key : Bool)
        → ℕ × Memory × Option Key
        → ℕ × Option (DataPacket × Option Key)
    rsa_packet size want_key (status, m, aes) =
        if succeeded status
        then (
          0,
          some (
            record { memory = set_packet_size size m; buffer_size = size; data_size = size },
            if want_key then aes else none,
          ),
        )
        else (status_no_memory, none)

    unfoldable pub rsa_encode_sized :
        (new_memory : ℕ → Option Memory)
        → Key
        → Option (List ℕ)
        → (want_key : Bool) (block : ℕ) → Bool × ℕ
        → ℕ × Option (DataPacket × Option Key)
    unfolding rsa_packet
    rsa_encode_sized new_memory key bytes want_key block (with_aes, size) = elim (new_memory size) [
      | none ↦ (status_no_memory, none)
      | some m ↦ rsa_packet size want_key (rsa_encode_by with_aes key bytes block m)
    ]

    -- The static RSA_Encode.
    unfoldable pub rsa_encode_packet :
        (new_memory : ℕ → Option Memory)
        → Key
        → Option (List ℕ)
        → (want_key : Bool) → ℕ × Option (DataPacket × Option Key)
    rsa_encode_packet new_memory key bytes want_key =
        let (status, block) = cng.get_block_length key in
        if succeeded status
        then rsa_encode_sized new_memory key bytes want_key block
            (rsa_packet_size block (length (bytes_of bytes)) want_key)
        else (status, none)
