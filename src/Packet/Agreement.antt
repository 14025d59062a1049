-- ===== src/Packet/Agreement.antt =====
-- Packets whose key two elliptic-curve keys agree on: DH_Encode of camera server/pkt.cpp, and the static
-- Encode, which chooses by the algorithm of the public key.
pub mod RoundTrip
use camera_udp.Base.{
  ℕ, zero, suc, ◌+◌, ◌%◌, ◌^◌, Bool, true, false, List, [], ◌∷◌, Option, none, some, ◌==◌,
  if◌then◌else◌, length, Memory, copy,
}
use camera_udp.Packet.{
  Cng, DataPacket, succeeded, status_no_memory, offset_buf, e_ecdh, set_magic, set_packet_size,
  set_data_size, aes_encode_i,
}
use camera_udp.Packet.PublicKey.{bytes_of, rsa_encode_packet}

module _ {Key : Type 0} (cng : Cng Key) (random : ℕ → ℕ × List ℕ) where
  -- The packet behind the exported key, once the AES key is there. A failure of the encryption still
  -- hands the AES key over. `agreed` is the status of the agreement on it.
  unfoldable pub dh_encode_with :
      (size agreed : ℕ) → Key → (blob bytes : List ℕ) → Memory → ℕ × Option DataPacket × Option Key
  dh_encode_with size agreed aes blob bytes m =
      let (status, m2) : ℕ × Memory =
        if length bytes == 0
        then (agreed, m)
        else aes_encode_i cng random aes bytes (offset_buf + length blob) m in
      let packet : DataPacket = record {
        memory = set_packet_size size (set_data_size (length bytes) (set_magic e_ecdh m2));
        buffer_size = size;
        data_size = size;
      } in
      (status, if succeeded status then some packet else none, some aes)

  -- In the memory of the new packet, if there is any.
  unfoldable pub dh_encode_granted :
      (size : ℕ)
      → ℕ × Key
      → (blob bytes : List ℕ) → Option Memory
      → ℕ × Option DataPacket × Option Key
  dh_encode_granted size agreed blob bytes none = (status_no_memory, none, none)
  dh_encode_granted size (status, aes) blob bytes (some m) =
      if succeeded status
      then dh_encode_with size status aes blob bytes (copy m offset_buf blob)
      else (status, none, none)

  unfoldable pub dh_encode_exported :
      (new_memory : ℕ → Option Memory)
      → ℕ × Key
      → List ℕ
      → ℕ × List ℕ
      → ℕ × Option DataPacket × Option Key
  dh_encode_exported new_memory agreed bytes (status, blob) =
      let size = (offset_buf + length blob + length bytes) % 2 ^ 32 in
      if succeeded status
      then dh_encode_granted size agreed blob bytes (new_memory size)
      else (status, none, none)

  -- The first BCryptExportKey asks for the size of the key, the second for the key.
  unfoldable pub dh_encode_keys :
      (new_memory : ℕ → Option Memory) (secret public : Key)
      → List ℕ
      → ℕ × Option DataPacket × Option Key
  unfolding dh_encode_exported dh_encode_granted
  dh_encode_keys new_memory secret public bytes =
      dh_encode_exported new_memory (cng.agree_aes_key secret public) bytes (cng.export_key secret)

  unfoldable pub dh_encode_created :
      (new_memory : ℕ → Option Memory) → Key → List ℕ → ℕ × Key → ℕ × Option DataPacket × Option Key
  dh_encode_created new_memory public bytes (status, secret) =
      if succeeded status
      then dh_encode_keys new_memory secret public bytes
      else (status, none, none)

  unfoldable pub dh_encode :
      (new_memory : ℕ → Option Memory) → Key → List ℕ → ℕ × Option DataPacket × Option Key
  unfolding dh_encode_created
  dh_encode new_memory public bytes = dh_encode_created new_memory public bytes cng.create_key_pair

  abbrev pub flat : ℕ × Option (DataPacket × Option Key) → ℕ × Option DataPacket × Option Key
  flat (status, none) = (status, none, none)
  flat (status, some (packet, key)) = (status, some packet, key)

  -- With a `phKey`: every caller asks for the session key.
  unfoldable pub encode :
      (new_memory : ℕ → Option Memory) → Key → Option (List ℕ) → ℕ × Option DataPacket × Option Key
  encode new_memory public bytes =
      let (status, rsa) = cng.is_rsa public in
      if succeeded status
      then (if rsa
          then flat (rsa_encode_packet cng random new_memory public bytes true)
          else dh_encode new_memory public (bytes_of bytes))
      else (status, none, none)
