-- ===== src/Packet.antt =====
-- UH_PACKET of camera server/pkt.h and pkt.cpp (remote camera has the same file): the layout of a
-- datagram in memory, plain packets, and packets under a session key. Cryptography (CNG) is the
-- parameter `Cng`.
mod Layout
pub mod Plain
pub mod Session
pub mod PublicKey
pub mod Agreement
pub mod Toy
mod Tests
unfoldable pub use Layout.*
use camera_udp.Base.{
  ℕ, zero, suc, ◌+◌, ◌-◌, ◌*◌, ◌%◌, ◌^◌, Bool, true, false, ◌&&◌, List, [], ◌∷◌, Option, none, some,
  ltb, ◌==◌, if◌then◌else◌, length, Memory, copy, read,
}

-- A status is an error if its top bit is set.
abbrev pub succeeded : ℕ → Bool
succeeded status = ltb status (2 ^ 31)

abbrev pub status_bad_data : ℕ
status_bad_data = 0xC000090B

abbrev pub status_no_memory : ℕ
status_no_memory = 0xC0000017

-- CDataPacket, without its reference count: it is made here and handed over.
pub record DataPacket : Type 0 where
  pub memory : Memory
  pub buffer_size : ℕ
  pub data_size : ℕ

-- Calls of CNG, each with its status. `encrypt` gives the ciphertext and the tag. The chains of calls
-- that make a key (GenAesKey, from bytes or from a secret agreement, and ImportPubKey) are one field
-- each.
pub record Cng (Key : Type 0) : Type 0 where
  pub encrypt : Key → (nonce plain : List ℕ) → ℕ × List ℕ × List ℕ
  pub decrypt : Key → (nonce tag cipher : List ℕ) → ℕ × List ℕ
  pub gen_aes_key : List ℕ → ℕ × Key
  pub agree_aes_key : (private public : Key) → ℕ × Key
  pub import_pub_key : Key → List ℕ → ℕ × Key
  pub create_key_pair : ℕ × Key
  pub export_key : Key → ℕ × List ℕ
  pub is_rsa : Key → ℕ × Bool
  pub get_block_length : Key → ℕ × ℕ
  pub rsa_encrypt : Key → List ℕ → ℕ × List ℕ
  pub rsa_decrypt : Key → List ℕ → ℕ × List ℕ

-- What a decoder returns: its status, the data as address and size where it sets them, and memory.
pub record Decoded : Type 0 where
  pub status : ℕ
  pub out : Option (ℕ × ℕ)
  pub memory : Memory

abbrev pub bad_data : Memory → Decoded
bad_data m = record { status = status_bad_data; out = none; memory = m }

unfoldable pub is_size_valid : Memory → ℕ → Bool
is_size_valid m cb = ltb offset_encrypted cb && (packet_size m == cb)

-- The size and the address of the data of a plain packet.
unfoldable pub is_plain_data : Memory → Option (ℕ × ℕ)
is_plain_data m =
    if magic m == e_plain
    then some (offset_encrypted, (packet_size m + 2 ^ 32 - offset_encrypted) % 2 ^ 32)
    else none

unfoldable pub set_plain_size : ℕ → Memory → Memory
set_plain_size cb = set_packet_size ((offset_encrypted + cb) % 2 ^ 32)

-- `new_memory size` is the buffer of a new CDataPacket, if there is memory.
module _ (new_memory : ℕ → Option Memory) where
  unfoldable pub plain_create : List ℕ → Option DataPacket
  plain_create bytes =
      let size = (offset_encrypted + length bytes) % 2 ^ 32 in
      elim (new_memory size) [
        | none ↦ none
        | some m ↦ some (record {
          memory = copy (set_packet_size size (set_magic e_plain m)) offset_encrypted bytes;
          buffer_size = size;
          data_size = size;
        })
      ]

module _ {Key : Type 0} (cng : Cng Key) where
  unfoldable pub aes_decode_i : Key → (at cb : ℕ) → Memory → ℕ × Memory
  aes_decode_i key at cb m =
      let (status, plain) = cng.decrypt key (nonce m) (tag m) (read m at cb) in
      (status, copy m at plain)

  -- `random n` is a call of BCryptGenRandom for n bytes.
  unfoldable pub aes_encode_i :
      (random : ℕ → ℕ × List ℕ) → Key → List ℕ → (at : ℕ) → Memory → ℕ × Memory
  aes_encode_i random key bytes at m =
      let (status, fresh) = random 12 in
      let m1 = copy m offset_nonce fresh in
      let (status', cipher, t) = cng.encrypt key (nonce m1) bytes in
      if succeeded status then (status', copy (copy m1 at cipher) offset_tag t) else (status, m1)

  unfoldable pub aes_decode : Key → Memory → Decoded
  aes_decode key m =
      let cb = packet_size m - offset_buf in
      let (status, m') = aes_decode_i key offset_buf cb m in
      if ltb offset_buf (packet_size m) && (magic m == e_aes) && (cb == data_size m)
      then record { status = status; out = some (offset_buf, cb); memory = m' }
      else bad_data m

  unfoldable pub aes_encode : (random : ℕ → ℕ × List ℕ) → Key → List ℕ → Memory → ℕ × Memory
  unfolding aes_encode_i
  aes_encode random key bytes m = aes_encode_i random key bytes offset_buf (
      set_packet_size ((offset_buf + length bytes) % 2 ^ 32)
        (set_data_size (length bytes) (set_magic e_aes m)))

  -- AES_Allocate and the static AES_Encode.
  unfoldable pub aes_encode_packet :
      (new_memory : ℕ → Option Memory) (random : ℕ → ℕ × List ℕ)
      → Key
      → List ℕ
      → ℕ × Option DataPacket
  unfolding aes_encode
  aes_encode_packet new_memory random key bytes =
      let size = (offset_buf + length bytes) % 2 ^ 32 in
      elim (new_memory size) [
        | none ↦ (status_no_memory, none)
        | some m ↦
            let (status, m') = aes_encode random key bytes m in
            if succeeded status
            then (0, some (record { memory = m'; buffer_size = size; data_size = size }))
            else (status, none)
      ]
