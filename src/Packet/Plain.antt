-- ===== src/Packet/Plain.antt =====
-- Plain packets (camera server/pkt.cpp and pkt.h): Plain_Create and IsPlainData.
use camera_udp.Base.{
  ℕ, ◌+◌, ◌-◌, ◌%◌, ◌^◌, ◌<◌, ◌≡◌, refl, subst, ◌∙◌, inl, true, List, Option, some, arith, length,
  Memory, copy, read, read-copy_self,
}
use camera_udp.Packet.{
  DataPacket, offset_encrypted, e_plain, packet_size, magic, set_packet_size, set_magic,
  is_size_valid, is_plain_data, plain_create,
}
use camera_udp.Packet.Layout.{get_ulong-put_self, get_ulong-put_other, get_ulong-copy_other}

plain_create-granted :
    (new_memory : ℕ → Option Memory) (bytes : List ℕ) (m : Memory) (size : ℕ)
    → (offset_encrypted + length bytes) % 2 ^ 32 ≡ size
    → new_memory size ≡ some m
    → plain_create new_memory bytes
      ≡ some (record {
        memory = copy (set_packet_size size (set_magic e_plain m)) offset_encrypted bytes;
        buffer_size = size;
        data_size = size;
      })
unfolding plain_create
plain_create-granted new_memory bytes m size e g =
    subst
      (λ k.
        new_memory k ≡ some m
        → plain_create new_memory bytes
          ≡ some (record {
            memory = copy (set_packet_size k (set_magic e_plain m)) offset_encrypted bytes;
            buffer_size = k;
            data_size = k;
          }))
      e (λ granted. rw (plain_create, granted) refl) g

-- If memory is granted, Plain_Create of one byte or more (that fit a packet of 32-bit size) makes a packet
-- whose size passes IsSizeValid, and in which IsPlainData finds the place, the size and the bytes of the
-- data.
is_plain_data-plain_create :
    (new_memory : ℕ → Option Memory) (bytes : List ℕ) (m : Memory)
    → 0 < length bytes
    → offset_encrypted + length bytes < 2 ^ 32
    → new_memory (offset_encrypted + length bytes) ≡ some m
    → (packet : DataPacket) × (plain_create new_memory bytes ≡ some packet)
      × (is_size_valid packet.memory packet.data_size ≡ true)
      × (is_plain_data packet.memory ≡ some (offset_encrypted, length bytes))
      × (read packet.memory offset_encrypted (length bytes) ≡ bytes)
unfolding is_size_valid is_plain_data
is_plain_data-plain_create new_memory bytes m pos fits granted =
    let size = offset_encrypted + length bytes in
    let m0 = set_packet_size size (set_magic e_plain m) in
    let m1 = copy m0 offset_encrypted bytes in
    let e_size : packet_size m1 ≡ size =
      get_ulong-copy_other m0 _ bytes _ (inl (omega arith)) ∙ get_ulong-put_self _ size _ fits in
    let e_magic : magic m1 ≡ e_plain =
      get_ulong-copy_other m0 _ bytes _ (inl (omega arith))
      ∙ get_ulong-put_other _ _ _ _ (inl (omega arith))
      ∙ get_ulong-put_self _ e_plain m (omega arith) in
    let e_rest : (size + 2 ^ 32 - offset_encrypted) % 2 ^ 32 ≡ length bytes = omega arith in
    (
      record { memory = m1; buffer_size = size; data_size = size },
      plain_create-granted new_memory bytes m size (omega arith) granted,
      rw e_size (ground arith),
      rw (e_magic, e_size, e_rest) refl,
      read-copy_self m0 offset_encrypted bytes,
    )
