-- ===== src/Wire/RoundTrip.antt =====
-- The datagram that SendMsg hands to the socket gives, after AES_Decode, the fragment that it was made of.
use camera_udp.Base.{
  ℕ, ◌+◌, ◌*◌, ◌/◌, ◌%◌, ◌^◌, ◌≤◌, ◌<◌, ◌≡◌, refl, ap, ◌∙◌, inl, inr, true, List, Option, some,
  arith, length, Memory, copy, read, read-copy_self, subst,
}
use camera_udp.Packet.{
  get_ulong-put_self, get_ulong-put_other, read-put_other, Cng, DataPacket, succeeded, offset_buf,
  is_size_valid, e_aes, set_packet_size, set_data_size, set_magic, aes_decode, aes_encode,
  get_ulong, put_ulong, to_bytes,
}
use camera_udp.Packet.Session.{
  AesLaws, Header, sealed, Holds, set-Header, sealed-Header, sealed-Holds, aes_decode-Header,
  aes_decode_i-Holds, aes_encode_i-sealed,
}
use camera_udp.Endpoint.{EPacket}
use camera_udp.Wire.{e_packet_bytes, e_packet_at, get_ulong64, put_ulong64, sent_packet, send_msg}

-- The fields of a packet fit their types.
pub record Fits (p : EPacket) : Type 0 where
  pub msg_length : p.msg_length < 2 ^ 32
  pub type : p.type < 2 ^ 32
  pub m : p.m < 2 ^ 16
  pub n : p.n < 2 ^ 16

ulong_lem :
    (v : ℕ)
    → v < 2 ^ 32
    → v % 256 + 256 * (v / 256 % 256 + 256 * (v / 65536 % 256 + 256 * (v / 16777216 % 256))) ≡ v
ulong_lem v h = omega arith

ushort_lem : (v : ℕ) → v < 2 ^ 16 → v % 256 + 256 * (v / 256 % 256) ≡ v
ushort_lem v h = omega arith

pub e_packet_at-bytes : (p : EPacket) → Fits p → e_packet_at (e_packet_bytes p) ≡ some p
unfolding e_packet_bytes e_packet_at to_bytes
e_packet_at-bytes p f =
    rw
      (
        ulong_lem p.msg_length f.msg_length,
        ulong_lem p.type f.type,
        ushort_lem p.m f.m,
        ushort_lem p.n f.n,
      )
      refl

pub length-e_packet_bytes : (p : EPacket) → length (e_packet_bytes p) ≡ 12 + length p.buf
unfolding e_packet_bytes to_bytes
length-e_packet_bytes p = omega arith

to_bytes_mod : (v : ℕ) → to_bytes v ≡ to_bytes (v % 2 ^ 32)
unfolding to_bytes
to_bytes_mod v =
    let e1 : v % 2 ^ 32 % 256 ≡ v % 256 = omega arith in
    let e2 : v % 2 ^ 32 / 256 % 256 ≡ v / 256 % 256 = omega arith in
    let e3 : v % 2 ^ 32 / 65536 % 256 ≡ v / 65536 % 256 = omega arith in
    let e4 : v % 2 ^ 32 / 16777216 % 256 ≡ v / 16777216 % 256 = omega arith in
    rw (e1, e2, e3, e4) refl

-- A store of four bytes drops the higher ones.
pub get_ulong-put_mod : (at v : ℕ) (m : Memory) → get_ulong (put_ulong at v m) at ≡ v % 2 ^ 32
unfolding put_ulong
get_ulong-put_mod at v m = rw (to_bytes_mod v) (get_ulong-put_self at (v % 2 ^ 32) m (omega arith))

get_ulong64-put : (v : ℕ) (m : Memory) → v < 2 ^ 64 → get_ulong64 (put_ulong64 0 v m) 0 ≡ v
unfolding get_ulong64 put_ulong64
get_ulong64-put v m h =
    let low : get_ulong (put_ulong 4 (v / 2 ^ 32) (put_ulong 0 v m)) 0 ≡ v % 2 ^ 32 =
      get_ulong-put_other _ _ _ _ (inl (omega arith)) ∙ get_ulong-put_mod 0 v m in
    let high = get_ulong-put_self 4 (v / 2 ^ 32) (put_ulong 0 v m) (omega arith) in
    omega (arith, low, high)

put_ulong64-Header : (n v : ℕ) (m : Memory) → Header n m → Header n (put_ulong64 0 v m)
unfolding put_ulong64
put_ulong64-Header n v m h = record {
  is_aes =
      get_ulong-put_other _ _ _ _ (inr (omega arith))
      ∙ get_ulong-put_other _ _ _ _ (inr (omega arith))
      ∙ h.is_aes;
  whole =
      get_ulong-put_other _ _ _ _ (inr (omega arith))
      ∙ get_ulong-put_other _ _ _ _ (inr (omega arith))
      ∙ h.whole;
  size =
      get_ulong-put_other _ _ _ _ (inr (omega arith))
      ∙ get_ulong-put_other _ _ _ _ (inr (omega arith))
      ∙ h.size;
}

read-put_ulong64 :
    (v : ℕ) (m : Memory) (at n : ℕ) → 8 ≤ at → read (put_ulong64 0 v m) at n ≡ read m at n
unfolding put_ulong64
read-put_ulong64 v m at n h =
    read-put_other _ _ _ at n (inr (omega arith)) ∙ read-put_other _ _ _ at n (inr (omega arith))

module _ {Key : Type 0} (cng : Cng Key) (new_memory : ℕ → Option Memory) (random : ℕ → ℕ × List ℕ)
    (send_to : DataPacket → ℕ) where
  -- The datagram that SendMsg makes of the bytes of a fragment.
  abbrev pub datagram : (key : Key) (rcookie : ℕ) (bytes : List ℕ) → Memory → Memory
  datagram key rcookie bytes m = put_ulong64 0 rcookie (
      sealed cng (random 12).1 key bytes offset_buf (
        set_packet_size ((offset_buf + length bytes) % 2 ^ 32)
          (set_data_size (length bytes) (set_magic e_aes (copy m offset_buf bytes)))))

  datagram-Header :
      (key : Key) (rcookie : ℕ) (bytes : List ℕ) (m : Memory)
      → offset_buf + length bytes < 2 ^ 32
      → Header (length bytes) (datagram key rcookie bytes m)
  datagram-Header key rcookie bytes m fits =
      put_ulong64-Header _ rcookie _
        (sealed-Header cng (random 12).1 key bytes _ (set-Header (length bytes) _ fits))

  datagram-Holds :
      (laws : AesLaws cng) (key : Key) (rcookie : ℕ) (bytes : List ℕ) (m : Memory)
      → length (random 12).1 ≡ 12
      → Holds cng (random 12).1 key bytes offset_buf (datagram key rcookie bytes m)
  datagram-Holds laws key rcookie bytes m e =
      let (a, b, c) = sealed-Holds cng laws (random 12).1 key bytes offset_buf _ e (omega arith) in
      (
        read-put_ulong64 rcookie _ _ 12 (omega arith) ∙ a,
        read-put_ulong64 rcookie _ _ 16 (omega arith) ∙ b,
        read-put_ulong64 rcookie _ _ (length bytes) (omega arith) ∙ c,
      )

  sent_packet-datagram :
      (key : Key) (rcookie : ℕ) (bytes : List ℕ) (m : Memory)
      → length (random 12).1 ≡ 12
      → succeeded (random 12).0 ≡ true
      → succeeded (cng.encrypt key (random 12).1 bytes).0 ≡ true
      → let packet : DataPacket = record {
        memory = datagram key rcookie bytes m;
        buffer_size = (offset_buf + length bytes) % 2 ^ 32;
        data_size = (offset_buf + length bytes) % 2 ^ 32;
      } in
        sent_packet cng new_memory random send_to key rcookie bytes m
        ≡ (send_to packet, some packet)
  unfolding sent_packet aes_encode
  sent_packet-datagram key rcookie bytes m e h h' =
      rw
        (
          read-copy_self m offset_buf bytes,
          aes_encode_i-sealed cng random key bytes offset_buf _ e h,
          h',
        )
        refl

  send_msg-granted :
      (key : Key) (rcookie : ℕ) (p : EPacket) (m : Memory) (size : ℕ)
      → (offset_buf + length (e_packet_bytes p)) % 2 ^ 32 ≡ size
      → new_memory size ≡ some m
      → send_msg cng new_memory random send_to key rcookie p
        ≡ sent_packet cng new_memory random send_to key rcookie (e_packet_bytes p) m
  unfolding send_msg
  send_msg-granted key rcookie p m size e g =
      subst
        (λ k.
          new_memory k ≡ some m
          → send_msg cng new_memory random send_to key rcookie p
            ≡ sent_packet cng new_memory random send_to key rcookie (e_packet_bytes p) m)
        e (λ granted. rw (send_msg, granted) refl) g

  -- What reaches the other end in a datagram, under the same key.
  pub record Arrives (key : Key) (rcookie : ℕ) (p : EPacket) (packet : DataPacket) : Type 0 where
    pub valid : is_size_valid packet.memory packet.data_size ≡ true
    pub cookie : get_ulong64 packet.memory 0 ≡ rcookie
    pub memory : Memory
    pub decoded :
        aes_decode cng key packet.memory
        ≡ record { status = 0; out = some (offset_buf, length (e_packet_bytes p)); memory = memory }
    pub fragment : e_packet_at (read memory offset_buf (length (e_packet_bytes p))) ≡ some p

  datagram-Arrives :
      (laws : AesLaws cng) (key : Key) (rcookie : ℕ) (p : EPacket) (m : Memory) (buffer_size : ℕ)
      → Fits p
      → rcookie < 2 ^ 64
      → offset_buf + length (e_packet_bytes p) < 2 ^ 32
      → length (random 12).1 ≡ 12
      → succeeded (cng.encrypt key (random 12).1 (e_packet_bytes p)).0 ≡ true
      → Arrives key rcookie p (record {
        memory = datagram key rcookie (e_packet_bytes p) m;
        buffer_size = buffer_size;
        data_size = (offset_buf + length (e_packet_bytes p)) % 2 ^ 32;
      })
  unfolding is_size_valid
  datagram-Arrives laws key rcookie p m buffer_size f small fits e h =
      let bytes = e_packet_bytes p in
      let d = datagram key rcookie bytes m in
      let v = datagram-Header key rcookie bytes m fits in
      let len = length-e_packet_bytes p in
      record {
        valid = rw (v.whole) (ground arith);
        cookie = get_ulong64-put rcookie _ small;
        memory = copy d offset_buf bytes;
        decoded =
            aes_decode-Header cng key (length bytes) d (copy d offset_buf bytes) 0 (omega arith) v (
              aes_decode_i-Holds cng laws (random 12).1 key bytes offset_buf d h
                (datagram-Holds laws key rcookie bytes m e));
        fragment = ap e_packet_at (read-copy_self d offset_buf bytes) ∙ e_packet_at-bytes p f;
      }

  -- With AES-GCM: if memory is granted, and BCryptGenRandom and BCryptEncrypt succeed, SendMsg of a fragment
  -- whose fields fit their types hands one datagram to SendTo and returns its status. The size in
  -- it passes IsSizeValid, it carries the cookie of the other end, and AES_Decode under the same key
  -- gives the bytes from which the other end reads the same fragment.
  pub send_msg-Arrives :
      (laws : AesLaws cng) (key : Key) (rcookie : ℕ) (p : EPacket) (m : Memory)
      → Fits p
      → rcookie < 2 ^ 64
      → offset_buf + length (e_packet_bytes p) < 2 ^ 32
      → new_memory (offset_buf + length (e_packet_bytes p)) ≡ some m
      → length (random 12).1 ≡ 12
      → succeeded (random 12).0 ≡ true
      → succeeded (cng.encrypt key (random 12).1 (e_packet_bytes p)).0 ≡ true
      → (packet : DataPacket) × (send_msg cng new_memory random send_to key rcookie p
          ≡ (send_to packet, some packet))
        × Arrives key rcookie p packet
  send_msg-Arrives laws key rcookie p m f small fits g e h h' = (
    _,
    send_msg-granted key rcookie p m _ (omega arith) g
        ∙ sent_packet-datagram key rcookie (e_packet_bytes p) m e h h',
    datagram-Arrives laws key rcookie p m _ f small fits e h',
  )
