-- ===== src/Packet/Layout.antt =====
-- The fields of UH_PACKET (camera server/pkt.h) in the bytes of a packet, little-endian.
use camera_udp.Base.{
  ℕ, ◌+◌, ◌*◌, ◌/◌, ◌%◌, ◌^◌, ◌≤◌, ◌<◌, ◌≡◌, ap, subst, ◌∙◌, ◌⊎◌, inl, inr, List, [], ◌∷◌, arith,
  length, Memory, copy, read, read-copy_self, read-copy_before, read-copy_after,
}

abbrev pub offset_magic : ℕ
offset_magic = 8

abbrev pub offset_packet_size : ℕ
offset_packet_size = 12

abbrev pub offset_encrypted : ℕ
offset_encrypted = 16

abbrev pub offset_data_size : ℕ
offset_data_size = 16

abbrev pub offset_rsa_data : ℕ
offset_rsa_data = 20

abbrev pub offset_nonce : ℕ
offset_nonce = 20

abbrev pub offset_tag : ℕ
offset_tag = 32

abbrev pub offset_buf : ℕ
offset_buf = 48

abbrev pub offset_aes : ℕ
offset_aes = 48

abbrev pub offset_rsa_aes_data : ℕ
offset_rsa_aes_data = 80

-- '*ASR'
abbrev pub e_rsa : ℕ
e_rsa = 0x2A415352

-- '+ASR'
abbrev pub e_rsa_aes : ℕ
e_rsa_aes = 0x2B415352

-- '*SEA'
abbrev pub e_aes : ℕ
e_aes = 0x2A534541

-- 'HDCE'
abbrev pub e_ecdh : ℕ
e_ecdh = 0x48444345

-- 'NALP'
abbrev pub e_plain : ℕ
e_plain = 0x4E414C50

unfoldable pub of_bytes : List ℕ → ℕ
of_bytes [] = 0
of_bytes (b ∷ bs) = b + 256 * of_bytes bs

-- The four bytes of a ULONG.
unfoldable pub to_bytes : ℕ → List ℕ
to_bytes v = (v % 256) ∷ (v / 256 % 256) ∷ (v / 65536 % 256) ∷ (v / 16777216 % 256) ∷ []

unfoldable pub get_ulong : Memory → ℕ → ℕ
unfolding of_bytes
get_ulong m at = of_bytes (read m at 4)

unfoldable pub put_ulong : ℕ → ℕ → Memory → Memory
unfolding to_bytes
put_ulong at v m = copy m at (to_bytes v)

abbrev pub magic : Memory → ℕ
magic m = get_ulong m offset_magic

abbrev pub packet_size : Memory → ℕ
packet_size m = get_ulong m offset_packet_size

abbrev pub data_size : Memory → ℕ
data_size m = get_ulong m offset_data_size

abbrev pub set_magic : ℕ → Memory → Memory
set_magic = put_ulong offset_magic

abbrev pub set_packet_size : ℕ → Memory → Memory
set_packet_size = put_ulong offset_packet_size

abbrev pub set_data_size : ℕ → Memory → Memory
set_data_size = put_ulong offset_data_size

abbrev pub nonce : Memory → List ℕ
nonce m = read m offset_nonce 12

abbrev pub tag : Memory → List ℕ
tag m = read m offset_tag 16

of_bytes-to_bytes : (v : ℕ) → v < 2 ^ 32 → of_bytes (to_bytes v) ≡ v
unfolding of_bytes to_bytes
of_bytes-to_bytes v h = omega arith

pub get_ulong-put_self : (at v : ℕ) (m : Memory) → v < 2 ^ 32 → get_ulong (put_ulong at v m) at ≡ v
unfolding get_ulong put_ulong
get_ulong-put_self at v m h = ap of_bytes (read-copy_self m at (to_bytes v)) ∙ of_bytes-to_bytes v h

-- Two ranges that have no byte in common, as lower end and size.
abbrev pub Disjoint : (a n at k : ℕ) → Type 0
Disjoint a n at k = (a + n ≤ at) ⊎ (at + k ≤ a)

pub read-copy_other :
    (m : Memory) (at : ℕ) (bs : List ℕ) (a n : ℕ)
    → Disjoint a n at (length bs)
    → read (copy m at bs) a n ≡ read m a n
read-copy_other m at bs a n (inl h) = read-copy_before m at bs a n h
read-copy_other m at bs a n (inr h) = read-copy_after m at bs a n h

pub read-put_other :
    (at v : ℕ) (m : Memory) (a n : ℕ) → Disjoint a n at 4 → read (put_ulong at v m) a n ≡ read m a n
unfolding put_ulong
read-put_other at v m a n d = read-copy_other m at (to_bytes v) a n d

pub get_ulong-copy_other :
    (m : Memory) (at : ℕ) (bs : List ℕ) (a : ℕ)
    → Disjoint a 4 at (length bs)
    → get_ulong (copy m at bs) a ≡ get_ulong m a
unfolding get_ulong
get_ulong-copy_other m at bs a d = ap of_bytes (read-copy_other m at bs a 4 d)

pub get_ulong-put_other :
    (at v : ℕ) (m : Memory) (a : ℕ)
    → Disjoint a 4 at 4
    → get_ulong (put_ulong at v m) a ≡ get_ulong m a
unfolding get_ulong
get_ulong-put_other at v m a d = ap of_bytes (read-put_other at v m a 4 d)

pub read-copy_whole :
    (m : Memory) (at : ℕ) (bs : List ℕ) (n : ℕ) → length bs ≡ n → read (copy m at bs) at n ≡ bs
read-copy_whole m at bs n e = subst (λ k. read (copy m at bs) at k ≡ bs) e (read-copy_self m at bs)
