-- ===== src/Endpoint/Buffers.antt =====
-- Endpoint::MSGB, a buffer that collects the fragments of one message, and Endpoint::get, which picks
-- the buffer for a message (camera server/TUDP.h, camera server/TUDP.cpp).
use camera_udp.Base.{
  ℕ, zero, suc, ◌+◌, ◌-◌, ◌*◌, ◌%◌, ◌^◌, Bool, true, false, not, ◌&&◌, List, [], ◌∷◌, Option, none,
  some, ltb, ◌==◌, if◌then◌else◌, Memory, copy, replicate, set,
}

abbrev pub ulong_mod : ℕ
ulong_mod = 2 ^ 32

abbrev pub max_packet_size : ℕ
max_packet_size = 0x580

abbrev pub e_nb : ℕ
e_nb = 4

-- The fragments of one message, and the bits of MSGB::m_bits.
abbrev pub max_fragments : ℕ
max_fragments = 0x40

abbrev pub maxulong : ℕ
maxulong = 2 ^ 32 - 1

-- E_PACKET, with the bytes of Buf that were received.
pub record EPacket : Type 0 where
  pub msg_length : ℕ
  pub type : ℕ
  pub m : ℕ
  pub n : ℕ
  pub buf : List ℕ

-- `bits` are the 64 bits of m_bits, the lowest first; `cb_need` is the bit pattern of a LONG.
pub record Msgb : Type 0 where
  pub bits : List Bool
  pub m : ℕ
  pub cb_msg : ℕ
  pub cb_need : ℕ
  pub tick : ℕ
  pub buf : Memory

abbrev pub no_bits : List Bool
no_bits = replicate max_fragments false

-- !m_bits
abbrev pub is_zero : List Bool → Bool
is_zero [] = true
is_zero (b ∷ bs) = not b && is_zero bs

-- What the loop of `get` ends with: the buffer that has the message, a message of another length, or
-- the buffer to take for a new message.
pub data Search : Type 0 where
  hit : ℕ → Search
  refused : Search
  allot : Option ℕ → Search

abbrev pub or_else : Option ℕ → Option ℕ → Option ℕ
or_else none y = y
or_else (some x) y = some x

-- The first empty buffer is kept.
abbrev pub keep_free : Option ℕ → Bool → ℕ → Option ℕ
keep_free none true i = some i
keep_free none false i = none
keep_free (some x) b i = some x

-- The loop, from the buffer with index `i`: `free` is `_msgb`, `stale` is `__msgb`, `dt` is `_dt`.
unfoldable pub scan :
    (m cb_msg tick : ℕ) → List Msgb → (i : ℕ) → (free stale : Option ℕ) → (dt : ℕ) → Search
scan m cb_msg tick [] i free stale dt = allot (or_else free stale)
scan m cb_msg tick (b ∷ bs) i free stale dt =
    let age = (tick + ulong_mod - b.tick) % ulong_mod in
    let older = ltb dt age in
    let rest =
      scan m cb_msg tick bs (i + 1) (keep_free free (is_zero b.bits) i)
        (if older && ltb 999 age then some i else stale) (if older then age else dt) in
    if b.m == m then (if cb_msg == b.cb_msg then hit i else refused) else rest

-- A new message in a buffer: the fields that `get` sets, and no other.
abbrev pub assign : (m cb_msg : ℕ) → Msgb → Msgb
assign m cb_msg b = record b { m = m; cb_msg = cb_msg; cb_need = cb_msg }

abbrev pub modify {ℓ} : {A : Type ℓ} → (A → A) → ℕ → List A → List A
modify f i [] = []
modify f zero (x ∷ xs) = f x ∷ xs
modify f (suc i) (x ∷ xs) = x ∷ modify f i xs

abbrev pub settle : (m cb_msg : ℕ) → List Msgb → Search → Option ℕ × List Msgb
settle m cb_msg bs (hit i) = (some i, bs)
settle m cb_msg bs refused = (none, bs)
settle m cb_msg bs (allot none) = (none, bs)
settle m cb_msg bs (allot (some i)) = (some i, modify (assign m cb_msg) i bs)

-- The index of the buffer (`none` for a null pointer), and the buffers after the call.
unfoldable pub get : (m cb_msg tick : ℕ) → List Msgb → Option ℕ × List Msgb
unfolding scan
get m cb_msg tick bs = settle m cb_msg bs (scan m cb_msg tick bs 0 none none 0)

-- _interlockedbittestandset64: the old bit is `get_or bits n false`.
abbrev pub set_bit : ℕ → List Bool → List Bool
set_bit n bits = set bits n true

-- The bytes of a fragment go to its place, which its index alone decides.
unfoldable pub fill : (tick : ℕ) → EPacket → Msgb → Msgb
fill tick p b = record b {
  bits = set_bit p.n b.bits;
  buf = copy b.buf (p.n * max_packet_size) p.buf;
  tick = tick;
}

-- InterlockedExchangeAddNoFence(&m_cbNeed, -cb)
unfoldable pub take_need : ℕ → Msgb → Msgb
take_need cb b = record b { cb_need = (b.cb_need + ulong_mod - cb % ulong_mod) % ulong_mod }
