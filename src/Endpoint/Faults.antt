-- ===== src/Endpoint/Faults.antt =====
-- Where OnData does something else than its sender means: partial messages at the server, messages with
-- gaps, and fragments that are longer than their place.
use camera_udp.Base.{
  ℕ, zero, suc, ◌+◌, ◌-◌, ◌*◌, ◌%◌, ◌≤◌, ◌<◌, ◌≡◌, refl, ◌≢◌, ◌∙◌, true, false, List, [], ◌∷◌, none,
  some, arith, ltb, ◌==◌, length, get_or, read, copy, copy_inside, copy_outside, ==_of_eq, ==_of_ne,
  dec_lt, subst, set, get_or-set_ne,
}
use camera_udp.Endpoint.Buffers.{
  ulong_mod, max_packet_size, max_fragments, EPacket, Msgb, is_zero, assign, modify, fill,
  take_need,
}
use camera_udp.Endpoint.{Endpoint, status_bad_data, receive, on_data}
use camera_udp.Endpoint.Slots.{At, Absent, FirstFree, get-FirstFree}
use camera_udp.Endpoint.Arrival.{on_data-At, is_zero-clear}

-- A buffer that has just been taken for a message.
abbrev Taken : ℕ → Msgb → Type 0
Taken cb_msg b = (b.cb_need ≡ cb_msg) × (is_zero b.bits ≡ true)

At-Taken :
    (m cb_msg k : ℕ) (bs : List Msgb)
    → Absent m bs
    → FirstFree k bs
    → At (Taken cb_msg) m cb_msg k (modify (assign m cb_msg) k bs)
At-Taken m cb_msg k [] a f = absurd f
At-Taken m cb_msg zero (b ∷ bs) a f = (refl, refl, (refl, f))
At-Taken m cb_msg (suc k) (b ∷ bs) (ne, a) (z, f) = (ne, At-Taken m cb_msg k bs a f)

receive-Taken :
    (on_user_data : ℕ → List ℕ → ℕ) (partial tick : ℕ) (p : EPacket) (b : Msgb)
    → p.n < max_fragments
    → length p.buf < p.msg_length
    → p.msg_length < ulong_mod
    → Taken p.msg_length b
    → receive on_user_data partial 0 tick p b
      ≡ (record { status = partial; delivered = none }, take_need (length p.buf) (fill tick p b))
unfolding receive
receive-Taken on_user_data partial tick p b lt short small (need, empty) =
    let t1 : ltb p.n max_fragments ≡ true = ground arith in
    let t2 : (b.cb_need == length p.buf % ulong_mod) ≡ false = ==_of_ne (omega arith) in
    rw (t1, is_zero-clear b.bits p.n empty, t2, receive) refl

-- camera server/TUDP.cpp. When a fragment reaches an end with a free buffer, no buffer of which has
-- its message, and the fragment is shorter than the message, `OnData` stores it and returns
-- STATUS_BAD_DATA without a message: a status that makes the dispatcher drop the connection.
on_data-partial :
    (on_user_data : ℕ → List ℕ → ℕ) (now : ℕ) (p : EPacket) (e : Endpoint) (bs : List Msgb) (k : ℕ)
    → e.bits ≡ 0
    → e.msgbs ≡ some bs
    → Absent p.m bs
    → FirstFree k bs
    → p.n < max_fragments
    → length p.buf < p.msg_length
    → p.msg_length < ulong_mod
    → (on_data on_user_data now p e).0 ≡ record { status = status_bad_data; delivered = none }
unfolding on_data
on_data-partial on_user_data now p e bs k eb em a f lt short small =
    let tick = now % ulong_mod in
    let (e', bs', eq, eb', em', h) =
      on_data-At on_user_data (Taken p.msg_length) (λ b. Unit {0}) status_bad_data now p
        (record { status = status_bad_data; delivered = none }) e bs _ k
        (λ b t. (
          take_need (length p.buf) (fill tick p b),
          receive-Taken on_user_data status_bad_data tick p b lt short small t,
          unfold take_need fill in refl,
          unfold take_need fill in refl,
          tt,
        ))
        eb em (get-FirstFree p.m p.msg_length tick k bs a f) (At-Taken p.m p.msg_length k bs a f) in
    rw eq refl

-- Addresses from the end of m_buf on.
abbrev pub buffer_size : ℕ
buffer_size = max_fragments * max_packet_size

-- A fragment of at most max_packet_size bytes, whatever its index, leaves the memory behind m_buf as
-- it was.
pub receive_in_bounds :
    (on_user_data : ℕ → List ℕ → ℕ) (partial bits tick : ℕ) (p : EPacket) (b : Msgb) (a : ℕ)
    → length p.buf ≤ max_packet_size
    → buffer_size ≤ a
    → (receive on_user_data partial bits tick p b).1.buf a ≡ b.buf a
unfolding receive
receive_in_bounds on_user_data partial bits tick p b a short out = elim (dec_lt p.n max_fragments) [
  | yes h ↦ ground (arith, copy_outside b.buf (p.n * max_packet_size) p.buf a (λ q r. omega arith))
  | no h ↦ ground arith
]

-- A fragment with the last index, not received before, writes each byte that it has beyond
-- max_packet_size behind the end of m_buf.
receive_overflow :
    (on_user_data : ℕ → List ℕ → ℕ) (partial bits tick : ℕ) (p : EPacket) (b : Msgb) (j : ℕ)
    → p.n ≡ max_fragments - 1
    → get_or b.bits p.n false ≡ false
    → max_packet_size + j < length p.buf
    → (receive on_user_data partial bits tick p b).1.buf (buffer_size + j)
      ≡ get_or p.buf (max_packet_size + j) 0
unfolding receive
receive_overflow on_user_data partial bits tick p b j last new long =
    let e : p.n * max_packet_size + (max_packet_size + j) ≡ buffer_size + j = omega arith in
    let inside : copy b.buf (p.n * max_packet_size) p.buf (buffer_size + j)
        ≡ get_or p.buf (max_packet_size + j) 0 =
      subst (λ a. copy b.buf (p.n * max_packet_size) p.buf a ≡ get_or p.buf (max_packet_size + j) 0)
        e (copy_inside b.buf (p.n * max_packet_size) p.buf (max_packet_size + j) long) in
    ground arith

-- Either end. Two fragments of one message with different indices, whatever these are, whose lengths
-- add up to the length of the message, complete it: it is handed over although other fragments, with
-- the bytes between and around, never came. No test looks for the gap, as `m_bits` of the endpoint is
-- always 0.
receive_with_gap :
    (on_user_data : ℕ → List ℕ → ℕ) (partial t1 t2 : ℕ) (p q : EPacket) (b : Msgb)
    → p.n < max_fragments
    → q.n < max_fragments
    → p.n ≢ q.n
    → 0 < length q.buf
    → length p.buf + length q.buf ≡ p.msg_length
    → p.msg_length < ulong_mod
    → b.cb_need ≡ p.msg_length
    → is_zero b.bits ≡ true
    → let after = (receive on_user_data partial 0 t1 p b).1 in
      (receive on_user_data partial 0 t2 q after).0 ≡ record {
        status = on_user_data q.type (read (fill t2 q after).buf 0 q.msg_length);
        delivered = some (q.type, read (fill t2 q after).buf 0 q.msg_length);
      }
unfolding receive
receive_with_gap on_user_data partial t1 t2 p q b hp hq ne pos sum small need empty =
    let e = receive-Taken on_user_data partial t1 p b hp (omega arith) small (need, empty) in
    let c : get_or (set b.bits p.n true) q.n false ≡ false =
      get_or-set_ne b.bits p.n q.n true false ne ∙ is_zero-clear b.bits q.n empty in
    let in_range : ltb q.n max_fragments ≡ true = ground arith in
    let all : ((b.cb_need + ulong_mod - length p.buf % ulong_mod) % ulong_mod
          == length q.buf % ulong_mod)
        ≡ true =
      ==_of_eq (omega arith) in
    rw e (rw (in_range, c, all) refl)
