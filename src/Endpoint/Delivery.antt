-- ===== src/Endpoint/Delivery.antt =====
-- From SendUserData at one end to OnUserData at the other: a message whose fragments arrive in any
-- order is handed over once, whole, with the last of them.
use mathlib.Core.List.{Permᴰ}
use camera_udp.Base.{
  ℕ, ◌*◌, ◌/◌, ◌%◌, ◌≤◌, ◌<◌, ◌≡◌, List, [], ◌∷◌, ◌++◌, none, some, arith, length, replicate,
}
use camera_udp.Endpoint.Buffers.{
  ulong_mod, max_packet_size, max_fragments, Msgb, no_bits, assign, modify, get,
}
use camera_udp.Endpoint.{Endpoint, Reply, noerror, on_data_with, on_data_client}
use camera_udp.Endpoint.Send.Split.{fragment, fragment_count, range_from}
use camera_udp.Endpoint.Slots.{At, Absent, FirstFree, get-At, get-FirstFree}
use camera_udp.Endpoint.Assembly.{In, Distinct, sizes, Waits, receive-partial, receive-last}
use camera_udp.Endpoint.Orders.{Incomplete, Arrival-perm}
use camera_udp.Endpoint.Arrival.{
  At-assign, on_data-At, arrive, arrive-nil, arrive-cons, packets, indices,
}

-- The next fragment of the message goes to buffer `k`, which then waits for those of `order`.
record Pending (bytes : List ℕ) (m k : ℕ) (order : List ℕ) (e : Endpoint) : Type 0 where
  bits : e.bits ≡ 0
  before : List Msgb
  after : List Msgb
  buffers : e.msgbs ≡ some before
  found : (tick : ℕ) → get m (length bytes) tick before ≡ (some k, after)
  waits : At (Waits bytes order) m (length bytes) k after

-- All buffers are as the delivery leaves them: the one that was used is empty again.
abbrev pub Emptied : (m cb_msg k : ℕ) → Endpoint → Type 0
Emptied m cb_msg k e =
    (bs : List Msgb) × (e.bits ≡ 0) × (e.msgbs ≡ some bs) × At (λ b. b.bits ≡ no_bits) m cb_msg k bs

module _ (on_user_data : ℕ → List ℕ → ℕ) (partial type m k : ℕ) (bytes : List ℕ) where
  abbrev pub stored_reply : Reply
  stored_reply = record { status = partial; delivered = none }

  abbrev pub last_reply : Reply
  last_reply = record { status = on_user_data type bytes; delivered = some (type, bytes) }

  arrive-Pending :
      (now i : ℕ) (rest : List (ℕ × ℕ)) (e : Endpoint)
      → Pending bytes m k (i ∷ indices rest) e
      → Distinct (i ∷ indices rest)
      → Incomplete (length bytes) (i ∷ indices rest)
      → sizes (length bytes) (i ∷ indices rest) < ulong_mod
      → (e' : Endpoint) × (arrive
            (on_data_with on_user_data partial)
            (packets type m bytes ((now, i) ∷ rest))
            e
          ≡ (replicate (length rest) stored_reply ++ last_reply ∷ [], e'))
        × Emptied m (length bytes) k e'
  arrive-Pending now i [] e v d c small =
      let (e', bs', eq, eb, em, h) =
        on_data-At on_user_data (Waits bytes (i ∷ [])) (λ b. b.bits ≡ no_bits) partial now
          (fragment type m bytes i) last_reply e v.before v.after k
          (λ b w. receive-last on_user_data partial (now % ulong_mod) type m bytes i b c w) v.bits
          v.buffers (v.found _) v.waits in
      (e', arrive-cons _ now _ [] eq (arrive-nil _ e'), (bs', eb, em, h))
  arrive-Pending now i ((now', j) ∷ rest) e v d c small =
      let (e1, bs1, eq, eb, em, h) =
        on_data-At on_user_data (Waits bytes (i ∷ (j ∷ indices rest)))
          (Waits bytes (j ∷ indices rest)) partial now (fragment type m bytes i) stored_reply e
          v.before v.after k
          (λ b w.
            receive-partial on_user_data partial (now % ulong_mod) type m bytes i (j ∷ indices rest)
              b c.0 d.0 c.1 small w)
          v.bits v.buffers (v.found _) v.waits in
      let v1 : Pending bytes m k (j ∷ indices rest) e1 = record {
        bits = eb;
        before = bs1;
        after = bs1;
        buffers = em;
        found = λ tick. get-At m (length bytes) tick _ k bs1 h;
        waits = h;
      } in
      let (e2, eq2, done) = arrive-Pending now' j rest e1 v1 d.1 c.2 (omega arith) in
      (e2, arrive-cons _ now _ (packets type m bytes ((now', j) ∷ rest)) eq eq2, done)

-- A message that is in no buffer, when there is an empty one.
Pending-FirstFree :
    (bytes : List ℕ) (m k : ℕ) (order : List ℕ) (e : Endpoint) (bs : List Msgb)
    → e.bits ≡ 0
    → e.msgbs ≡ some bs
    → Absent m bs
    → FirstFree k bs
    → sizes (length bytes) order ≡ length bytes
    → ((j : ℕ) → j < length bytes → In (j / max_packet_size) order)
    → Pending bytes m k order e
Pending-FirstFree bytes m k order e bs eb em a f sum complete = record {
  bits = eb;
  before = bs;
  after = modify (assign m (length bytes)) k bs;
  buffers = em;
  found = λ tick. get-FirstFree m (length bytes) tick k bs a f;
  waits = At-assign bytes order m k bs sum complete a f;
}

-- remote camera/TUDP.cpp. An end with an empty buffer, no buffer of which has message `m`, is sent a
-- message of at most 64 full fragments, and no other fragment arrives in between. Whatever the order and
-- the times in which its fragments arrive, each once: every fragment but the last is taken with NOERROR;
-- with the last, OnUserData gets the message, byte for byte, and its status is returned; and the buffer is
-- empty again.
pub arrive-on_data_client :
    (on_user_data : ℕ → List ℕ → ℕ) (type m k : ℕ) (bytes : List ℕ) (e : Endpoint) (bs : List Msgb)
    (first : ℕ × ℕ) (rest : List (ℕ × ℕ))
    → e.bits ≡ 0
    → e.msgbs ≡ some bs
    → Absent m bs
    → FirstFree k bs
    → length bytes ≤ max_packet_size * max_fragments
    → Permᴰ (indices (first ∷ rest)) (range_from 0 (fragment_count bytes))
    → (e' : Endpoint) × (arrive
          (on_data_client on_user_data)
          (packets type m bytes (first ∷ rest))
          e
        ≡ (
          replicate (length rest) (record { status = noerror; delivered = none })
              ++ record { status = on_user_data type bytes; delivered = some (type, bytes) } ∷ [],
          e',
        ))
      × Emptied m (length bytes) k e'
unfolding on_data_client
arrive-on_data_client on_user_data type m k bytes e bs (now, i) rest eb em a f fits p =
    let arrival = Arrival-perm bytes (i ∷ indices rest) fits p in
    arrive-Pending on_user_data noerror type m k bytes now i rest e
      (Pending-FirstFree bytes m k _ e bs eb em a f arrival.sum arrival.complete) arrival.distinct
      arrival.incomplete (omega (arith, arrival.sum))
