-- ===== src/Dns/Inside.antt =====
-- The answer of OnRecv depends on the message alone.
use camera_udp.Base.{
  ℕ, zero, suc, ◌+◌, ◌-◌, ◌%◌, ◌≤◌, ◌<◌, ◌≡◌, refl, sym, ap, ap₂, ◌∙◌, ◌⊎◌, inl, inr, not, ◌&&◌,
  Option, none, some, arith, ltb, ◌==◌, Memory, read-congr, if◌then◌else◌, Bool-cases,
}
use camera_udp.Formats.{wchar_at, ulong_at}
use camera_udp.Listing.Ranges.{ulong_at-eq}
use camera_udp.Dns.{
  Status, bad_packet, server_failure, response_code, Address, ipv4, ipv6, Dcd, net_ushort_at,
  is_name_valid, address_in, take_record, after_name, after_record, read_answer, read_answers,
  on_recv,
}
-- What is left ends where the message did.
use camera_udp.Dns.Walked.{Left-walk_name, after_name-eq, walk_name-same}

module _ (m m' : Memory) (base size : ℕ)
    (same : (i : ℕ) → base ≤ i → i < base + size → m i ≡ m' i) where
  address_in-same :
      (record_type at data_length : ℕ)
      → base ≤ at
      → at + data_length ≤ base + size
      → address_in m base size record_type at data_length
        ≡ address_in m' base size record_type at data_length
  unfolding address_in
  address_in-same record_type at data_length low high = elim (Bool-cases (record_type == 256)) [
    | inl e0 ↦ elim (Bool-cases (data_length == 4)) [
      | inl e1 ↦
          let words : ulong_at m at ≡ ulong_at m' at =
            ulong_at-eq m' m at (λ i p q. same i (omega arith) (ground (arith, e1))) in
          rw (e0, e1) (ap (λ w. if not (w == 0) then some (ipv4 w) else none) words)
      | inr e1 ↦ rw (e0, e1) refl
    ]
    | inr e0 ↦ elim (Bool-cases ((record_type == 7168) && (data_length == 16))) [
      | inl e1 ↦
          rw (e0, e1)
            (ap (λ bytes. some (ipv6 bytes))
              (read-congr m m' at 16 (λ i p q. same i (omega arith) (ground (arith, e1)))))
      | inr e1 ↦ rw (e0, e1) refl
    ]
  ]

  take_record-same :
      (query_type record_type at data_length : ℕ)
      → base ≤ at
      → at + data_length ≤ base + size
      → take_record m base size query_type record_type at data_length
        ≡ take_record m' base size query_type record_type at data_length
  unfolding take_record
  take_record-same query_type record_type at data_length low high =
      elim (Bool-cases (query_type == record_type)) [
        | inl e ↦ rw e (address_in-same record_type at data_length low high)
        | inr e ↦ rw e refl
      ]

  read_answer-same :
      (query_type at room left pos : ℕ) (next next' : ℕ → ℕ → Option (Status × Option Address))
      → base ≤ at
      → at + room ≤ base + size
      → (left ≡ 0) ⊎ ((pos + left ≡ at + room) × (at ≤ pos))
      → ((a n : ℕ) → base ≤ a → a + n ≤ base + size → next a n ≡ next' a n)
      → read_answer m base size query_type next left pos
        ≡ read_answer m' base size query_type next' left pos
  unfolding read_answer
  read_answer-same query_type at room left pos next next' low high (inl e) same_next = rw e refl
  read_answer-same query_type at room left pos next next' low high (inr (e, forth)) same_next =
      elim (Bool-cases (ltb left 10)) [
        | inl e0 ↦ rw e0 refl
        | inr e0 ↦
            let behind : 10 ≤ left = ground (arith, e0) in
            let type : wchar_at m' pos ≡ wchar_at m pos = omega (
              arith,
              same pos (omega arith) (omega arith),
              same (pos + 1) (omega arith) (omega arith),
            ) in
            let eight : m' (pos + 8) ≡ m (pos + 8) =
              sym (same (pos + 8) (omega arith) (omega arith)) in
            let nine : m' (pos + 8 + 1) ≡ m (pos + 8 + 1) =
              sym (same (pos + 8 + 1) (omega arith) (omega arith)) in
            let data_length = net_ushort_at m (pos + 8) in
            rw (e0, type, eight, nine)
              (elim (Bool-cases (ltb (left - 10) data_length)) [
                | inl e1 ↦ rw e1 refl
                | inr e1 ↦
                    let body : data_length ≤ left - 10 = ground (arith, e1) in
                    rw e1 (
                      ap₂ (λ o rest. after_record o (left - 10 - data_length) rest)
                        (take_record-same query_type (wchar_at m pos) (pos + 10) data_length
                          (omega arith) (omega (arith, body)))
                        (same_next (pos + 10 + data_length) (left - 10 - data_length) (omega arith)
                          (omega (arith, body))))
              ])
      ]

  read_answers-same :
      (fuel query_type count at left : ℕ)
      → base ≤ at
      → at + left ≤ base + size
      → read_answers m base size fuel query_type count at left
        ≡ read_answers m' base size fuel query_type count at left
  unfolding read_answers
  read_answers-same fuel query_type zero at left low high = refl
  read_answers-same fuel query_type (suc count) at left low high =
      ap
        (λ o.
          after_name o
            (read_answer m base size query_type (read_answers m base size fuel query_type count)))
        (walk_name-same m m' base size same fuel at at left low high)
      ∙ after_name-eq at left (is_name_valid m' base size fuel at left) _ _
          (Left-walk_name m' base size fuel at at left)
          (λ n pos l.
            read_answer-same query_type at left n pos _ _ low high l
              (λ a k p q. read_answers-same fuel query_type count a k p q))

after_question :
    (buffer size n at : ℕ)
    → 12 ≤ size
    → 4 ≤ n
    → (n ≡ 0) ⊎ ((at + n ≡ buffer + 12 + (size - 12)) × (buffer + 12 ≤ at))
    → (buffer ≤ at + 4) × (at + 4 + (n - 4) ≤ buffer + size)
after_question buffer size n at header long (inl e) = absurd (omega arith)
after_question buffer size n at header long (inr (e, le)) = (omega arith, omega arith)

-- The answer of OnRecv depends on the bytes of the message alone: it is the same in all memories that
-- hold the message.
pub on_recv_by_message :
    (m m' : Memory) (fuel buffer size : ℕ) (q : Dcd)
    → ((i : ℕ) → buffer ≤ i → i < buffer + size → m i ≡ m' i)
    → on_recv m fuel buffer size q ≡ on_recv m' fuel buffer size q
unfolding on_recv
on_recv_by_message m m' fuel buffer size q same = elim (Bool-cases (ltb size 12)) [
  | inl e0 ↦ rw e0 refl
  | inr e0 ↦
      let header : 12 ≤ size = ground (arith, e0) in
      let flags : m' (buffer + 3) ≡ m (buffer + 3) =
        sym (same (buffer + 3) (omega arith) (omega arith)) in
      let id : wchar_at m' buffer ≡ wchar_at m buffer = omega (
        arith,
        same buffer (omega arith) (omega arith),
        same (buffer + 1) (omega arith) (omega arith),
      ) in
      let six : m' (buffer + 6) ≡ m (buffer + 6) =
        sym (same (buffer + 6) (omega arith) (omega arith)) in
      let seven : m' (buffer + 6 + 1) ≡ m (buffer + 6 + 1) =
        sym (same (buffer + 6 + 1) (omega arith) (omega arith)) in
      let names =
        walk_name-same m m' buffer size same fuel (buffer + 12) (buffer + 12) (size - 12)
          (omega arith) (omega arith) in
      let left = Left-walk_name m' buffer size fuel (buffer + 12) (buffer + 12) (size - 12) in
      rw (e0, flags, id, six, seven, names)
        (ap
          (λ o.
            if not (m (buffer + 3) % 16 == 0)
            then some (response_code (m (buffer + 3) % 16), none)
            else if not (wchar_at m buffer == q.xid)
            then some (bad_packet, none)
            else if net_ushort_at m (buffer + 6) == 0
            then some (server_failure, none)
            else o)
          (after_name-eq (buffer + 12) (size - 12)
            (is_name_valid m' buffer size fuel (buffer + 12) (size - 12)) _ _ left
            (λ n at l. elim (Bool-cases (ltb n 4)) [
              | inl e1 ↦ rw e1 refl
              | inr e1 ↦
                  let long : 4 ≤ n = ground (arith, e1) in
                  rw e1 (
                    read_answers-same m m' buffer size same fuel q.query_type
                      (net_ushort_at m (buffer + 6)) (at + 4) (n - 4)
                      (after_question buffer size n at header long l).0
                      (after_question buffer size n at header long l).1)
            ])))
]
