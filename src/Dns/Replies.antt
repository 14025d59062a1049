-- ===== src/Dns/Replies.antt =====
-- Replies as a question and records, and OnRecv at them.
use camera_udp.Base.{
  inl, inr, ℕ, ◌+◌, ◌-◌, ◌*◌, ◌%◌, ◌≤◌, ◌<◌, ◌≡◌, refl, inl, inr, false, ◌||◌, List, [], ◌∷◌,
  length, Option, none, some, arith, ltb, ◌==◌, Memory, ==_of_eq, Bool-cases,
}
use camera_udp.Formats.{wchar_at}
use camera_udp.Dns.{
  Status, no_error, Address, Dcd, net_ushort_at, take_record, after_name, after_record, read_answer,
  read_answers, on_recv,
}
use camera_udp.Dns.Names.{NameAt, NameAt-lt, is_name_valid-NameAt}

-- A record of a reply: where its name ends, its type and the size of its data.
pub record Answer : Type 0 where
  pub name_end : ℕ
  pub record_type : ℕ
  pub data_length : ℕ

module _ (m : Memory) (base size : ℕ) where
  pub record AnswerAt (limit at : ℕ) (r : Answer) : Type 0 where
    pub depth : ℕ
    pub few : depth ≤ limit
    pub name : NameAt m base size depth at r.name_end
    pub type : wchar_at m r.name_end ≡ r.record_type
    pub body_size : net_ushort_at m (r.name_end + 8) ≡ r.data_length

  -- Records one behind the other, with names of at most `limit` steps.
  abbrev pub AnswersAt : (limit at : ℕ) → List Answer → ℕ → Type 0
  AnswersAt limit at [] end = at ≡ end
  AnswersAt limit at (r ∷ rs) end =
      AnswerAt limit at r × AnswersAt limit (r.name_end + 10 + r.data_length) rs end

  -- The address of the first record of the type that has one.
  abbrev pub first_address : (query_type : ℕ) → List Answer → Option Address
  first_address query_type [] = none
  first_address query_type (r ∷ rs) =
      elim (take_record m base size query_type r.record_type (r.name_end + 10) r.data_length) [
        | some address ↦ some address
        | none ↦ first_address query_type rs
      ]

  AnswersAt-le :
      (limit at : ℕ) (rs : List Answer) (end : ℕ)
      → AnswersAt limit at rs end
      → at + 11 * length rs ≤ end
  AnswersAt-le limit at [] end e = omega arith
  AnswersAt-le limit at (r ∷ rs) end (a, h) = omega (
    arith,
    NameAt-lt m base size a.depth at r.name_end a.name,
    AnswersAt-le limit (r.name_end + 10 + r.data_length) rs end h,
  )

  -- The loop goes on only where there is another record.
  after_record-AnswersAt :
      (limit query_type at left : ℕ) (rs : List Answer) (end : ℕ) (o : Option Address)
      (rest : Option (Status × Option Address))
      → AnswersAt limit at rs end
      → end ≤ at + left
      → rest ≡ some (no_error, first_address query_type rs)
      → after_record o left rest
        ≡ some
            (no_error, elim o [ some address ↦ some address | none ↦ first_address query_type rs ])
  unfolding after_record
  after_record-AnswersAt limit query_type at left rs end (some address) rest h le e = refl
  after_record-AnswersAt limit query_type at left [] end none rest h le e =
      elim (Bool-cases (left == 0)) [ inl z ↦ rw z refl | inr z ↦ rw z e ]
  after_record-AnswersAt limit query_type at left (r ∷ rs) end none rest h le e =
      let longer = AnswersAt-le limit at (r ∷ rs) end h in
      let more : (left == 0) ≡ false = ground (arith, longer) in rw more e

  read_answers-AnswersAt :
      (fuel query_type at left : ℕ) (rs : List Answer) (end : ℕ)
      → AnswersAt fuel at rs end
      → end ≤ at + left
      → read_answers m base size fuel query_type (length rs) at left
        ≡ some (no_error, first_address query_type rs)
  unfolding read_answers read_answer after_name
  read_answers-AnswersAt fuel query_type at left [] end h le = refl
  read_answers-AnswersAt fuel query_type at left (r ∷ rs) end (a, h) le =
      let next = r.name_end + 10 + r.data_length in
      let longer = AnswersAt-le fuel next rs end h in
      let forth = NameAt-lt m base size a.depth at r.name_end a.name in
      let found =
        is_name_valid-NameAt m base size fuel a.depth at r.name_end left a.name a.few
          (omega (arith, longer)) in
      let behind = at + left - r.name_end in
      let room : (ltb behind 10 || ltb (behind - 10) r.data_length) ≡ false =
        ground (arith, longer, forth) in
      rw (found, a.body_size, room, a.type)
        (after_record-AnswersAt fuel query_type next (behind - 10 - r.data_length) rs end
          (take_record m base size query_type r.record_type (r.name_end + 10) r.data_length) _ h
          (omega (arith, longer, forth))
          (read_answers-AnswersAt fuel query_type next (behind - 10 - r.data_length) rs end h
            (omega (arith, longer, forth))))

-- A message of `size` bytes at `buffer` that answers the query, with its records.
pub record IsReply (m : Memory) (fuel buffer size : ℕ) (q : Dcd) (rs : List Answer) : Type 0 where
  pub success : m (buffer + 3) % 16 ≡ 0
  pub same_xid : wchar_at m buffer ≡ q.xid
  pub count : net_ushort_at m (buffer + 6) ≡ length rs
  pub depth : ℕ
  pub few : depth ≤ fuel
  pub question_end : ℕ
  pub question : NameAt m buffer size depth (buffer + 12) question_end
  pub records_end : ℕ
  pub records : AnswersAt m buffer size fuel (question_end + 4) rs records_end
  pub inside : records_end ≤ buffer + size

pub on_recv-first_address :
    (m : Memory) (fuel buffer size : ℕ) (q : Dcd) (rs : List Answer)
    → IsReply m fuel buffer size q rs
    → 0 < length rs
    → on_recv m fuel buffer size q ≡ some (no_error, first_address m buffer size q.query_type rs)
unfolding on_recv after_name
on_recv-first_address m fuel buffer size q rs h pos =
    let inside = h.inside in
    let longer = AnswersAt-le m buffer size fuel (h.question_end + 4) rs h.records_end h.records in
    let forth = NameAt-lt m buffer size h.depth (buffer + 12) h.question_end h.question in
    let long : ltb size 12 ≡ false = ground (arith, inside, longer, forth) in
    let count = h.count in
    let some_answer : (net_ushort_at m (buffer + 6) == 0) ≡ false = ground (arith, count) in
    let found =
      is_name_valid-NameAt m buffer size fuel h.depth (buffer + 12) h.question_end (size - 12)
        h.question h.few (omega (arith, inside, longer, forth)) in
    let left = buffer + 12 + (size - 12) - h.question_end in
    let room : ltb left 4 ≡ false = ground (arith, inside, longer, forth) in
    rw (long, ==_of_eq h.success, ==_of_eq h.same_xid, some_answer, found, room, count)
      (read_answers-AnswersAt m buffer size fuel q.query_type (h.question_end + 4) (left - 4) rs
        h.records_end h.records (omega (arith, inside, longer, forth)))
