-- ===== src/Dns.antt =====
-- Questions to a DNS server and its replies: DnsWriteQuestionToBuffer, IsNameValid
-- and CDnsSocket::OnRecv of asio/dns.cpp. The layout of a message (12 bytes of header, 4 of a question,
-- 10 of a record), the types of records and the limits of a name are those of windns.h. A result `none`
-- of a function on fuel says that the fuel ended first.
pub mod Lookup
pub mod Names
pub mod Questions
pub mod Asked
pub mod Room
pub mod Replies
pub mod First
pub mod Walked
pub mod Inside
pub mod Loops
pub mod Cache
mod Tests
use camera_udp.Base.{
  ℕ, zero, suc, ◌+◌, ◌-◌, ◌*◌, ◌/◌, ◌%◌, ◌^◌, Bool, true, false, not, ◌&&◌, ◌||◌, List, [], ◌∷◌,
  ◌++◌, Option, none, some, ltb, leb, ◌==◌, if◌then◌else◌, length, Memory, copy, read,
}
use camera_udp.Formats.{ulong_at, wchar_at}

-- NOERROR and the errors, DNS_ERROR_RESPONSE_CODES_BASE + n among them.
pub data Status : Type 0 where
  no_error : Status
  insufficient_buffer : Status
  invalid_name : Status
  bad_packet : Status
  server_failure : Status
  response_code : ℕ → Status

-- DNS_RTYPE_A, DNS_RTYPE_AAAA and DNS_RCLASS_INTERNET, as they stand in a message.
abbrev pub rtype_a : ℕ
rtype_a = 256

abbrev pub rtype_aaaa : ℕ
rtype_aaaa = 7168

abbrev pub rclass_internet : ℕ
rclass_internet = 256

-- _byteswap_ushort of the ushort at an address
abbrev pub net_ushort_at : Memory → ℕ → ℕ
net_ushort_at m at = 256 * m at + m (at + 1)

abbrev pub ushort_bytes : ℕ → List ℕ
ushort_bytes v = v % 256 ∷ v / 256 % 256 ∷ []

unfoldable pub prepend_label : (label : List ℕ) → Option (List ℕ) → Option (List ℕ)
prepend_label label none = none
prepend_label label (some bytes) = some ((length label ∷ label) ++ bytes)

-- The labels of a name, each with its length before it: `label` is what was written of the label under
-- way, and `cb` the room.
unfoldable pub write_labels : (cb : ℕ) (label psz_name : List ℕ) → Option (List ℕ)
write_labels cb label [] = some (length label ∷ label)
write_labels cb label (c ∷ psz_name) =
    let room = (cb + 2 ^ 32 - 1) % 2 ^ 32 in
    let next = prepend_label label (write_labels room [] psz_name) in
    let more = write_labels room (label ++ c ∷ []) psz_name in
    if c == 46 then next else if ltb 63 (length label + 1) || (room == 0) then none else more

unfoldable pub after_labels :
    (w_type xid : ℕ) (recursion_desired : Bool) → Option (List ℕ) → Status × List ℕ
after_labels w_type xid recursion_desired none = (invalid_name, [])
after_labels w_type xid recursion_desired (some labels) = (
  no_error,
  ushort_bytes xid
      ++ ((if recursion_desired then 1 else 0) ∷ 0 ∷ 0 ∷ 1 ∷ 0 ∷ 0 ∷ 0 ∷ 0 ∷ 0 ∷ 0 ∷ [])
      ++ labels
      ++ (0 ∷ [])
      ++ ushort_bytes w_type
      ++ ushort_bytes rclass_internet,
)

-- DnsWriteQuestionToBuffer, with the bytes that it writes when it succeeds. The size of the buffer is
-- compared with sizeof(DNS_RFC_MAX_UDP_PACKET_LENGTH), the size of an int.
unfoldable pub dns_write_question_to_buffer :
    (buffer_size : ℕ) (psz_name : List ℕ) (w_type xid : ℕ) (recursion_desired : Bool)
    → Status × List ℕ
unfolding after_labels
dns_write_question_to_buffer buffer_size psz_name w_type xid recursion_desired =
    if ltb buffer_size 4
    then (insufficient_buffer, [])
    else after_labels w_type xid recursion_desired (write_labels 254 [] psz_name)

-- What the caller of IsNameValid for a pointer does with its result.
unfoldable pub after_pointer : Option (ℕ × ℕ) → (start buf cb : ℕ) → Option (ℕ × ℕ)
after_pointer none start buf cb = none
after_pointer (some (left, at)) start buf cb = if left == 0 then some (0, start) else some (cb, buf)

unfoldable pub after_name : {R : Type 0} → Option (ℕ × ℕ) → (ℕ → ℕ → Option R) → Option R
after_name none next = none
after_name (some (left, at)) next = next left at

-- What a reply is asked for: the members of DCD.
pub record Dcd : Type 0 where
  pub xid : ℕ
  pub query_type : ℕ

-- The address that is given to OnIp.
pub data Address : Type 0 where
  ipv4 : ℕ → Address
  ipv6 : List ℕ → Address

unfoldable pub after_record :
    Option Address
    → (left : ℕ) → Option (Status × Option Address)
    → Option (Status × Option Address)
after_record (some address) left rest = some (no_error, some address)
after_record none left rest = if left == 0 then some (no_error, none) else rest

module _ (m : Memory) (base size : ℕ) where
  -- The loop of IsNameValid from `buf` on, in a message of `size` bytes at `base`: what is left of `cb`,
  -- and the new *pBuf, which was `start`. A call for a pointer has the same fuel.
  unfoldable pub walk_name : (fuel start buf cb : ℕ) → Option (ℕ × ℕ)
  walk_name zero start buf cb = none
  walk_name (suc fuel) start buf cb =
      let c = m buf in
      let rest = walk_name fuel start (buf + 1 + c) (cb - 1 - c) in
      if cb == 0
      then some (0, buf)
      else if c == 0
      then some (cb - 1, buf + 1)
      else if c / 64 == 3
      then (if cb == 1
          then some (0, start)
          else let ofs = (m (buf + 1) + 256 * c) % 1024 in
            if leb size ofs
            then some (0, start)
            else after_pointer (walk_name fuel (base + ofs) (base + ofs) (size - ofs)) start
                (buf + 2) (cb - 2))
      else if ltb (cb - 1) c
      then some (0, start)
      else rest

  abbrev pub is_name_valid : (fuel buf cb : ℕ) → Option (ℕ × ℕ)
  is_name_valid fuel buf cb = walk_name fuel buf buf cb

  -- The address in a record of the type that was asked for.
  unfoldable pub address_in : (record_type at data_length : ℕ) → Option Address
  address_in record_type at data_length =
      if record_type == rtype_a
      then (if (data_length == 4) && not (ulong_at m at == 0)
          then some (ipv4 (ulong_at m at))
          else none)
      else if (record_type == rtype_aaaa) && (data_length == 16)
      then some (ipv6 (read m at 16))
      else none

  -- The address that a record gives, if its type is the one of the query.
  unfoldable pub take_record : (query_type record_type at data_length : ℕ) → Option Address
  unfolding address_in
  take_record query_type record_type at data_length =
      if query_type == record_type then address_in record_type at data_length else none

  -- The record behind a name, with `left` bytes from `pos` on, and what comes after it.
  unfoldable pub read_answer :
      (query_type : ℕ) (next : ℕ → ℕ → Option (Status × Option Address)) (left pos : ℕ)
      → Option (Status × Option Address)
  read_answer query_type next left pos =
      let data_length = net_ushort_at m (pos + 8) in
      let body = pos + 10 in
      let more = left - 10 - data_length in
      if ltb left 10 || ltb (left - 10) data_length
      then some (bad_packet, none)
      else after_record (take_record query_type (wchar_at m pos) body data_length) more
          (next (body + data_length) more)

  -- while (Length && --AnswerCount)
  unfoldable pub read_answers :
      (fuel query_type answer_count at length : ℕ) → Option (Status × Option Address)
  read_answers fuel query_type zero at length = some (no_error, none)
  read_answers fuel query_type (suc answer_count) at length =
      after_name (is_name_valid fuel at length)
        (read_answer query_type (read_answers fuel query_type answer_count))

-- CDnsSocket::OnRecv of a message, with the address that is given to OnIp.
unfoldable pub on_recv :
    Memory → (fuel dns_buffer message_length : ℕ) → Dcd → Option (Status × Option Address)
on_recv m fuel dns_buffer message_length q =
    let code = m (dns_buffer + 3) % 16 in
    let answer_count = net_ushort_at m (dns_buffer + 6) in
    let answers =
      after_name
        (is_name_valid m dns_buffer message_length fuel (dns_buffer + 12) (message_length - 12))
        (λ left at.
          if ltb left 4
          then some (bad_packet, none)
          else read_answers m dns_buffer message_length fuel q.query_type answer_count (at + 4)
              (left - 4)) in
    if ltb message_length 12
    then some (insufficient_buffer, none)
    else if not (code == 0)
    then some (response_code code, none)
    else if not (wchar_at m dns_buffer == q.xid)
    then some (bad_packet, none)
    else if answer_count == 0
    then some (server_failure, none)
    else answers
