-- ===== src/Dns/Asked.antt =====
-- The question that DnsWriteQuestionToBuffer writes, and how long it is.
use camera_udp.Base.{
  ℕ, zero, suc, ◌+◌, ◌-◌, ◌%◌, ◌^◌, ◌≤◌, ◌<◌, ◌≡◌, refl, sym, ap₂, ◌∙◌, subst, Bool, false, List,
  [], ◌∷◌, ◌++◌, length, length-append, get_or, some, arith, ltb, Memory, if◌then◌else◌,
}
use camera_udp.Formats.{wchar_at}
use camera_udp.Listing.Ranges.{Holds, Holds-append}
use camera_udp.Dns.{
  Status, no_error, net_ushort_at, ushort_bytes, rclass_internet, after_labels,
  dns_write_question_to_buffer, is_name_valid,
}
use camera_udp.Dns.Names.{NameAt, is_name_valid-NameAt}
use camera_udp.Dns.Questions.{
  AreLabels, labels_size, dotted, labels_bytes, write_labels-dotted, NameAt-labels,
}

length-labels_bytes : (ls : List (List ℕ)) → length (labels_bytes ls) ≡ labels_size ls
length-labels_bytes [] = refl
length-labels_bytes (l ∷ ls) =
    omega (arith, length-append (length l ∷ l) (labels_bytes ls), length-labels_bytes ls)

-- A message of `size` bytes that asks for the records of a type, of the name that ends at `name_end`.
pub record IsQuestion (m : Memory) (fuel buffer size w_type xid : ℕ) : Type 0 where
  pub same_xid : wchar_at m buffer ≡ xid
  pub success : m (buffer + 3) % 16 ≡ 0
  pub one : net_ushort_at m (buffer + 4) ≡ 1
  pub no_answer : net_ushort_at m (buffer + 6) ≡ 0
  pub name_end : ℕ
  pub depth : ℕ
  pub few : depth ≤ fuel
  pub name : NameAt m buffer size depth (buffer + 12) name_end
  pub type : wchar_at m name_end ≡ w_type
  pub class : wchar_at m (name_end + 2) ≡ rclass_internet
  pub all : name_end + 4 ≡ buffer + size

abbrev pub header : (xid : ℕ) (recursion_desired : Bool) → List ℕ
header xid recursion_desired =
    ushort_bytes xid
    ++ ((if recursion_desired then 1 else 0) ∷ 0 ∷ 0 ∷ 1 ∷ 0 ∷ 0 ∷ 0 ∷ 0 ∷ 0 ∷ 0 ∷ [])

Holds-get_or :
    (m : Memory) (at : ℕ) (bs : List ℕ)
    → Holds m at bs
    → (i : ℕ) → i < length bs
    → m (at + i) ≡ get_or bs i 0
Holds-get_or m at [] h i lt = absurd (omega arith)
Holds-get_or m at (b ∷ bs) (e, h) zero lt =
    let z : at ≡ at + 0 = omega arith in subst (λ p. m p ≡ b) z e
Holds-get_or m at (b ∷ bs) (e, h) (suc i) lt =
    let there : at + 1 + i ≡ at + suc i = omega arith in
    subst (λ p. m p ≡ get_or bs i 0) there (Holds-get_or m (at + 1) bs h i (omega arith))

wchar_at-Holds :
    (m : Memory) (at v : ℕ) → v < 2 ^ 16 → Holds m at (ushort_bytes v) → wchar_at m at ≡ v
wchar_at-Holds m at v lt (a, (b, _)) = omega (arith, a, b)

abbrev question : (w_type xid : ℕ) (rd : Bool) (ls : List (List ℕ)) → List ℕ
question w_type xid rd ls =
    header xid rd
    ++ labels_bytes ls
    ++ (0 ∷ [])
    ++ ushort_bytes w_type
    ++ ushort_bytes rclass_internet

pub length-parts :
    (start body a b : List ℕ)
    → length (start ++ body ++ (0 ∷ []) ++ a ++ b)
      ≡ length start + length body + 1 + length a + length b
length-parts start body a b = omega (
  arith,
  length-append (start ++ body ++ (0 ∷ []) ++ a) b,
  length-append (start ++ body ++ 0 ∷ []) a,
  length-append (start ++ body) (0 ∷ []),
  length-append start body,
)

length-question :
    (w_type xid : ℕ) (rd : Bool) (ls : List (List ℕ))
    → length (question w_type xid rd ls) ≡ labels_size ls + 17
length-question w_type xid rd ls = omega (
  arith,
  length-parts (header xid rd) (labels_bytes ls) (ushort_bytes w_type)
      (ushort_bytes rclass_internet),
  length-labels_bytes ls,
)

IsQuestion-written :
    (m : Memory) (fuel buffer w_type xid : ℕ) (rd : Bool) (ls : List (List ℕ)) (size : ℕ)
    → w_type < 2 ^ 16
    → xid < 2 ^ 16
    → AreLabels ls
    → size ≡ labels_size ls + 17
    → length ls < fuel
    → Holds m buffer (question w_type xid rd ls)
    → IsQuestion m fuel buffer size w_type xid
IsQuestion-written m fuel buffer w_type xid rd ls size small few a e enough h =
    let start = header xid rd in
    let body = labels_bytes ls in
    let n = length-labels_bytes ls in
    let p1 = start ++ body in
    let p2 = p1 ++ 0 ∷ [] in
    let p3 = p2 ++ ushort_bytes w_type in
    let l1 = length-append start body in
    let l2 = length-append p1 (0 ∷ []) in
    let l3 = length-append p2 (ushort_bytes w_type) in
    let (h3, class) = Holds-append m buffer p3 (ushort_bytes rclass_internet) h in
    let (h2, type) = Holds-append m buffer p2 (ushort_bytes w_type) h3 in
    let (h1, zero_byte) = Holds-append m buffer p1 (0 ∷ []) h2 in
    let (first, names) = Holds-append m buffer start body h1 in
    let byte = λ (i : ℕ). λ (lt : i < 12). Holds-get_or m buffer start first i lt in
    let e5 : buffer + 5 ≡ buffer + 4 + 1 = omega arith in
    let five = subst (λ p. m p ≡ 1) e5 (byte 5 (omega arith)) in
    let e7 : buffer + 7 ≡ buffer + 6 + 1 = omega arith in
    let seven = subst (λ p. m p ≡ 0) e7 (byte 7 (omega arith)) in
    let name_end = buffer + 12 + labels_size ls + 1 in
    record {
      same_xid = omega (arith, byte 1 (omega arith), first.0);
      success = omega (arith, byte 3 (omega arith));
      one = omega (arith, byte 4 (omega arith), five);
      no_answer = omega (arith, byte 6 (omega arith), seven);
      name_end = name_end;
      depth = suc (length ls);
      few = omega arith;
      name =
          NameAt-labels m buffer size (buffer + 12) ls a names
            (subst (λ p. m p ≡ 0) (omega (arith, l1, n)) zero_byte.0);
      type =
          subst (λ p. wchar_at m p ≡ w_type) (omega (arith, l1, l2, n))
            (wchar_at-Holds m (buffer + length p2) w_type small type);
      class =
          subst (λ p. wchar_at m p ≡ rclass_internet) (omega (arith, l1, l2, l3, n))
            (wchar_at-Holds m (buffer + length p3) rclass_internet (omega arith) class);
      all = omega arith;
    }

is_name_valid-IsQuestion :
    (m : Memory) (fuel buffer size w_type xid : ℕ)
    → IsQuestion m fuel buffer size w_type xid
    → 16 ≤ size
    → is_name_valid m buffer size fuel (buffer + 12) (size - 12) ≡ some (4, buffer + size - 4)
is_name_valid-IsQuestion m fuel buffer size w_type xid q le =
    let all = q.all in
    is_name_valid-NameAt m buffer size fuel q.depth (buffer + 12) q.name_end (size - 12) q.name
      q.few (omega arith)
    ∙ ap₂ (λ k a. some (k, a)) (omega arith) (omega arith)

dns_write_question_to_buffer-question :
    (buffer_size w_type xid : ℕ) (rd : Bool) (l : List ℕ) (ls : List (List ℕ))
    → 4 ≤ buffer_size
    → AreLabels (l ∷ ls)
    → labels_size (l ∷ ls) ≤ 254
    → dns_write_question_to_buffer buffer_size (dotted (l ∷ ls)) w_type xid rd
      ≡ (no_error, question w_type xid rd (l ∷ ls))
unfolding dns_write_question_to_buffer after_labels
dns_write_question_to_buffer-question buffer_size w_type xid rd l ls fits a room =
    let large : ltb buffer_size 4 ≡ false = ground arith in
    rw (large, write_labels-dotted 254 l ls a room (omega arith)) refl

-- A result is a question with the Xid and the type, and IsNameValid takes its name and leaves the four
-- bytes of the type and the class.
abbrev pub Asks : (m : Memory) (fuel buffer w_type xid length_labels : ℕ) → Status × List ℕ → Type 0
Asks m fuel buffer w_type xid length_labels (status, bytes) =
    (status ≡ no_error)
    × (length bytes ≡ length_labels + 17)
    × IsQuestion m fuel buffer (length bytes) w_type xid
    × (is_name_valid m buffer (length bytes) fuel (buffer + 12) (length bytes - 12)
        ≡ some (4, buffer + length bytes - 4))

-- For a name of one label or more, in at most 254 bytes with their lengths, DnsWriteQuestionToBuffer
-- succeeds, and what it writes is a question of the type and with the Xid; IsNameValid takes its name
-- and leaves the four bytes of the type and the class.
pub dns_write_question_to_buffer-Asks :
    (buffer_size w_type xid : ℕ) (rd : Bool) (l : List ℕ) (ls : List (List ℕ)) (m : Memory)
    (buffer fuel : ℕ)
    → 4 ≤ buffer_size
    → w_type < 2 ^ 16
    → xid < 2 ^ 16
    → AreLabels (l ∷ ls)
    → labels_size (l ∷ ls) ≤ 254
    → length (l ∷ ls) < fuel
    → Holds m buffer (dns_write_question_to_buffer buffer_size (dotted (l ∷ ls)) w_type xid rd).1
    → Asks m fuel buffer w_type xid
        (labels_size (l ∷ ls))
        (dns_write_question_to_buffer buffer_size (dotted (l ∷ ls)) w_type xid rd)
dns_write_question_to_buffer-Asks buffer_size w_type xid rd l ls m buffer fuel fits small few a room
      enough h =
    let made = dns_write_question_to_buffer-question buffer_size w_type xid rd l ls fits a room in
    let bytes = question w_type xid rd (l ∷ ls) in
    let n = length-question w_type xid rd (l ∷ ls) in
    let asked =
      IsQuestion-written m fuel buffer w_type xid rd (l ∷ ls) (length bytes) small few a n enough
        (subst (λ r. Holds m buffer r.1) made h) in
    subst (Asks m fuel buffer w_type xid (labels_size (l ∷ ls))) (sym made) (
      refl,
      n,
      asked,
      is_name_valid-IsQuestion m fuel buffer (length bytes) w_type xid asked (omega (arith, n)),
    )
