-- ===== src/Dns/Room.antt =====
-- How many bytes a question takes.
use camera_udp.Base.{
  ℕ, suc, ◌+◌, ◌-◌, ◌%◌, ◌^◌, ◌≤◌, ◌≡◌, refl, sym, ap, ◌∙◌, subst, Bool, true, false, ◌||◌, List,
  [], ◌∷◌, ◌++◌, length, length-append, Option, none, some, arith, ltb, ◌==◌, inl, inr, Bool-cases,
}
use mathlib.Core.Bool.{true≢false}
use camera_udp.Dns.{
  ushort_bytes, rclass_internet, prepend_label, write_labels, after_labels,
  dns_write_question_to_buffer,
}
use camera_udp.Dns.Lookup.{CrcIpTime, Lookup, failed, asking, dns_to_ip}
use camera_udp.Dns.Asked.{header, length-parts}

zero_add : (n : ℕ) → 0 + n ≡ n
zero_add n = omega arith

abbrev Longer : ℕ → Option (List ℕ) → Type 0
Longer n none = Unit {0}
Longer n (some bytes) = length bytes ≡ n + 1

Longer-prepend_label :
    (n : ℕ) (l : List ℕ) (o : Option (List ℕ))
    → Longer n o
    → Longer (length l + n + 1) (prepend_label l o)
unfolding prepend_label
Longer-prepend_label n l none h = tt
Longer-prepend_label n l (some bytes) h = omega (arith, h, length-append (length l ∷ l) bytes)

Longer-write_labels :
    (cb : ℕ) (l name : List ℕ) → Longer (length l + length name) (write_labels cb l name)
unfolding write_labels
Longer-write_labels cb l [] = omega arith
Longer-write_labels cb l (c ∷ name) =
    let room = (cb + 2 ^ 32 - 1) % 2 ^ 32 in
    let grown = length-append l (c ∷ []) in
    let e : length (l ++ c ∷ []) + length name ≡ length l + suc (length name) =
      omega (arith, grown) in
    let e' : length l + length name + 1 ≡ length l + suc (length name) = omega arith in
    elim (Bool-cases (c == 46)) [
      | inl d ↦ rw d (
          subst (λ n. Longer n (prepend_label l (write_labels room [] name))) e'
            (Longer-prepend_label (length name) l (write_labels room [] name) (
              subst (λ n. Longer n (write_labels room [] name)) (zero_add (length name))
                (Longer-write_labels room [] name))))
      | inr d ↦ elim (Bool-cases (ltb 63 (length l + 1) || (room == 0))) [
        | inl f ↦ rw (d, f) tt
        | inr f ↦
            rw (d, f)
              (subst (λ n. Longer n (write_labels room (l ++ c ∷ []) name)) e
                (Longer-write_labels room (l ++ c ∷ []) name))
      ]
    ]

length-dns_write_question_to_buffer :
    (buffer_size : ℕ) (psz_name : List ℕ) (w_type xid : ℕ) (rd : Bool)
    → length (dns_write_question_to_buffer buffer_size psz_name w_type xid rd).1
      ≤ length psz_name + 18
unfolding dns_write_question_to_buffer
length-dns_write_question_to_buffer buffer_size psz_name w_type xid rd =
    elim (Bool-cases (ltb buffer_size 4)) [
      | inl e ↦ rw e (omega arith)
      | inr e ↦ rw e (go (write_labels 254 [] psz_name) (Longer-write_labels 254 [] psz_name))
    ]
  where
    go :
        (o : Option (List ℕ))
        → Longer (0 + length psz_name) o
        → length (after_labels w_type xid rd o).1 ≤ length psz_name + 18
    go none h = omega arith
    go (some bytes) h = omega (
      arith,
      h,
      length-parts (header xid rd) bytes (ushort_bytes w_type) (ushort_bytes rclass_internet),
    )

abbrev is_asking : Lookup → Bool
is_asking (asking crc) = true
is_asking other = false

-- The question for a name that DnsToIp asks the servers for fits the 512 bytes of its packet: where the
-- call succeeds, it writes at most 273.
asked_question_fits :
    (ipv4_of : List ℕ → Option ℕ) (ipv6_of : List ℕ → Option (List ℕ)) (cache : ℕ → CrcIpTime)
    (tick : ℕ) (granted : Bool) (dns : List ℕ) (query_type crc xid : ℕ) (rd : Bool)
    → dns_to_ip ipv4_of ipv6_of cache tick granted dns query_type ≡ asking crc
    → length (dns_write_question_to_buffer 512 dns query_type xid rd).1 ≤ 273
unfolding dns_to_ip
asked_question_fits ipv4_of ipv6_of cache tick granted dns query_type crc xid rd h =
    elim (Bool-cases (ltb 255 (length dns))) [
      | inl e ↦
          let refused : dns_to_ip ipv4_of ipv6_of cache tick granted dns query_type ≡ failed =
            rw e refl in
          absurd (true≢false (sym (ap is_asking h) ∙ ap is_asking refused))
      | inr e ↦
          let short : length dns ≤ 255 = ground (arith, e) in
          omega (arith, length-dns_write_question_to_buffer 512 dns query_type xid rd)
    ]
