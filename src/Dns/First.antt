-- ===== src/Dns/First.antt =====
-- The address that OnRecv takes of a reply.
use camera_udp.Base.{
  ◌⊎◌, ◌≢◌, read, inl, inr, ℕ, ◌+◌, ◌<◌, ◌≡◌, refl, inl, inr, List, [], ◌∷◌, length, Option, none,
  some, arith, ◌==◌, Memory, Bool-cases,
}
use camera_udp.Formats.{ulong_at}
use camera_udp.Dns.{
  no_error, Address, Dcd, take_record, address_in, rtype_a, rtype_aaaa, ipv4, ipv6, on_recv,
}
use camera_udp.Dns.Replies.{Answer, IsReply, first_address, on_recv-first_address}

-- The record gives the address: it is of type A with the four bytes of an address other than 0, or of
-- type AAAA with sixteen bytes.
abbrev pub Gives : Memory → Answer → Address → Type 0
Gives m r a =
    let at = r.name_end + 10 in
    ((r.record_type ≡ rtype_a)
      × (r.data_length ≡ 4)
      × (ulong_at m at ≢ 0)
      × (a ≡ ipv4 (ulong_at m at)))
    ⊎ ((r.record_type ≡ rtype_aaaa) × (r.data_length ≡ 16) × (a ≡ ipv6 (read m at 16)))

-- The address of the first record that is of the type of the query and gives one, if there is one.
abbrev pub IsFirst : Memory → (query_type : ℕ) → List Answer → Option Address → Type 0
IsFirst m query_type [] o = o ≡ none
IsFirst m query_type (r ∷ rs) o =
    ((a : Address) × (o ≡ some a) × (query_type ≡ r.record_type) × Gives m r a)
    ⊎ ((query_type ≡ r.record_type → (a : Address) → Gives m r a → ⊥) × IsFirst m query_type rs o)

abbrev Taken : Memory → (query_type : ℕ) → Answer → Option Address → Type 0
Taken m query_type r none = query_type ≡ r.record_type → (a : Address) → Gives m r a → ⊥
Taken m query_type r (some a) = (query_type ≡ r.record_type) × Gives m r a

Taken-take_record :
    (m : Memory) (base size query_type : ℕ) (r : Answer)
    → Taken m query_type r
        (take_record m base size query_type r.record_type (r.name_end + 10) r.data_length)
unfolding take_record address_in
Taken-take_record m base size query_type r =
    let at = r.name_end + 10 in
    elim (Bool-cases (query_type == r.record_type)) [
      | inr e ↦ rw e (λ same a g. absurd (ground (arith, e, same)))
      | inl e ↦
          let asked : query_type ≡ r.record_type = ground (arith, e) in
          elim (Bool-cases (r.record_type == rtype_a)) [
            | inl f ↦
                let is_a : r.record_type ≡ rtype_a = ground (arith, f) in
                elim (Bool-cases (r.data_length == 4)) [
                  | inr g ↦
                      rw (e, f, g)
                        (λ same a h. elim h [
                          | inl (x, y, ne, w) ↦ absurd (ground (arith, g, y))
                          | inr (x, y, z') ↦ absurd (omega (arith, x, is_a))
                        ])
                  | inl g ↦
                      let four : r.data_length ≡ 4 = ground (arith, g) in
                      elim (Bool-cases (ulong_at m at == 0)) [
                        | inl z ↦
                            rw (e, f, g, z)
                              (λ same a h. elim h [
                                | inl (x, y, ne, w) ↦ ne (ground (arith, z))
                                | inr (x, y, z') ↦ absurd (omega (arith, x, is_a))
                              ])
                        | inr z ↦
                            rw (e, f, g, z)
                              (asked, inl (is_a, four, (λ q. absurd (ground (arith, z, q))), refl))
                      ]
                ]
            | inr f ↦ elim (Bool-cases (r.record_type == rtype_aaaa)) [
              | inr g ↦
                  rw (e, f, g)
                    (λ same a h. elim h [
                      | inl (x, y, ne, w) ↦ absurd (ground (arith, f, x))
                      | inr (x, y, z') ↦ absurd (ground (arith, g, x))
                    ])
              | inl g ↦ elim (Bool-cases (r.data_length == 16)) [
                | inr k ↦
                    rw (e, f, g, k)
                      (λ same a h. elim h [
                        | inl (x, y, ne, w) ↦ absurd (ground (arith, f, x))
                        | inr (x, y, z) ↦ absurd (ground (arith, k, y))
                      ])
                | inl k ↦ rw (e, f, g, k) (asked, inr (ground (arith, g), ground (arith, k), refl))
              ]
            ]
          ]
    ]

IsFirst-step :
    (m : Memory) (query_type : ℕ) (r : Answer) (rs : List Answer) (o rest : Option Address)
    → Taken m query_type r o
    → IsFirst m query_type rs rest
    → IsFirst m query_type (r ∷ rs) (elim o [ some a ↦ some a | none ↦ rest ])
IsFirst-step m query_type r rs none rest t f = inr (t, f)
IsFirst-step m query_type r rs (some a) rest (e, g) f = inl (a, refl, e, g)

IsFirst-first_address :
    (m : Memory) (base size query_type : ℕ) (rs : List Answer)
    → IsFirst m query_type rs (first_address m base size query_type rs)
IsFirst-first_address m base size query_type [] = refl
IsFirst-first_address m base size query_type (r ∷ rs) =
    IsFirst-step m query_type r rs
      (take_record m base size query_type r.record_type (r.name_end + 10) r.data_length) _
      (Taken-take_record m base size query_type r) (IsFirst-first_address m base size query_type rs)

-- OnRecv of a reply with one record or more succeeds, and what it gives OnIp is the address of the first
-- record that has the type of the query and gives an address: type A with four bytes that are not all 0,
-- or type AAAA with sixteen; it calls OnIp not if there is none. The records have names that end, and the
-- fuel is enough for these.
pub on_recv-IsFirst :
    (m : Memory) (fuel buffer size : ℕ) (q : Dcd) (rs : List Answer)
    → IsReply m fuel buffer size q rs
    → 0 < length rs
    → (o : Option Address) × (on_recv m fuel buffer size q ≡ some (no_error, o))
      × IsFirst m q.query_type rs o
on_recv-IsFirst m fuel buffer size q rs h pos = (
  first_address m buffer size q.query_type rs,
  on_recv-first_address m fuel buffer size q rs h pos,
  IsFirst-first_address m buffer size q.query_type rs,
)
