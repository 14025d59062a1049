-- ===== src/Endpoint/Assembly.antt =====
-- One buffer that receives the fragments of a message, in any order.
use camera_udp.Base.{
  ℕ, ◌+◌, ◌-◌, ◌*◌, ◌/◌, ◌%◌, ◌<◌, ◌≡◌, refl, ◌≢◌, ◌⊎◌, inl, inr, ◌∙◌, Bool, true, false, List, [],
  ◌∷◌, none, some, arith, ltb, ◌==◌, if◌then◌else◌, length, drop, min, length-take, length-drop,
  get_or, copy, read, read-eq, copy_inside, copy_outside, get_or-take, get_or-drop, get_or-set_ne,
  subst, Bool-cases, ℕ_discrete, ==_of_eq, ==_of_ne,
}
use camera_udp.Endpoint.Buffers.{ulong_mod, max_packet_size, max_fragments, Msgb, no_bits, set_bit}
use camera_udp.Endpoint.{receive}
use camera_udp.Endpoint.Send.Split.{fragment}

abbrev pub In : ℕ → List ℕ → Type 0
In i [] = ⊥
In i (j ∷ js) = (i ≡ j) ⊎ In i js

-- No index occurs twice.
abbrev pub Distinct : List ℕ → Type 0
Distinct [] = Unit {0}
Distinct (i ∷ is) = (In i is → ⊥) × Distinct is

-- Each index is that of a fragment that holds bytes.
abbrev pub AllInside : ℕ → List ℕ → Type 0
AllInside total [] = Unit {0}
AllInside total (i ∷ is) = (i < max_fragments) × (i * max_packet_size < total) × AllInside total is

-- The bytes of fragment `i` of a message of `total` bytes.
abbrev pub size : (total i : ℕ) → ℕ
size total i = min max_packet_size (total - i * max_packet_size)

abbrev pub sizes : ℕ → List ℕ → ℕ
sizes total [] = 0
sizes total (i ∷ is) = size total i + sizes total is

abbrev pub AllClear : List Bool → List ℕ → Type 0
AllClear bits [] = Unit {0}
AllClear bits (i ∷ is) = (get_or bits i false ≡ false) × AllClear bits is

pub length-fragment :
    (type m : ℕ) (bytes : List ℕ) (i : ℕ)
    → length (fragment type m bytes i).buf ≡ size (length bytes) i
length-fragment type m bytes i = omega (
  arith,
  length-take max_packet_size (drop (i * max_packet_size) bytes),
  length-drop (i * max_packet_size) bytes,
)

-- The buffer waits for the fragments of `order`, and holds all the others.
pub record Waits (bytes : List ℕ) (order : List ℕ) (b : Msgb) : Type 0 where
  pub need : b.cb_need ≡ sizes (length bytes) order
  pub clear : AllClear b.bits order
  pub stored :
      (j : ℕ) → j < length bytes → (b.buf j ≡ get_or bytes j 0) ⊎ In (j / max_packet_size) order

AllClear-set :
    (bits : List Bool) (i : ℕ) (is : List ℕ)
    → (In i is → ⊥)
    → AllClear bits is
    → AllClear (set_bit i bits) is
AllClear-set bits i [] h c = tt
AllClear-set bits i (j ∷ js) h (c, cs) = (
  get_or-set_ne bits i j true false (λ e. h (inl e)) ∙ c,
  AllClear-set bits i js (λ p. h (inr p)) cs,
)

-- After a fragment is copied, its bytes are in place, and the others are as they were.
stored-copy :
    (type m : ℕ) (bytes : List ℕ) (i : ℕ) (rest : List ℕ) (b : Msgb)
    → ((j : ℕ)
        → j < length bytes
        → (b.buf j ≡ get_or bytes j 0) ⊎ In (j / max_packet_size) (i ∷ rest))
    → (j : ℕ) → j < length bytes
    → (copy b.buf (i * max_packet_size) (fragment type m bytes i).buf j ≡ get_or bytes j 0)
      ⊎ In (j / max_packet_size) rest
stored-copy type m bytes i rest b h j lt = elim (ℕ_discrete (j / max_packet_size) i) [
  | yes e ↦ inl (inside e)
  | no ne ↦ elim (h j lt) [
    | inl e ↦ inl (outside ne ∙ e)
    | inr (inl e) ↦ absurd (ne e)
    | inr (inr q) ↦ inr q
  ]
]
  where
    at : ℕ
    at = i * max_packet_size

    part : List ℕ
    part = (fragment type m bytes i).buf

    inside : j / max_packet_size ≡ i → copy b.buf at part j ≡ get_or bytes j 0
    inside e =
        let r = j - at in
        let e1 : at + r ≡ j = omega arith in
        let e2 : copy b.buf at part (at + r) ≡ get_or part r 0 =
          copy_inside b.buf at part r (omega (arith, length-fragment type m bytes i)) in
        let e3 : get_or part r 0 ≡ get_or bytes (at + r) 0 =
          get_or-take max_packet_size r (drop at bytes) 0 (omega arith)
          ∙ get_or-drop at r bytes 0 in
        subst (λ k. copy b.buf at part k ≡ get_or bytes k 0) e1 (e2 ∙ e3)

    outside : j / max_packet_size ≢ i → copy b.buf at part j ≡ b.buf j
    outside ne =
        copy_outside b.buf at part j (λ p q. ne (omega (arith, length-fragment type m bytes i)))

module _ (on_user_data : ℕ → List ℕ → ℕ) (partial tick type m : ℕ) (bytes : List ℕ) where
  -- What the buffer is after a fragment that it takes, before a completed message is handed over.
  abbrev taken : ℕ → Msgb → Msgb
  taken i b = record b {
    bits = set_bit i b.bits;
    buf = copy b.buf (i * max_packet_size) (fragment type m bytes i).buf;
    tick = tick;
    cb_need = (b.cb_need + ulong_mod - size (length bytes) i) % ulong_mod;
  }

  receive-taken :
      (i : ℕ) (b : Msgb)
      → i < max_fragments
      → get_or b.bits i false ≡ false
      → receive on_user_data partial 0 tick (fragment type m bytes i) b ≡ (
          if b.cb_need == size (length bytes) i
          then (
            record {
              status = on_user_data type (read (taken i b).buf 0 (length bytes));
              delivered = some (type, read (taken i b).buf 0 (length bytes));
            },
            record (taken i b) { bits = no_bits },
          )
          else (record { status = partial; delivered = none }, taken i b))
  unfolding receive
  receive-taken i b lt clear =
      let t1 : ltb i max_fragments ≡ true = ground arith in
      let t2 : size (length bytes) i % ulong_mod ≡ size (length bytes) i = omega arith in
      elim (Bool-cases (b.cb_need == size (length bytes) i)) [
        | inl e ↦ rw (t1, clear, length-fragment type m bytes i, t2, e, receive) refl
        | inr e ↦ rw (t1, clear, length-fragment type m bytes i, t2, e, receive) refl
      ]

  -- A fragment that is not the last one.
  pub receive-partial :
      (i : ℕ) (rest : List ℕ) (b : Msgb)
      → i < max_fragments
      → (In i rest → ⊥)
      → 0 < sizes (length bytes) rest
      → sizes (length bytes) (i ∷ rest) < ulong_mod
      → Waits bytes (i ∷ rest) b
      → (b' : Msgb) × (receive on_user_data partial 0 tick (fragment type m bytes i) b
          ≡ (record { status = partial; delivered = none }, b'))
        × (b'.m ≡ b.m)
        × (b'.cb_msg ≡ b.cb_msg)
        × Waits bytes rest b'
  receive-partial i rest b lt new more small w =
      let t : (b.cb_need == size (length bytes) i) ≡ false = ==_of_ne (omega (arith, w.need)) in
      (
        taken i b,
        receive-taken i b lt w.clear.0 ∙ (rw t refl),
        refl,
        refl,
        record {
          need = omega (arith, w.need);
          clear = AllClear-set b.bits i rest new w.clear.1;
          stored = stored-copy type m bytes i rest b w.stored;
        },
      )

  -- The last fragment: the message is handed over, and the buffer is empty again.
  pub receive-last :
      (i : ℕ) (b : Msgb)
      → i < max_fragments
      → Waits bytes (i ∷ []) b
      → (b' : Msgb) × (receive on_user_data partial 0 tick (fragment type m bytes i) b
          ≡ (record { status = on_user_data type bytes; delivered = some (type, bytes) }, b'))
        × (b'.m ≡ b.m)
        × (b'.cb_msg ≡ b.cb_msg)
        × (b'.bits ≡ no_bits)
  receive-last i b lt w =
      let t : (b.cb_need == size (length bytes) i) ≡ true = ==_of_eq (omega (arith, w.need)) in
      (
        record (taken i b) { bits = no_bits },
        receive-taken i b lt w.clear.0 ∙ (rw (t, whole) refl),
        refl,
        refl,
        refl,
      )
    where
      whole : read (taken i b).buf 0 (length bytes) ≡ bytes
      whole = read-eq _ 0 (length bytes) bytes refl λ j lt'.
          let e : 0 + j ≡ j = omega arith in
          rw e
            (elim (stored-copy type m bytes i [] b w.stored j lt') [ inl q ↦ q | inr q ↦ absurd q ])
