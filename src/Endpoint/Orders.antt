-- ===== src/Endpoint/Orders.antt =====
-- Orders in which the fragments of one message can arrive: rearrangements of 0, 1, …, n - 1.
use mathlib.Core.List.{Permᴰ}
use mathlib.Core.List.Permᴰ
use camera_udp.Base.{
  ℕ, zero, suc, ◌+◌, ◌-◌, ◌*◌, ◌/◌, ◌≤◌, ◌<◌, ◌≡◌, refl, sym, ◌⊎◌, inl, inr, ◌∙◌, List, [], ◌∷◌,
  arith, length, subst, ap, ℕ_discrete,
}
use camera_udp.Endpoint.Buffers.{max_packet_size, max_fragments}
use camera_udp.Endpoint.Send.Split.{fragment_count, fragment_count_bounds, range_from}
use camera_udp.Endpoint.Assembly.{In, Distinct, AllInside, sizes}

In-perm : {xs ys : List ℕ} (i : ℕ) → Permᴰ xs ys → In i xs → In i ys
In-perm i Permᴰ.nil h = h
In-perm i (Permᴰ.cons e p) (inl q) = inl (q ∙ e)
In-perm i (Permᴰ.cons e p) (inr q) = inr (In-perm i p q)
In-perm i (Permᴰ.swap e f) (inl q) = inr (inl (q ∙ e))
In-perm i (Permᴰ.swap e f) (inr (inl q)) = inl (q ∙ f)
In-perm i (Permᴰ.swap e f) (inr (inr q)) = inr (inr q)
In-perm i (Permᴰ.trans p q) h = In-perm i q (In-perm i p h)

sizes-perm : {xs ys : List ℕ} (total : ℕ) → Permᴰ xs ys → sizes total xs ≡ sizes total ys
sizes-perm total Permᴰ.nil = refl
sizes-perm total (Permᴰ.cons e p) = ground (arith, sizes-perm total p)
sizes-perm total (Permᴰ.swap e f) = ground arith
sizes-perm total (Permᴰ.trans p q) = sizes-perm total p ∙ sizes-perm total q

AllInside-perm :
    {xs ys : List ℕ} (total : ℕ) → Permᴰ xs ys → AllInside total ys → AllInside total xs
AllInside-perm total Permᴰ.nil h = h
AllInside-perm total (Permᴰ.cons e p) (a, b, h) =
    (omega arith, omega arith, AllInside-perm total p h)
AllInside-perm total (Permᴰ.swap e f) (a, b, (c, d, h)) =
    (omega arith, omega arith, (omega arith, omega arith, h))
AllInside-perm total (Permᴰ.trans p q) h = AllInside-perm total p (AllInside-perm total q h)

Distinct-perm : {xs ys : List ℕ} → Permᴰ xs ys → Distinct ys → Distinct xs
Distinct-perm Permᴰ.nil h = h
Distinct-perm (Permᴰ.cons {l₂ = l} e p) (new, h) =
    (λ q. new (subst (λ k. In k l) e (In-perm _ p q)), Distinct-perm p h)
Distinct-perm (Permᴰ.swap {l = l} e f) (new, (new', h)) = (
  elim [ inl q ↦ new (inl (sym f ∙ sym q ∙ e)) | inr q ↦ new' (subst (λ k. In k l) e q) ],
  (λ q. new (inr (subst (λ k. In k l) f q)), h),
)
Distinct-perm (Permᴰ.trans p q) h = Distinct-perm p (Distinct-perm q h)

In-range : (i k j : ℕ) → i ≤ j → j < i + k → In j (range_from i k)
In-range i zero j h g = absurd (omega arith)
In-range i (suc k) j h g = elim (ℕ_discrete j i) [
  | yes e ↦ inl e
  | no ne ↦ inr (In-range (i + 1) k j (omega arith) (omega arith))
]

le_of_In-range : (i k j : ℕ) → In j (range_from i k) → i ≤ j
le_of_In-range i zero j h = absurd h
le_of_In-range i (suc k) j (inl e) = omega arith
le_of_In-range i (suc k) j (inr h) = omega (arith, le_of_In-range (i + 1) k j h)

Distinct-range : (i k : ℕ) → Distinct (range_from i k)
Distinct-range i zero = tt
Distinct-range i (suc k) =
    (λ h. absurd (omega (arith, le_of_In-range (i + 1) k i h)), Distinct-range (i + 1) k)

AllInside-range :
    (total i k : ℕ)
    → i + k ≤ max_fragments
    → (k ≡ 0) ⊎ ((i + k - 1) * max_packet_size < total)
    → AllInside total (range_from i k)
AllInside-range total i zero h g = tt
AllInside-range total i (suc k) h g =
    (omega arith, omega arith, AllInside-range total (i + 1) k (omega arith) (omega arith))

sizes-range :
    (total i k : ℕ)
    → total ≤ (i + k) * max_packet_size
    → sizes total (range_from i k) ≡ total - i * max_packet_size
sizes-range total i zero h = omega arith
sizes-range total i (suc k) h = omega (arith, sizes-range total (i + 1) k (omega arith))

sizes_pos : (total i : ℕ) (rest : List ℕ) → AllInside total (i ∷ rest) → 0 < sizes total (i ∷ rest)
sizes_pos total i rest (a, b, h) = omega arith

-- Until the last fragment, some bytes are always missing.
abbrev pub Incomplete : ℕ → List ℕ → Type 0
Incomplete total [] = Unit {0}
Incomplete total (i ∷ []) = i < max_fragments
Incomplete total (i ∷ (j ∷ rest)) =
    (i < max_fragments) × (0 < sizes total (j ∷ rest)) × Incomplete total (j ∷ rest)

AllInside-Incomplete : (total : ℕ) (order : List ℕ) → AllInside total order → Incomplete total order
AllInside-Incomplete total [] h = tt
AllInside-Incomplete total (i ∷ []) h = h.0
AllInside-Incomplete total (i ∷ (j ∷ rest)) (a, b, h) =
    (a, sizes_pos total j rest h, AllInside-Incomplete total (j ∷ rest) h)

length-perm : {xs ys : List ℕ} → Permᴰ xs ys → length xs ≡ length ys
length-perm Permᴰ.nil = refl
length-perm (Permᴰ.cons e p) = ap suc (length-perm p)
length-perm (Permᴰ.swap e f) = refl
length-perm (Permᴰ.trans p q) = length-perm p ∙ length-perm q

-- The one fragment of an empty message.
Incomplete-empty : (total : ℕ) (order : List ℕ) → Permᴰ order (0 ∷ []) → Incomplete total order
Incomplete-empty total [] p = tt
Incomplete-empty total (i ∷ []) p = elim (In-perm i p (inl refl)) [
  | inl e ↦ omega arith
  | inr h ↦ absurd h
]
Incomplete-empty total (i ∷ (j ∷ rest)) p = absurd (omega (arith, length-perm p))

-- An order in which all fragments of a message of `total` bytes arrive, each once.
pub record Arrival (total : ℕ) (order : List ℕ) : Type 0 where
  pub distinct : Distinct order
  pub incomplete : Incomplete total order
  pub sum : sizes total order ≡ total
  pub complete : (j : ℕ) → j < total → In (j / max_packet_size) order

pub Arrival-perm :
    (bytes : List ℕ) (order : List ℕ)
    → length bytes ≤ max_packet_size * max_fragments
    → Permᴰ order (range_from 0 (fragment_count bytes))
    → Arrival (length bytes) order
Arrival-perm bytes order fits p = record {
  distinct = Distinct-perm p (Distinct-range 0 c);
  incomplete = elim (ℕ_discrete (length bytes) 0) [
    | yes e ↦
        let one : c ≡ 1 = omega (arith, b.1, b.2) in
        Incomplete-empty (length bytes) order (subst (λ n. Permᴰ order (range_from 0 n)) one p)
    | no ne ↦ AllInside-Incomplete (length bytes) order (
        AllInside-perm (length bytes) p
          (AllInside-range (length bytes) 0 c (omega (arith, b)) (omega (arith, b))))
  ];
  sum =
      sizes-perm (length bytes) p
      ∙ (sizes-range (length bytes) 0 c (omega (arith, b)) ∙ omega arith);
  complete = λ j lt.
      In-perm _ (Permᴰ.symm p)
        (In-range 0 c (j / max_packet_size) (omega arith) (omega (arith, b)));
}
  where
    c : ℕ
    c = fragment_count bytes

    b :
        let n = fragment_count bytes in
        (0 < n)
        × ((n ≡ 1) ⊎ ((n - 1) * max_packet_size < length bytes))
        × (length bytes ≤ n * max_packet_size)
    b = fragment_count_bounds bytes
