-- ===== src/Endpoint/Slots.antt =====
-- Endpoint::get: which of the buffers it hands out, and what it does to them.
use camera_udp.Base.{
  ℕ, zero, suc, ◌+◌, ◌≡◌, refl, sym, ◌≢◌, true, false, List, [], ◌∷◌, Option, none, some, arith,
  ==_of_eq, ==_of_ne,
}
use camera_udp.Endpoint.Buffers.{Msgb, is_zero, hit, allot, scan, assign, modify, get}

-- The buffer with index `k` is the first that has message `m`, of length `cb_msg`, and `P` holds of it.
abbrev pub At : (Msgb → Type 0) → (m cb_msg : ℕ) → ℕ → List Msgb → Type 0
At P m cb_msg k [] = ⊥
At P m cb_msg zero (b ∷ bs) = (b.m ≡ m) × (b.cb_msg ≡ cb_msg) × P b
At P m cb_msg (suc k) (b ∷ bs) = (b.m ≢ m) × At P m cb_msg k bs

abbrev pub Absent : ℕ → List Msgb → Type 0
Absent m [] = Unit {0}
Absent m (b ∷ bs) = (b.m ≢ m) × Absent m bs

-- The buffer with index `k` is the first empty one.
abbrev pub FirstFree : ℕ → List Msgb → Type 0
FirstFree k [] = ⊥
FirstFree zero (b ∷ bs) = is_zero b.bits ≡ true
FirstFree (suc k) (b ∷ bs) = (is_zero b.bits ≡ false) × FirstFree k bs

module _ (m cb_msg tick : ℕ) where
  scan-At :
      (P : Msgb → Type 0) (k : ℕ) (bs : List Msgb) (i : ℕ) (free stale : Option ℕ) (dt : ℕ)
      → At P m cb_msg k bs
      → scan m cb_msg tick bs i free stale dt ≡ hit (i + k)
  unfolding scan
  scan-At P k [] i free stale dt h = absurd h
  scan-At P zero (b ∷ bs) i free stale dt (e, f, _) =
      let e' : i + 0 ≡ i = omega arith in rw (e', ==_of_eq e, ==_of_eq (sym f)) refl
  scan-At P (suc k) (b ∷ bs) i free stale dt (ne, h) =
      let e' : i + suc k ≡ i + 1 + k = omega arith in
      rw (e', ==_of_ne ne) (scan-At P k bs (i + 1) _ _ _ h)

  -- With the message in a buffer, `get` returns that buffer and changes nothing.
  pub get-At :
      (P : Msgb → Type 0) (k : ℕ) (bs : List Msgb)
      → At P m cb_msg k bs
      → get m cb_msg tick bs ≡ (some k, bs)
  unfolding get
  get-At P k bs h = let e' : 0 + k ≡ k = omega arith in rw (scan-At P k bs 0 none none 0 h, e') refl

  scan-kept :
      (bs : List Msgb) (i j : ℕ) (stale : Option ℕ) (dt : ℕ)
      → Absent m bs
      → scan m cb_msg tick bs i (some j) stale dt ≡ allot (some j)
  unfolding scan
  scan-kept [] i j stale dt h = refl
  scan-kept (b ∷ bs) i j stale dt (ne, h) = rw (==_of_ne ne) (scan-kept bs (i + 1) j _ _ h)

  scan-FirstFree :
      (k : ℕ) (bs : List Msgb) (i : ℕ) (stale : Option ℕ) (dt : ℕ)
      → Absent m bs
      → FirstFree k bs
      → scan m cb_msg tick bs i none stale dt ≡ allot (some (i + k))
  unfolding scan
  scan-FirstFree k [] i stale dt a f = absurd f
  scan-FirstFree zero (b ∷ bs) i stale dt (ne, a) f =
      let e' : i + 0 ≡ i = omega arith in rw (==_of_ne ne, f, e') (scan-kept bs (i + 1) i _ _ a)
  scan-FirstFree (suc k) (b ∷ bs) i stale dt (ne, a) (z, f) =
      let e' : i + suc k ≡ i + 1 + k = omega arith in
      rw (==_of_ne ne, z, e') (scan-FirstFree k bs (i + 1) _ _ a f)

  -- A message that is in no buffer is given the first empty one.
  pub get-FirstFree :
      (k : ℕ) (bs : List Msgb)
      → Absent m bs
      → FirstFree k bs
      → get m cb_msg tick bs ≡ (some k, modify (assign m cb_msg) k bs)
  unfolding get
  get-FirstFree k bs a f =
      let e' : 0 + k ≡ k = omega arith in rw (scan-FirstFree k bs 0 none 0 a f, e') refl
