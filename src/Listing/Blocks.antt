-- ===== src/Listing/Blocks.antt =====
-- One step of the walk over the ranges of a driver: a range goes into the server's list, and an entry
-- into the client's, or neither.
use camera_udp.Base.{
  ap₂, ◌||◌, ap, ℕ, ◌+◌, ◌*◌, ◌%◌, ◌^◌, ◌≤◌, ◌<◌, ◌≡◌, ◌≢◌, refl, sym, subst, ◌∙◌, inl, inr, Bool,
  true, false, ◌&&◌, List, [], ◌∷◌, ◌++◌, arith, ◌==◌, length, length-append, Memory, copy, read,
  copy_outside, Bool-cases,
}
use mathlib.Core.Bool.{true≢false}
use native.Mathlib.Nat.{add-mul}
use camera_udp.Formats.{ulong_at}
use camera_udp.Listing.Entries.{
  EntriesAt, EntryAt-vfi_bytes, EntriesAt-append, copy_byte, AllOf, choice, AllOf-append, IsDdk,
  RangesAt, RangesAt-append, RangesAt-eq,
}
use camera_udp.Listing.{VideoRange, Machine, Lists, vfi_bytes, is_wanted, take_range, range_step}
use camera_udp.Listing.Ranges.{
  Holds, Holds-append, ulong_at-Holds, ulong_at-copied, NonzeroAt, NonzeroAt-append, NonzeroAt-eq,
}

vfi-word :
    (m : Memory) (at old : ℕ) (v : VideoRange)
    → Holds m at (vfi_bytes old v)
    → ulong_at m at ≡ v.bi_compression % 2 ^ 32
unfolding vfi_bytes
vfi-word m at old v (a, (b, (c, (d, _)))) =
    ulong_at-Holds m at v.bi_compression (a, (b, (c, (d, tt))))

length-vfi_bytes : (old : ℕ) (v : VideoRange) → length (vfi_bytes old v) ≡ 8
unfolding vfi_bytes
length-vfi_bytes old v = refl

pub or_false : (a b : Bool) → (a || b) ≡ false → (a ≡ false) × (b ≡ false)
or_false true b e = absurd (true≢false e)
or_false false b e = (refl, e)

pub and_true : (a b : Bool) → (a && b) ≡ true → (a ≡ true) × (b ≡ true)
and_true true b e = (refl, e)
and_true false b e = absurd (true≢false (sym e))

==_true : (a b : ℕ) → (a == b) ≡ true → a ≡ b
==_true a b e = ground (arith, e)

module _ (machine : Machine) (Q : VideoRange → Type 0) where
  -- `count` ranges were added at `pb`, and the entries `bytes` for them.
  pub record Grew (s t : Lists) (bytes : List ℕ) (fs : List VideoRange) : Type 0 where
    pub count : ℕ
    pub pb : t.pb ≡ s.pb + count * machine.size_video
    pub pf : t.pf ≡ s.pf + 8 * count
    pub size : length bytes ≡ 8 * count
    pub kept : (a : ℕ) → a < s.pb → t.memory a ≡ s.memory a
    pub ranges : NonzeroAt machine.size_video t.memory s.pb count
    pub entries : (m : Memory) (at : ℕ) → Holds m at bytes → NonzeroAt 8 m at count
    pub formats : List VideoRange
    pub each : length formats ≡ count
    pub listed : RangesAt machine t.memory s.pb formats
    pub client : (m : Memory) (at : ℕ) → Holds m at bytes → EntriesAt m at formats
    pub source : AllOf Q formats
    pub these : formats ≡ fs

  -- Nothing was added, and memory changed at most from `pb` on.
  pub Grew-none :
      (s t : Lists)
      → t.pb ≡ s.pb
      → t.pf ≡ s.pf
      → ((a : ℕ) → a < s.pb → t.memory a ≡ s.memory a)
      → Grew s t [] []
  Grew-none s t e e' k = record {
    count = 0;
    pb = omega (arith, e);
    pf = omega (arith, e');
    size = refl;
    kept = k;
    ranges = tt;
    entries = λ m at h. tt;
    formats = [];
    each = refl;
    listed = tt;
    client = λ m at h. tt;
    source = tt;
    these = refl;
  }

  pub Grew-append :
      (s t u : Lists) (xs ys : List ℕ) (vs ws : List VideoRange)
      → IsDdk machine
      → Grew s t xs vs
      → Grew t u ys ws
      → Grew s u (xs ++ ys) (vs ++ ws)
  Grew-append s t u xs ys vs ws d g k =
      let size = machine.size_video in
      let pb = g.pb in
      let large = d.large in
      let big : 4 ≤ machine.size_video = omega (arith, large) in
      let grown = length-append g.formats k.formats in
      let next : s.pb + g.count * size ≡ s.pb + length g.formats * size =
        ap (λ n. s.pb + n * size) (sym g.each) in
      let add : (g.count + k.count) * size ≡ g.count * size + k.count * size =
        add-mul g.count k.count size in
      record {
        count = g.count + k.count;
        pb = omega (arith, g.pb, k.pb, add);
        pf = omega (arith, g.pf, k.pf);
        size = omega (arith, length-append xs ys, g.size, k.size);
        kept = λ a h. k.kept a (omega (arith, pb)) ∙ g.kept a h;
        ranges =
            NonzeroAt-append size u.memory s.pb g.count k.count
              (NonzeroAt-eq size t.memory u.memory s.pb g.count big
                (λ i p q. k.kept i (omega (arith, pb))) g.ranges)
              (subst (λ p. NonzeroAt size u.memory p k.count) pb k.ranges);
        entries = λ m at h.
            let (a, b) = Holds-append m at xs ys h in
            let far : at + length xs ≡ at + g.count * 8 = omega (arith, g.size) in
            NonzeroAt-append 8 m at g.count k.count (g.entries m at a)
              (subst (λ p. NonzeroAt 8 m p k.count) far (k.entries m (at + length xs) b));
        formats = g.formats ++ k.formats;
        each = omega (arith, grown, g.each, k.each);
        listed =
            RangesAt-append machine u.memory s.pb g.formats k.formats
              (RangesAt-eq machine t.memory u.memory s.pb g.formats d
                (λ i p q. k.kept i (omega (arith, pb, next))) g.listed)
              (subst (λ p. RangesAt machine u.memory p k.formats) (pb ∙ next) k.listed);
        client = λ m at h.
            let (a, b) = Holds-append m at xs ys h in
            let far : at + length xs ≡ at + 8 * length g.formats = omega (arith, g.size, g.each) in
            EntriesAt-append m at g.formats k.formats (g.client m at a)
              (subst (λ p. EntriesAt m p k.formats) far (k.client m (at + length xs) b));
        source = AllOf-append Q g.formats k.formats g.source k.source;
        these = ap₂ ◌++◌ g.these k.these;
      }

  pub Grew-eq :
      (s t : Lists) (xs : List ℕ) (vs ws : List VideoRange)
      → vs ≡ ws
      → Grew s t xs vs
      → Grew s t xs ws
  Grew-eq s t xs vs ws e g = subst (λ x. Grew s t xs x) e g

  -- What CreateInfo asks of a range.
  pub wanted :
      (pc : ℕ) (s : Lists)
      → let v = machine.video_at s.memory pc in
        is_wanted machine v ≡ true → (v.format_size ≡ machine.size_video) × (v.is_yuy2_video ≡ true)
  unfolding is_wanted
  wanted pc s e = let (ab, c) = and_true _ _ e in let (a, b) = and_true _ _ ab in (==_true _ _ a, b)

  Grew-take_range :
      (pc : ℕ) (s : Lists)
      → IsDdk machine
      → ((v : VideoRange) → Q v → (v.bi_compression ≢ 0) × (v.bi_compression < 2 ^ 32))
      → is_wanted machine (machine.video_at s.memory pc) ≡ true
      → Q (machine.video_at s.memory pc)
      → Grew s
          (take_range machine pc s).1
          (take_range machine pc s).0
          (machine.video_at s.memory pc ∷ [])
  unfolding take_range
  Grew-take_range pc s d law e qv =
      let v = machine.video_at s.memory pc in
      let (fits, yuy2) = wanted pc s e in
      let (nonzero, word) = law v qv in
      let large = d.large in
      let old = machine.junk (s.pf + 7) in
      let bytes = read s.memory pc machine.size_video in
      let there = ulong_at-copied s.memory s.pb pc machine.size_video (omega (arith, large)) in
      let is_size = d.first s.memory pc in
      record {
        count = 1;
        pb = omega arith;
        pf = omega arith;
        size = length-vfi_bytes old v;
        kept = λ a h. copy_outside s.memory s.pb bytes a (λ p q. omega arith);
        ranges = ((λ z. absurd (omega (arith, there, is_size, fits, z, large))), tt);
        entries = λ m at h. ((λ z. nonzero (omega (arith, vfi-word m at old v h, z))), tt);
        formats = v ∷ [];
        each = refl;
        listed = (
          d.plain (copy s.memory s.pb bytes) s.memory s.pb pc
              (λ i l. copy_byte s.memory s.pb pc machine.size_video i l),
          tt,
        );
        client = λ m at h. (EntryAt-vfi_bytes m at old v h, tt);
        source = (qv, tt);
        these = refl;
      }

  pub Grew-range_step :
      (pc : ℕ) (s : Lists)
      → IsDdk machine
      → ((v : VideoRange) → Q v → (v.bi_compression ≢ 0) × (v.bi_compression < 2 ^ 32))
      → (is_wanted machine (machine.video_at s.memory pc) ≡ true → Q (machine.video_at s.memory pc))
      → Grew s
          (range_step machine pc s).1
          (range_step machine pc s).0
          (choice machine (machine.video_at s.memory pc))
  unfolding range_step
  Grew-range_step pc s d law qv =
      elim (Bool-cases (is_wanted machine (machine.video_at s.memory pc))) [
        | inr e ↦ rw e (Grew-none s s refl refl (λ a h. refl))
        | inl e ↦ rw e (Grew-take_range pc s d law e (qv e))
      ]
