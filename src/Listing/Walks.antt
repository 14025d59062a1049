-- ===== src/Listing/Walks.antt =====
-- The first CreateInfo puts as many ranges into the server's list as entries into the client's, if no
-- walk over the ranges of a driver is left early.
use camera_udp.Base.{
  ap, ap₂, ◌++◌, ◌||◌, length-read, ℕ, zero, suc, ◌+◌, ◌-◌, ◌%◌, ◌^◌, ◌≤◌, ◌<◌, ◌≡◌, ◌≢◌, refl, sym,
  subst, ◌∙◌, inl, inr, true, false, ◌&&◌, List, [], ◌∷◌, Option, none, some, arith, ltb, ◌==◌,
  length, Memory, copy, read, copy_outside, Bool-cases,
}
use mathlib.Core.Bool.{true≢false}
use camera_udp.Formats.{ulong_at, align_data_range}
use camera_udp.Listing.Entries.{IsIn, IsDdk, choice, wanted_from, OfAnswer, OfPins}
use camera_udp.Listing.{
  VideoRange, Pin, Machine, Lists, is_wanted, take_range, range_step, leaves, walk_ranges,
  keep_ranges, read_ranges, pin_step, create_pins,
}
use camera_udp.Listing.Ranges.{Holds, Holds-copy}
use camera_udp.Listing.Blocks.{
  or_false, Grew, Grew-none, Grew-append, Grew-eq, wanted, Grew-range_step,
}

module _ (machine : Machine) (Q : VideoRange → Type 0) where
  -- A step writes only behind the ranges that are still to be read.
  behind :
      (pc next : ℕ) (s : Lists)
      → (is_wanted machine (machine.video_at s.memory pc) ≡ true → pc + machine.size_video ≤ next)
      → pc ≤ next
      → s.pb ≤ pc
      → let t = (range_step machine pc s).1 in
        (t.pb ≤ next) × ((i : ℕ) → next ≤ i → t.memory i ≡ s.memory i)
  unfolding range_step take_range
  behind pc next s fits le low =
      elim (Bool-cases (is_wanted machine (machine.video_at s.memory pc))) [
        | inr e ↦ rw e (omega arith, λ i l. refl)
        | inl e ↦
            let room = fits e in
            let size = length-read s.memory pc machine.size_video in
            rw e (
              omega (arith, room),
              λ i l.
                  copy_outside s.memory s.pb (read s.memory pc machine.size_video) i
                    (λ p q. omega (arith, room, size)),
            )
      ]

  -- What a walk that goes on knows of the range.
  stays :
      (size pc : ℕ) (s : Lists)
      → leaves machine size pc s ≡ false
      → (align_data_range (ulong_at s.memory pc) % 2 ^ 32 ≤ size) × (64 ≤ size)
  unfolding leaves
  stays size pc s e =
      let format_size = ulong_at s.memory pc in
      let short = ltb size (align_data_range format_size % 2 ^ 32) in
      let (abc, _) =
        or_false (ltb size 64 || ltb format_size 64 || short)
          (is_wanted machine (machine.video_at s.memory pc) && ltb s.cb2 8) e in
      let (ab, c) = or_false (ltb size 64 || ltb format_size 64) short abc in
      let (a, _) = or_false (ltb size 64) (ltb format_size 64) ab in
      (ground (arith, c), ground (arith, a))

  stays-wanted :
      (pc : ℕ) (s : Lists)
      → IsDdk machine
      → is_wanted machine (machine.video_at s.memory pc) ≡ true
      → machine.size_video ≤ align_data_range (ulong_at s.memory pc) % 2 ^ 32
  unfolding align_data_range
  stays-wanted pc s d e =
      let (fits, _) = wanted machine Q pc s e in
      let small = d.small in
      let is_size = d.first s.memory pc in omega (arith, fits, small, is_size)

  -- A range is wanted alike in memories with the same bytes of it.
  same_choice :
      (m m1 : Memory) (pc size : ℕ)
      → IsDdk machine
      → ((i : ℕ) → pc ≤ i → i < pc + size → m i ≡ m1 i)
      → align_data_range (ulong_at m pc) % 2 ^ 32 ≤ size
      → ulong_at m pc ≡ ulong_at m1 pc
      → choice machine (machine.video_at m pc) ≡ choice machine (machine.video_at m1 pc)
  unfolding is_wanted align_data_range
  same_choice m m1 pc size d same inside word =
      let small = d.small in
      let e = d.first m pc in
      let e1 = d.first m1 pc in
      elim (Bool-cases (ulong_at m pc == machine.size_video)) [
        | inl f ↦
            let fits : ulong_at m pc ≡ machine.size_video = ground (arith, f) in
            let room : machine.size_video ≤ size = omega (arith, fits, small, inside) in
            ap (choice machine)
              (d.plain m m1 pc pc (λ i l. same (pc + i) (omega arith) (omega (arith, room))))
        | inr f ↦
            let f0 : ((machine.video_at m pc).format_size == machine.size_video) ≡ false =
              subst (λ n. (n == machine.size_video) ≡ false) (sym e) f in
            let f1 : ((machine.video_at m1 pc).format_size == machine.size_video) ≡ false =
              subst (λ n. (n == machine.size_video) ≡ false) (word ∙ sym e1) f in
            rw (f0, f1) refl
      ]

  same_word :
      (m m1 : Memory) (pc size : ℕ)
      → ((i : ℕ) → pc ≤ i → i < pc + size → m i ≡ m1 i)
      → 64 ≤ size
      → ulong_at m pc ≡ ulong_at m1 pc
  same_word m m1 pc size same l = omega (
    arith,
    same pc (omega arith) (omega arith),
    same (pc + 1) (omega arith) (omega arith),
    same (pc + 2) (omega arith) (omega arith),
    same (pc + 3) (omega arith) (omega arith),
  )

  -- `m1` is memory before the walk.
  Grew-walk_ranges :
      (m1 : Memory) (count size pc : ℕ) (s : Lists)
      → IsDdk machine
      → ((v : VideoRange) → Q v → (v.bi_compression ≢ 0) × (v.bi_compression < 2 ^ 32))
      → s.pb ≤ pc
      → ((i : ℕ) → pc ≤ i → i < pc + size → s.memory i ≡ m1 i)
      → ((a : ℕ)
          → pc ≤ a
          → a + machine.size_video ≤ pc + size
          → is_wanted machine (machine.video_at m1 a) ≡ true
          → Q (machine.video_at m1 a))
      → let (bytes, t) = walk_ranges machine count size pc s in
        t.whole ≡ true → Grew machine Q s t bytes (wanted_from machine m1 count pc)
  unfolding walk_ranges
  Grew-walk_ranges m1 zero size pc s d law low same q =
      λ h. Grew-none machine Q s s refl refl (λ a g. refl)
  Grew-walk_ranges m1 (suc count) size pc s d law low same q =
      elim (Bool-cases (leaves machine size pc s)) [
        | inl e ↦ rw e (λ h. absurd (true≢false (sym h)))
        | inr e ↦
            let next = align_data_range (ulong_at s.memory pc) % 2 ^ 32 in
            let (inside, room) = stays size pc s e in
            let word = same_word s.memory m1 pc size same room in
            let first = same_choice s.memory m1 pc size d same inside word in
            let fits = stays-wanted pc s d in
            let step = range_step machine pc s in
            let (low', same') =
              behind pc (pc + next) s (λ w. let f = fits w in omega (arith, f)) (omega arith) low in
            let here : (w : is_wanted machine (machine.video_at s.memory pc) ≡ true)
                → Q (machine.video_at s.memory pc) =
              λ w.
                let f = fits w in
                let v : machine.video_at s.memory pc ≡ machine.video_at m1 pc =
                  d.plain s.memory m1 pc pc
                    (λ i l. same (pc + i) (omega arith) (omega (arith, f, inside))) in
                subst Q (sym v) (
                  q pc (omega arith) (omega (arith, f, inside))
                    (subst (λ x. is_wanted machine x ≡ true) v w)) in
            rw e (λ h.
              Grew-eq machine Q s _ _ _ _
                (ap₂ ◌++◌ first
                  (ap (λ n. wanted_from machine m1 count (pc + align_data_range n % 2 ^ 32)) word))
                (Grew-append machine Q s step.1 _ step.0 _ _ _ d
                  (Grew-range_step machine Q pc s d law here)
                  (Grew-walk_ranges m1 count (size - next) (pc + next) step.1 d law low'
                    (λ i p r. same' i p ∙ same i (omega arith) (omega (arith, inside)))
                    (λ a p r. q a (omega arith) (omega (arith, inside))) h)))
      ]

  -- The walk starts at the lists with a mark of its own.
  Grew-keep_ranges :
      (s : Lists) (w : List ℕ × Lists) (vs : List VideoRange)
      → (w.1.whole ≡ true → Grew machine Q (record s { whole = true }) w.1 w.0 vs)
      → let t = (keep_ranges machine s w).1 in
        t.whole ≡ true → Grew machine Q s t (keep_ranges machine s w).0 vs × (s.whole ≡ true)
  unfolding keep_ranges
  Grew-keep_ranges s w vs g = elim (Bool-cases w.1.whole) [
    | inl e ↦
        let k = g e in
        rw e (λ h. (
          record {
            count = k.count;
            pb = k.pb;
            pf = k.pf;
            size = k.size;
            kept = k.kept;
            ranges = k.ranges;
            entries = k.entries;
            formats = k.formats;
            each = k.each;
            listed = k.listed;
            client = k.client;
            source = k.source;
            these = k.these;
          },
          h,
        ))
    | inr e ↦ rw e (λ h. absurd (true≢false (sym h)))
  ]

  -- Every wanted range in an answer has the property.
  abbrev Supplies : List ℕ → Type 0
  Supplies bytes =
      (m : Memory) (at a : ℕ)
      → Holds m at bytes
      → at + 8 ≤ a
      → a + machine.size_video ≤ at + length bytes
      → is_wanted machine (machine.video_at m a) ≡ true
      → Q (machine.video_at m a)

  Grew-read_ranges :
      (answer : Option (List ℕ)) (s : Lists)
      → IsDdk machine
      → ((v : VideoRange) → Q v → (v.bi_compression ≢ 0) × (v.bi_compression < 2 ^ 32))
      → ((bytes : List ℕ) → answer ≡ some bytes → Supplies bytes)
      → let (bytes, t) = read_ranges machine answer s in
        t.whole ≡ true
        → (vs : List VideoRange) × OfAnswer machine answer vs
          × Grew machine Q s t bytes vs
          × (s.whole ≡ true)
  unfolding read_ranges
  Grew-read_ranges none s d law q =
      λ h. ([], refl, Grew-none machine Q s s refl refl (λ a g. refl), h)
  Grew-read_ranges (some bytes) s d law q =
      let s1 : Lists = record s { memory = copy s.memory s.pb bytes } in
      let size = ulong_at s1.memory s.pb in
      let count = ulong_at s1.memory (s.pb + 4) in
      let below =
        λ (a : ℕ). λ (g : a < s.pb). copy_outside s.memory s.pb bytes a (λ p q. omega arith) in
      let idle = Grew-none machine Q s s1 refl refl below in
      let there = Holds-copy s.memory s.pb bytes in
      elim (Bool-cases (count == 0)) [
        | inl e ↦ rw e (λ h. ([], (s1.memory, s.pb, there, rw e refl), idle, h))
        | inr e ↦ rw e (elim (Bool-cases (ltb 8 size && (size == length bytes))) [
          | inr f ↦ rw f (λ h. ([], (s1.memory, s.pb, there, rw (e, f) refl), idle, h))
          | inl f ↦
              let large = d.large in
              let filled : (8 < size) × (size ≡ length bytes) =
                (ground (arith, f), ground (arith, f)) in
              let (some_range, all) = filled in
              let supply = q bytes refl s1.memory s.pb in
              let walk =
                Grew-walk_ranges s1.memory count (size - 8) (s.pb + 8) (record s1 { whole = true })
                  d law (omega arith) (λ i p r. refl)
                  (λ a p r w. supply a there p (omega (arith, some_range, all)) w) in
              rw f (λ h.
                let vs = wanted_from machine s1.memory count (s.pb + 8) in
                let (g, w) = Grew-keep_ranges s1 _ vs walk h in
                (
                  vs,
                  (s1.memory, s.pb, there, rw (e, f) refl),
                  Grew-append machine Q s s1 _ [] _ [] vs d idle g,
                  w,
                ))
        ])
      ]

  pub Grew-create_pins :
      (pins : List Pin) (s : Lists)
      → IsDdk machine
      → ((v : VideoRange) → Q v → (v.bi_compression ≢ 0) × (v.bi_compression < 2 ^ 32))
      → ((pin : Pin) (room : ℕ) (bytes : List ℕ)
          → IsIn pin pins
          → pin.data_ranges room ≡ some bytes
          → Supplies bytes)
      → let (bytes, t) = create_pins machine pins s in
        t.whole ≡ true
        → (vs : List VideoRange) × OfPins machine pins vs
          × Grew machine Q s t bytes vs
          × (s.whole ≡ true)
  unfolding create_pins pin_step
  Grew-create_pins [] s d law q =
      λ h. ([], refl, Grew-none machine Q s s refl refl (λ a g. refl), h)
  Grew-create_pins (pin ∷ pins) s d law q =
      let large = d.large in
      elim (Bool-cases (pin.flows_out && pin.captures)) [
        | inr e ↦ rw e (Grew-create_pins pins s d law (λ p r b i. q p r b (inr i)))
        | inl e ↦
            let one = read_ranges machine (pin.data_ranges s.cb) s in
            rw e (λ h.
              let (ys, o, k, w) =
                Grew-create_pins pins one.1 d law (λ p r b i. q p r b (inr i)) h in
              let (xs, o', g, w') =
                Grew-read_ranges (pin.data_ranges s.cb) s d law (λ b e'. q pin s.cb b (inl refl) e')
                  w in
              (
                xs ++ ys,
                (s.cb, xs, ys, o', o, refl),
                Grew-append machine Q s one.1 _ one.0 _ xs ys d g k,
                w',
              ))
      ]
