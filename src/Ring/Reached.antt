-- ===== src/Ring/Reached.antt =====
-- The ring under any ends of its operations: it never holds more than its size, the read and the write
-- touch different places, and one of them is always under way.
use camera_udp.Base.{
  ℕ, ◌+◌, ◌-◌, ◌%◌, ◌^◌, ◌≤◌, ◌<◌, ◌≡◌, ◌≢◌, refl, sym, subst, ap, ◌∙◌, true, false, Option, none,
  some, arith, ltb, leb, dec_lt,
}
use native.Mathlib.Nat.{mod-lt, mod-add-mod, mod-eq_of_lt, mod-eq-sub-mod}
use camera_udp.Ring.{ZRingBuffer, can_write, write_async, start, start_io, end_write, end_read}
use camera_udp.Ring.Flow.{held, IsSetUp, ReaderOk, WriterOk, IsSound}
use mathlib.Core.Option.{some-injective}
use camera_udp.Ring.Sound.{IsSound-end_write, IsSound-end_read}

module _ (size min_read min_write : ℕ) where
  -- A ring with no operation under way; the constructor leaves the words as they are.
  abbrev pub idle : (read_offset data_size io_count : ℕ) → ZRingBuffer
  idle read_offset data_size io_count = record {
    read_offset = read_offset;
    data_size = data_size;
    io_count = io_count;
    reading = none;
    writing = none;
  }

  -- Start, and then the ends of operations with some of their bytes.
  pub data Reach : ZRingBuffer → Type 0 where
    started :
        (a b c : ℕ) (s : ZRingBuffer)
        → start size min_read min_write true (idle a b c) ≡ some s
        → Reach s
    read_ends :
        (n : ℕ) {r : ZRingBuffer} (from to : ℕ)
        → Reach r
        → r.reading ≡ some (from, to)
        → 0 < n
        → n ≤ to - from
        → Reach (end_read size min_read min_write true true n r)
    write_ends :
        (n : ℕ) {r : ZRingBuffer} (from to : ℕ)
        → Reach r
        → r.writing ≡ some (from, to)
        → 0 < n
        → n ≤ to - from
        → Reach (end_write size min_read min_write true true n r)

  first : ZRingBuffer
  first = record {
    read_offset = 0;
    data_size = 0;
    io_count = 2;
    reading = none;
    writing = some (0, size);
  }

  start-first :
      (a b c : ℕ)
      → IsSetUp size min_read min_write
      → start size min_read min_write true (idle a b c) ≡ some first
  unfolding start write_async can_write start_io first
  start-first a b c u =
      let room = u.room in
      let reads = u.reads in
      let small = u.small in
      let guard : ltb (size + 1) (min_read + min_write) ≡ false = ground arith in
      let space : (size + 2 ^ 32 - 0) % 2 ^ 32 ≡ size = omega arith in
      let big : leb min_write size ≡ true = ground arith in
      let wrap : (0 + size) % 2 ^ 32 ≡ size = omega arith in rw (guard, space, big, wrap) refl

  IsSound-first : IsSetUp size min_read min_write → IsSound size min_read min_write first
  unfolding first
  IsSound-first u =
      let room = u.room in
      let reads = u.reads in
      record {
        in_ring = omega (arith, u.writes);
        in_data = omega arith;
        reader = reads;
        writer = (refl, omega arith, omega arith);
        count = refl;
      }

  Reach-IsSound :
      {r : ZRingBuffer}
      → IsSetUp size min_read min_write
      → Reach r
      → IsSound size min_read min_write r
  Reach-IsSound u (started a b c s e) =
      subst (IsSound size min_read min_write) (some-injective _ _ (sym (start-first a b c u) ∙ e))
        (IsSound-first u)
  Reach-IsSound u (read_ends n {r} from to q e pos most) =
      IsSound-end_read size min_read min_write n r from to u (Reach-IsSound u q) e pos most
  Reach-IsSound u (write_ends n {r} from to q e pos most) =
      IsSound-end_write size min_read min_write n r from to u (Reach-IsSound u q) e pos most

  -- One of the two operations is under way.
  never_idle :
      (o d : ℕ) (x y : Option (ℕ × ℕ))
      → IsSetUp size min_read min_write
      → ReaderOk size min_read min_write o d x
      → WriterOk size min_read min_write o d y
      → 0 < held x + held y
  never_idle o d none none u p q = let room = u.room in absurd (omega arith)
  never_idle o d none (some b) u p q = omega arith
  never_idle o d (some a) none u p q = omega arith
  never_idle o d (some a) (some b) u p q = omega arith

  -- Places of the ring less than its size apart differ.
  mod_ne : (x k : ℕ) → 0 < k → k < size → (x + k) % size ≢ x % size
  mod_ne x k pos lt e =
      let less : x % size < size = mod-lt x (omega arith) in
      let split = mod-add-mod x size k in
      elim (dec_lt (x % size + k) size) [
        | yes inside ↦ absurd (omega (arith, split, mod-eq_of_lt inside, e))
        | no around ↦
            let rest : x % size + k - size < size = omega arith in
            let turn : (x % size + k) % size ≡ (x % size + k - size) % size =
              mod-eq-sub-mod (omega arith) in
            absurd (omega (arith, split, turn, mod-eq_of_lt rest, e))
      ]

  apart :
      (o d f t f' t' i j : ℕ)
      → ReaderOk size min_read min_write o d (some (f, t))
      → WriterOk size min_read min_write o d (some (f', t'))
      → d ≤ size
      → i < t - f
      → j < t' - f'
      → (f + i) % size ≢ (f' + j) % size
  apart o d f t f' t' i j (e, p, q) (e', p', q') ld li lj h =
      let there : (f' + j) % size ≡ (o + i + (d + j - i)) % size =
        sym (mod-add-mod f' size j)
        ∙ ap (λ n. (n + j) % size) e'
        ∙ mod-add-mod (o + d) size j
        ∙ ap (λ n. n % size) (omega arith) in
      mod_ne (o + i) (d + j - i) (omega arith) (omega arith)
        (sym there ∙ sym h ∙ ap (λ n. (n + i) % size) e)

  -- In every state that Start and the ends of reads and writes with some of their bytes reach, when each
  -- operation begins and the ring is set up as Start asks, with sizes other than 0 below 2 ^ 31: the ring
  -- holds at most its size, a read or a write is under way, the count is one more than these, and no
  -- place of the read is one of the write.
  pub Reach-flows :
      (r : ZRingBuffer)
      → IsSetUp size min_read min_write
      → Reach r
      → (r.data_size ≤ size)
        × (0 < held r.reading + held r.writing)
        × (r.io_count ≡ 1 + held r.reading + held r.writing)
        × ((f t f' t' i j : ℕ)
            → r.reading ≡ some (f, t)
            → r.writing ≡ some (f', t')
            → i < t - f
            → j < t' - f'
            → (f + i) % size ≢ (f' + j) % size)
  Reach-flows r u q =
      let v = Reach-IsSound u q in
      (
        v.in_data,
        never_idle r.read_offset r.data_size r.reading r.writing u v.reader v.writer,
        v.count,
        λ f t f' t' i j e e'.
            apart r.read_offset r.data_size f t f' t' i j
              (subst (ReaderOk size min_read min_write r.read_offset r.data_size) e v.reader)
              (subst (WriterOk size min_read min_write r.read_offset r.data_size) e' v.writer)
              v.in_data,
      )
