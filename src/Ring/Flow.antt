-- ===== src/Ring/Flow.antt =====
-- The two operations of the ring: what they may touch, and how an end of one starts the other.
use camera_udp.Base.{
  ℕ, ◌+◌, ◌-◌, ◌%◌, ◌^◌, ◌≤◌, ◌<◌, ◌≡◌, refl, sym, subst, ap, ◌∙◌, inl, inr, true, Option, none,
  some, arith, leb, Bool-cases, if◌then◌else◌,
}
use camera_udp.Ring.{ZRingBuffer, can_read, can_write, start_io, end_io, read_async, write_async}

abbrev pub held : Option (ℕ × ℕ) → ℕ
held none = 0
held (some range) = 1

module _ (size min_read min_write : ℕ) where
  -- What Start asks for, of sizes other than 0, and a ring below 2 ^ 31.
  pub record IsSetUp : Type 0 where
    pub reads : 0 < min_read
    pub writes : 0 < min_write
    pub room : min_read + min_write ≤ size + 1
    pub small : size < 2 ^ 31

  -- A read is under way at the data, or there is too little data.
  abbrev pub ReaderOk : (read_offset data_size : ℕ) → Option (ℕ × ℕ) → Type 0
  ReaderOk o d none = d < min_read
  ReaderOk o d (some (from, to)) = (from ≡ o) × (from + min_read ≤ to) × (to ≤ from + d)

  -- A write is under way behind the data, or there is too little room.
  abbrev pub WriterOk : (read_offset data_size : ℕ) → Option (ℕ × ℕ) → Type 0
  WriterOk o d none = size < d + min_write
  WriterOk o d (some (from, to)) =
      (from % size ≡ (o + d) % size) × (from + min_write ≤ to) × (to + d ≤ from + size)

  pub record IsSound (r : ZRingBuffer) : Type 0 where
    pub in_ring : r.read_offset < size
    pub in_data : r.data_size ≤ size
    pub reader : ReaderOk r.read_offset r.data_size r.reading
    pub writer : WriterOk r.read_offset r.data_size r.writing
    pub count : r.io_count ≡ 1 + held r.reading + held r.writing

  -- A further operation was started, or not.
  pub record Woken (Ok : Option (ℕ × ℕ) → Type 0) (before now other other' : Option (ℕ × ℕ))
      (r s : ZRingBuffer) : Type 0 where
    pub ok : Ok now
    pub same : other' ≡ other
    pub offset : s.read_offset ≡ r.read_offset
    pub amount : s.data_size ≡ r.data_size
    pub count : s.io_count + held before ≡ r.io_count + held now

  pub Woken-read_async :
      (o d : ℕ) (r : ZRingBuffer)
      → r.reading ≡ none
      → o < 2 ^ 31
      → d < 2 ^ 31
      → let s = read_async size min_read min_write true o d r in
        Woken (ReaderOk o d) r.reading s.reading r.writing s.writing r s
  unfolding read_async can_read start_io
  Woken-read_async o d r e lo ld =
      let z : held r.reading ≡ 0 = ap held e in
      elim (Bool-cases (leb min_read d)) [
        | inl b ↦ rw b (record {
          ok = (refl, ground (arith, b), omega arith);
          same = refl;
          offset = refl;
          amount = refl;
          count = omega (arith, z);
        })
        | inr b ↦
            rw (b, e)
              (record {
                ok = ground (arith, b);
                same = refl;
                offset = refl;
                amount = refl;
                count = omega (arith, z);
              })
      ]

  pub Woken-write_async :
      (o d : ℕ) (r : ZRingBuffer)
      → r.writing ≡ none
      → size < 2 ^ 31
      → o < 2 ^ 31
      → d ≤ size
      → let s = write_async size min_read min_write true o d r in
        Woken (WriterOk o d) r.writing s.writing r.reading s.reading r s
  unfolding write_async can_write start_io
  Woken-write_async o d r e small lo ld =
      let room : (size + 2 ^ 32 - d) % 2 ^ 32 ≡ size - d = omega arith in
      let z : held r.writing ≡ 0 = ap held e in
      rw room (elim (Bool-cases (leb min_write (size - d))) [
        | inl b ↦ rw b (record {
          ok = (ap (λ n. n % size) (omega arith), ground (arith, b), omega arith);
          same = refl;
          offset = refl;
          amount = refl;
          count = omega (arith, z);
        })
        | inr b ↦
            rw (b, e)
              (record {
                ok = ground (arith, b);
                same = refl;
                offset = refl;
                amount = refl;
                count = omega (arith, z);
              })
      ])

  reader_goes_on :
      (x : Option (ℕ × ℕ)) (o d d' : ℕ) → ReaderOk o d x → min_read ≤ d → d ≤ d' → ReaderOk o d' x
  reader_goes_on none o d d' h p q = absurd (omega arith)
  reader_goes_on (some (from, to)) o d d' (e, p, q) h g = (e, p, omega arith)

  reader_waits : (x : Option (ℕ × ℕ)) (o d : ℕ) → ReaderOk o d x → d < min_read → x ≡ none
  reader_waits none o d h lt = refl
  reader_waits (some (from, to)) o d (e, p, q) lt = absurd (omega arith)

  writer_goes_on :
      (x : Option (ℕ × ℕ)) (o d o' d' : ℕ)
      → WriterOk o d x
      → (o + d) % size ≡ (o' + d') % size
      → d + min_write ≤ size
      → d' ≤ d
      → WriterOk o' d' x
  writer_goes_on none o d o' d' h e p q = absurd (omega arith)
  writer_goes_on (some (from, to)) o d o' d' (e, p, q) e' h g = (e ∙ e', p, omega arith)

  writer_waits : (x : Option (ℕ × ℕ)) (o d : ℕ) → WriterOk o d x → size < d + min_write → x ≡ none
  writer_waits none o d h lt = refl
  writer_waits (some (from, to)) o d (e, p, q) lt = absurd (omega arith)

  -- EndWrite wakes a reader that waits for the data.
  pub Woken-reader :
      (o d d' : ℕ) (m : ZRingBuffer)
      → ReaderOk o d m.reading
      → d ≤ d'
      → o < 2 ^ 31
      → d' < 2 ^ 31
      → let s =
          (if can_read size min_read min_write d
            then m
            else read_async size min_read min_write true o d' m) in
        Woken (ReaderOk o d') m.reading s.reading m.writing s.writing m s
  unfolding can_read
  Woken-reader o d d' m h le lo ld = elim (Bool-cases (leb min_read d)) [
    | inl b ↦ rw b (record {
      ok = reader_goes_on m.reading o d d' h (ground (arith, b)) le;
      same = refl;
      offset = refl;
      amount = refl;
      count = refl;
    })
    | inr b ↦
        rw b (Woken-read_async o d' m (reader_waits m.reading o d h (ground (arith, b))) lo ld)
  ]

  -- EndRead wakes a writer that waits for the room.
  pub Woken-writer :
      (o d o' d' : ℕ) (m : ZRingBuffer)
      → WriterOk o d m.writing
      → (o + d) % size ≡ (o' + d') % size
      → d' ≤ d
      → d ≤ size
      → size < 2 ^ 31
      → o' < 2 ^ 31
      → let s =
          (if can_write size min_read min_write d
            then m
            else write_async size min_read min_write true o' d' m) in
        Woken (WriterOk o' d') m.writing s.writing m.reading s.reading m s
  unfolding can_write
  Woken-writer o d o' d' m h e le ld small lo =
      let room : (size + 2 ^ 32 - d) % 2 ^ 32 ≡ size - d = omega arith in
      rw room (elim (Bool-cases (leb min_write (size - d))) [
        | inl b ↦ rw b (record {
          ok = writer_goes_on m.writing o d o' d' h e (ground (arith, b)) le;
          same = refl;
          offset = refl;
          amount = refl;
          count = refl;
        })
        | inr b ↦ rw b (
            Woken-write_async o' d' m (writer_waits m.writing o d h (ground (arith, b))) small lo
              (omega arith))
      ])

  pub assemble :
      (o d : ℕ) (x y : Option (ℕ × ℕ)) (s : ZRingBuffer)
      → s.read_offset ≡ o
      → s.data_size ≡ d
      → s.reading ≡ x
      → s.writing ≡ y
      → o < size
      → d ≤ size
      → ReaderOk o d x
      → WriterOk o d y
      → s.io_count ≡ 2 + held x + held y
      → IsSound (end_io size min_read min_write s)
  unfolding end_io
  assemble o d x y s eo ed ex ey lo ld rd wr c =
      let held_x = ap held ex in
      let held_y = ap held ey in
      record {
        in_ring = omega (arith, eo);
        in_data = omega (arith, ed);
        reader =
            subst (λ z. ReaderOk s.read_offset s.data_size z) (sym ex)
              (subst (λ a. ReaderOk a s.data_size x) (sym eo)
                (subst (λ a. ReaderOk o a x) (sym ed) rd));
        writer =
            subst (λ z. WriterOk s.read_offset s.data_size z) (sym ey)
              (subst (λ a. WriterOk a s.data_size y) (sym eo)
                (subst (λ a. WriterOk o a y) (sym ed) wr));
        count = omega (arith, held_x, held_y, c);
      }
