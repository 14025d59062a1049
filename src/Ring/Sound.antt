-- ===== src/Ring/Sound.antt =====
-- The end of a read or a write keeps the ring sound.
use camera_udp.Base.{
  ℕ, ◌+◌, ◌-◌, ◌%◌, ◌^◌, ◌≤◌, ◌<◌, ◌≡◌, ◌≢◌, refl, sym, subst, ap, ◌∙◌, true, none, some, arith,
  ==_of_ne,
}
use native.Mathlib.Nat.{mod-lt, mod-add-mod}
use camera_udp.Ring.{ZRingBuffer, written, end_write, taken, end_read}
use camera_udp.Ring.Flow.{
  held, IsSetUp, ReaderOk, WriterOk, IsSound, Woken-read_async, Woken-write_async, Woken-reader,
  Woken-writer, assemble,
}

n_ne : (n : ℕ) → 0 < n → n ≢ 0
n_ne n pos e = omega arith

module _ (size min_read min_write : ℕ) where
  pub IsSound-end_write :
      (n : ℕ) (r : ZRingBuffer) (from to : ℕ)
      → IsSetUp size min_read min_write
      → IsSound size min_read min_write r
      → r.writing ≡ some (from, to)
      → 0 < n
      → n ≤ to - from
      → IsSound size min_read min_write (end_write size min_read min_write true true n r)
  unfolding end_write written
  IsSound-end_write n r from to u v e pos most =
      let (at, least, fits) =
        subst (WriterOk size min_read min_write r.read_offset r.data_size) e v.writer in
      let small = u.small in
      let in_ring = v.in_ring in
      let in_data = v.in_data in
      let one_held : held r.writing ≡ 1 = ap held e in
      let sum : (r.data_size + n) % 2 ^ 32 ≡ r.data_size + n = omega arith in
      let m : ZRingBuffer = record r { writing = none; data_size = r.data_size + n } in
      let w =
        Woken-reader size min_read min_write r.read_offset r.data_size (r.data_size + n) m v.reader
          (omega arith) (omega arith) (omega arith) in
      let k =
        Woken-write_async size min_read min_write r.read_offset (r.data_size + n) _ w.same small
          (omega arith) (omega arith) in
      rw (==_of_ne (n_ne n pos), sum)
        (assemble size min_read min_write r.read_offset (r.data_size + n) _ _ _
          (k.offset ∙ w.offset) (k.amount ∙ w.amount) k.same refl in_ring (omega arith) w.ok k.ok
          (omega (arith, w.count, k.count, v.count, one_held, ap held w.same)))

  pub IsSound-end_read :
      (n : ℕ) (r : ZRingBuffer) (from to : ℕ)
      → IsSetUp size min_read min_write
      → IsSound size min_read min_write r
      → r.reading ≡ some (from, to)
      → 0 < n
      → n ≤ to - from
      → IsSound size min_read min_write (end_read size min_read min_write true true n r)
  unfolding end_read taken
  IsSound-end_read n r from to u v e pos most =
      let (at, least, fits) =
        subst (ReaderOk size min_read min_write r.read_offset r.data_size) e v.reader in
      let small = u.small in
      let in_ring = v.in_ring in
      let in_data = v.in_data in
      let one_held : held r.reading ≡ 1 = ap held e in
      let o' = (r.read_offset + n) % size in
      let lt : o' < size = mod-lt (r.read_offset + n) (omega arith) in
      let wide : (r.read_offset + n) % 2 ^ 32 ≡ r.read_offset + n = omega arith in
      let less : (r.data_size + 2 ^ 32 - n) % 2 ^ 32 ≡ r.data_size - n = omega arith in
      let m : ZRingBuffer = record r {
        reading = none;
        read_offset = o';
        data_size = r.data_size - n;
      } in
      let whole : r.read_offset + n + (r.data_size - n) ≡ r.read_offset + r.data_size =
        omega arith in
      let place =
        sym (mod-add-mod (r.read_offset + n) size (r.data_size - n) ∙ ap (λ k. k % size) whole) in
      let w =
        Woken-writer size min_read min_write r.read_offset r.data_size o' (r.data_size - n) m
          v.writer place (omega arith) in_data small (omega arith) in
      let k =
        Woken-read_async size min_read min_write o' (r.data_size - n) _ w.same (omega arith)
          (omega arith) in
      rw (==_of_ne (n_ne n pos), wide, less)
        (assemble size min_read min_write o' (r.data_size - n) _ _ _ (k.offset ∙ w.offset)
          (k.amount ∙ w.amount) refl k.same lt (omega arith) k.ok w.ok
          (omega (arith, w.count, k.count, v.count, one_held, ap held w.same)))
