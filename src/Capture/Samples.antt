-- ===== src/Capture/Samples.antt =====
-- The frames that Create cuts from its buffer.
use camera_udp.Base.{
  occurs, ℕ, zero, suc, ◌+◌, ◌*◌, ◌^◌, ◌≤◌, ◌<◌, ◌≡◌, ◌⊎◌, inl, inr, true, some, arith, leb,
  if◌then◌else◌, dec_lt,
}
use camera_udp.Capture.{
  KsRead, create, create_pin, create_bound, empty, align_sample, samples_buffer_size, push_frame,
  push_frames, is_success,
}

push_frames-inside :
    (n base size : ℕ) (r : KsRead) (a : ℕ)
    → 0 < occurs a (push_frames n base size r).head
    → (0 < occurs a r.head) ⊎ ((base ≤ a) × (a + size ≤ base + n * size))
unfolding push_frames push_frame
push_frames-inside zero base size r a h = inl h
push_frames-inside (suc n) base size r a h =
    elim (push_frames-inside n (base + size) size (push_frame base r) a h) [
      | inl g ↦ elim (dec_lt 0 (occurs a r.head)) [
        | yes p ↦ inl p
        | no p ↦ inr (ground (arith, g), ground (arith, g))
      ]
      | inr (p, q) ↦ inr (omega arith, omega arith)
    ]

push_frames-once :
    (n base size : ℕ) (r : KsRead) (a : ℕ)
    → 0 < size
    → occurs a r.head + (if leb base a then 1 else 0) ≤ 1
    → occurs a (push_frames n base size r).head ≤ 1
unfolding push_frames push_frame
push_frames-once zero base size r a pos h = omega arith
push_frames-once (suc n) base size r a pos h =
    push_frames-once n (base + size) size (push_frame base r) a pos (ground arith)

align_sample-enough :
    (size : ℕ)
    → size + 15 < 2 ^ 28
    → (size ≤ align_sample size) × (samples_buffer_size size ≡ 16 * align_sample size)
unfolding align_sample samples_buffer_size
align_sample-enough size h = (omega arith, omega arith)

-- If CreatePin and BindIoCompletion succeed and the sample size, rounded up, is below 2 ^ 28, each frame
-- of Create lies in the allocated buffer with room for a sample, and no frame is listed twice.
pub create-frames :
    (base last pin bind size a : ℕ)
    → is_success pin ≡ true
    → is_success bind ≡ true
    → 0 < size
    → size + 15 < 2 ^ 28
    → let head = (create (some base) last pin bind size empty).1.head in
      (0 < occurs a head → (base ≤ a) × (a + size ≤ base + samples_buffer_size size))
      × (occurs a head ≤ 1)
unfolding create create_pin create_bound
create-frames base last pin bind size a p b pos lt =
    let (big, total) = align_sample-enough size lt in
    let room = push_frames-inside 16 base (align_sample size) empty a in
    let once = push_frames-once 16 base (align_sample size) empty a (omega arith) (ground arith) in
    rw (p, b)
      (λ h. elim (room h) [ inl g ↦ absurd (omega arith) | inr (q, g) ↦ (q, omega arith) ], once)
