-- ===== src/Listing/Kept.antt =====
-- What CreateInfo keeps in any case, also when a walk over ranges is left early: memory below the
-- server's list, and the alignment of the client's.
use camera_udp.Base.{
  read, ℕ, zero, suc, ◌+◌, ◌-◌, ◌%◌, ◌≤◌, ◌<◌, ◌≡◌, refl, ap, ◌∙◌, inl, inr, true, false, ◌&&◌,
  ◌||◌, List, [], ◌∷◌, Option, none, some, arith, ltb, ◌==◌, if◌then◌else◌, length, copy,
  copy_outside, Bool-cases,
}
use camera_udp.Formats.{ulong_at, align_data_range, align_vfi}
use camera_udp.Listing.{
  Device, Pin, Machine, Lists, ulong_bytes, is_wanted, take_range, range_step, leaves, walk_ranges,
  keep_ranges, read_ranges, pin_step, create_pins, align_lists, end_formats, named_device,
  device_step,
}
use camera_udp.Listing.Entries.{IsDdk}
use camera_udp.Listing.Message.{IsNamed, Result, Result-map}
use camera_udp.Listing.Cameras.{Written, Written-write_name}

pub record Loose (s t : Lists) : Type 0 where
  pub pb : s.pb ≤ t.pb
  pub pf : t.pf % 4 ≡ s.pf % 4
  pub kept : (a : ℕ) → a < s.pb → t.memory a ≡ s.memory a

loose :
    (s t : Lists)
    → t.pb ≡ s.pb
    → t.pf ≡ s.pf
    → ((a : ℕ) → a < s.pb → t.memory a ≡ s.memory a)
    → Loose s t
loose s t e e' k = record { pb = omega (arith, e); pf = ap (λ n. n % 4) e'; kept = k }

Loose-Loose : {s t u : Lists} → Loose s t → Loose t u → Loose s u
Loose-Loose l k =
    let up = l.pb in
    record {
      pb = omega (arith, l.pb, k.pb);
      pf = k.pf ∙ l.pf;
      kept = λ a h. k.kept a (omega (arith, up)) ∙ l.kept a h;
    }

module _ (machine : Machine) where
  Loose-range_step : (pc : ℕ) (s : Lists) → Loose s (range_step machine pc s).1
  unfolding range_step take_range
  Loose-range_step pc s = elim (Bool-cases (is_wanted machine (machine.video_at s.memory pc))) [
    | inr e ↦ rw e (loose s s refl refl (λ a h. refl))
    | inl e ↦ rw e (record {
      pb = omega arith;
      pf = omega arith;
      kept = λ a h.
          copy_outside s.memory s.pb (read s.memory pc machine.size_video) a (λ p q. omega arith);
    })
  ]

  Loose-walk_ranges :
      (count size pc : ℕ) (s : Lists)
      → IsDdk machine
      → Loose s (walk_ranges machine count size pc s).1
  unfolding walk_ranges
  Loose-walk_ranges zero size pc s d = loose s s refl refl (λ a h. refl)
  Loose-walk_ranges (suc count) size pc s d =
      let one = range_step machine pc s in
      elim (Bool-cases (leaves machine size pc s)) [
        | inl e ↦ rw e (loose s (record s { whole = false }) refl refl (λ a h. refl))
        | inr e ↦ rw e (Loose-Loose (Loose-range_step pc s) (Loose-walk_ranges count _ _ one.1 d))
      ]

  Loose-keep_ranges :
      (s : Lists) (w : List ℕ × Lists) → Loose s w.1 → Loose s (keep_ranges machine s w).1
  unfolding keep_ranges
  Loose-keep_ranges s w l = elim (Bool-cases w.1.whole) [
    | inl e ↦ rw e (record { pb = l.pb; pf = l.pf; kept = l.kept })
    | inr e ↦ rw e (record { pb = omega arith; pf = l.pf; kept = l.kept })
  ]

  Loose-read_ranges :
      (answer : Option (List ℕ)) (s : Lists)
      → IsDdk machine
      → Loose s (read_ranges machine answer s).1
  unfolding read_ranges
  Loose-read_ranges none s d = loose s s refl refl (λ a h. refl)
  Loose-read_ranges (some bytes) s d =
      let s1 : Lists = record s { memory = copy s.memory s.pb bytes } in
      let size = ulong_at s1.memory s.pb in
      let count = ulong_at s1.memory (s.pb + 4) in
      let below =
        λ (a : ℕ). λ (g : a < s.pb). copy_outside s.memory s.pb bytes a (λ p q. omega arith) in
      let idle = loose s s1 refl refl below in
      elim (Bool-cases (count == 0)) [
        | inl e ↦ rw e idle
        | inr e ↦ rw e (elim (Bool-cases (ltb 8 size && (size == length bytes))) [
          | inr f ↦ rw f idle
          | inl f ↦
              let walk =
                Loose-walk_ranges count (size - 8) (s.pb + 8) (record s1 { whole = true }) d in
              let from : Loose s1 (record s1 { whole = true }) =
                loose _ _ refl refl (λ a h. refl) in
              rw f (
                Loose-Loose idle (
                  Loose-keep_ranges s1
                    (walk_ranges machine count (size - 8) (s.pb + 8) (record s1 { whole = true }))
                    (Loose-Loose from walk)))
        ])
      ]

  Loose-create_pins :
      (pins : List Pin) (s : Lists) → IsDdk machine → Loose s (create_pins machine pins s).1
  unfolding create_pins pin_step
  Loose-create_pins [] s d = loose s s refl refl (λ a h. refl)
  Loose-create_pins (pin ∷ pins) s d = elim (Bool-cases (pin.flows_out && pin.captures)) [
    | inr e ↦ rw e (Loose-create_pins pins s d)
    | inl e ↦
        rw e
          (Loose-Loose (Loose-read_ranges (pin.data_ranges s.cb) s d) (Loose-create_pins pins _ d))
  ]

  Loose-end_formats : (x : List ℕ × Lists) → Result (λ bytes u. Loose x.1 u) (end_formats machine x)
  unfolding end_formats
  Loose-end_formats x = elim (Bool-cases (ltb x.1.cb 4 || ltb x.1.cb2 4)) [
    | inl b ↦ rw b tt
    | inr b ↦ rw b (record {
      pb = omega arith;
      pf = omega arith;
      kept = λ a h. copy_outside x.1.memory x.1.pb (ulong_bytes 0) a (λ p q. omega arith);
    })
  ]

  Loose-align_lists :
      (device : Device) (s s1 : Lists) (name : List ℕ)
      → s.pf % 4 ≡ 0
      → Written machine device s s1 name
      → Loose s (align_lists machine s1).1
  unfolding align_lists align_data_range align_vfi
  Loose-align_lists device s s1 name al w = record {
    pb = omega (arith, w.pb);
    pf = omega (arith, al);
    kept = λ a h. ap (λ m. m a) w.memory;
  }

  Loose-named_device :
      (device : Device) (o : Option (List ℕ × Lists)) (s : Lists)
      → s.pf % 4 ≡ 0
      → IsDdk machine
      → Result (λ bytes t. Written machine device s t bytes) o
      → Result (λ bytes u. Loose s u) (named_device machine device o)
  unfolding named_device
  Loose-named_device device none s al d w = tt
  Loose-named_device device (some (name, s1)) s al d w =
      let s2 = (align_lists machine s1).1 in
      let pins : List Pin = if device.opens then device.pins else [] in
      let front =
        Loose-Loose (Loose-align_lists device s s1 name al w) (Loose-create_pins pins s2 d) in
      Result-map {Q = λ b u. Loose s u} _ (λ b u l. Loose-Loose front l) (Loose-end_formats _)

  pub Loose-device_step :
      (device : Device) (s : Lists)
      → s.pf % 4 ≡ 0
      → IsDdk machine
      → IsNamed device
      → Result (λ bytes u. Loose s u) (device_step machine device s)
  unfolding device_step
  Loose-device_step device s al d named = Loose-named_device device _ s al d (
      Written-write_name machine device (device.friendly_name s.cb2) s s.cb2
        (λ name e. named s.cb2 name e) refl)
