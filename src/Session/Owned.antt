-- ===== src/Session/Owned.antt =====
-- A session gives back every buffer and every KsRead object that it makes, unless Create fails.
use camera_udp.Base.{
  ℕ, suc, ◌+◌, ◌≤◌, ◌≡◌, refl, sym, ap, ◌∙◌, inl, inr, true, Option, none, some, arith, Bool-cases,
}
use mathlib.Core.Bool.{true≢false}
use camera_udp.Capture.{is_success}
use camera_udp.Session.{
  CEncTcp, Machine, release_pin, stop_pin, stop, delete_buf, delete_m_buf, run_pin,
}

abbrev pub held : Option ℕ → ℕ
held none = 0
held (some a) = 1

-- What the session holds is among what it made.
pub record IsValid (s : CEncTcp) : Type 0 where
  pub readers : held s.pin ≤ s.readers
  pub buffers : held s.m_buf ≤ s.buffers

-- `lost` KsRead objects are made and forgotten, none if `Ok`; the rest of what is made is held.
pub record Moved (Ok : Type 0) (s t : CEncTcp) : Type 0 where
  pub lost : ℕ
  pub readers : t.readers + held s.pin ≡ s.readers + held t.pin + lost
  pub buffers : t.buffers + held s.m_buf ≡ s.buffers + held t.m_buf
  pub none_lost : Ok → lost ≡ 0

pub still : {Ok : Type 0} (s : CEncTcp) → Moved Ok s s
still s = record { lost = 0; readers = omega arith; buffers = refl; none_lost = λ _. refl }

pub Moved-IsValid : {Ok : Type 0} {s t : CEncTcp} → IsValid s → Moved Ok s t → IsValid t
Moved-IsValid v w = record {
  readers = omega (arith, v.readers, w.readers);
  buffers = omega (arith, v.buffers, w.buffers);
}

pub Moved-Moved : {Ok : Type 0} {s t u : CEncTcp} → Moved Ok s t → Moved Ok t u → Moved Ok s u
Moved-Moved w w' = record {
  lost = w.lost + w'.lost;
  readers = omega (arith, w.readers, w'.readers);
  buffers = omega (arith, w.buffers, w'.buffers);
  none_lost = λ ok. omega (arith, w.none_lost ok, w'.none_lost ok);
}

Moved-stop_pin :
    {Ok : Type 0} (o : Option ℕ) (s : CEncTcp) → o ≡ s.pin → IsValid s → Moved Ok s (stop_pin o s).1
unfolding stop_pin release_pin
Moved-stop_pin none s e v = still s
Moved-stop_pin (some pin) s e v =
    let one_held : 1 ≡ held s.pin = ap held e in
    record {
      lost = 0;
      readers = omega (arith, v.readers, one_held);
      buffers = refl;
      none_lost = λ _. refl;
    }

pub Moved-stop : {Ok : Type 0} (s : CEncTcp) → IsValid s → Moved Ok s (stop s).1
unfolding stop
Moved-stop s v = Moved-stop_pin s.pin s refl v

Moved-delete_buf :
    {Ok : Type 0} (o : Option ℕ) (s : CEncTcp)
    → o ≡ s.m_buf
    → IsValid s
    → Moved Ok s (delete_buf o s)
unfolding delete_buf
Moved-delete_buf none s e v = still s
Moved-delete_buf (some buf) s e v =
    let one_held : 1 ≡ held s.m_buf = ap held e in
    record {
      lost = 0;
      readers = omega arith;
      buffers = omega (arith, v.buffers, one_held);
      none_lost = λ _. refl;
    }

pub Moved-delete_m_buf : {Ok : Type 0} (s : CEncTcp) → IsValid s → Moved Ok s (delete_m_buf s)
unfolding delete_m_buf
Moved-delete_m_buf s v = Moved-delete_buf s.m_buf s refl v

pub m_buf-delete_buf : (o : Option ℕ) (s : CEncTcp) → o ≡ s.m_buf → (delete_buf o s).m_buf ≡ none
unfolding delete_buf
m_buf-delete_buf none s e = sym e
m_buf-delete_buf (some buf) s e = refl

pub pin-stop_pin : (o : Option ℕ) (s : CEncTcp) → o ≡ s.pin → (stop_pin o s).1.pin ≡ none
unfolding stop_pin release_pin
pin-stop_pin none s e = sym e
pin-stop_pin (some pin) s e = refl

-- Create of the machine succeeds.
abbrev pub Creates : Machine → Type 0
Creates machine = (format : ℕ) → is_success (machine.create format) ≡ true

module _ (machine : Machine) where
  pub Moved-run_pin :
      (pin format : ℕ) (s : CEncTcp)
      → s.pin ≡ none
      → Moved
          (Creates machine)
          s
          (run_pin machine pin (machine.create format) (record s { readers = suc s.readers })).1
  unfolding run_pin release_pin
  Moved-run_pin pin format s e =
      let none_held : held s.pin ≡ 0 = ap held e in
      elim (Bool-cases (is_success (machine.create format))) [
        | inr f ↦ rw f (record {
          lost = 1;
          readers = omega arith;
          buffers = refl;
          none_lost = λ ok. absurd (true≢false (sym (ok format) ∙ f));
        })
        | inl f ↦ rw f (elim (Bool-cases (is_success machine.set_state)) [
          | inl g ↦ rw g (record {
            lost = 0;
            readers = omega (arith, none_held);
            buffers = refl;
            none_lost = λ _. refl;
          })
          | inr g ↦
              rw g
                (record { lost = 0; readers = omega arith; buffers = refl; none_lost = λ _. refl })
        ])
      ]
