-- ===== src/Listing/Cameras.antt =====
-- What the second CreateInfo writes for one camera: a name, padding, the entries and a 0 for the client,
-- and the ranges and a 0 for the server.
use camera_udp.Base.{
  ◌^◌, ◌≢◌, if◌then◌else◌, Bool, ℕ, ◌+◌, ◌-◌, ◌*◌, ◌/◌, ◌%◌, ◌<◌, ◌≡◌, refl, sym, ap, subst, ◌∙◌,
  inl, inr, true, false, ◌||◌, List, [], ◌∷◌, ◌++◌, Option, none, some, arith, ltb, if◌then◌else◌,
  length, length-append, Memory, copy, read, copy_outside, length-read, Bool-cases,
}
use mathlib.Core.Bool.{true≢false}
use camera_udp.Formats.{ulong_at, align_data_range, align_vfi}
use camera_udp.Listing.{
  VideoRange, Device, Pin, Machine, Lists, ulong_bytes, create_pins, write_name, align_lists,
  end_formats, named_device, device_step,
}
use camera_udp.Listing.Ranges.{
  Holds, Holds-append, Holds-copy, ulong_at-Holds, NonzeroAt, NonzeroAt-eq,
}
use camera_udp.Listing.Entries.{
  EntriesAt, AllOf, IsIn, IsOffered, IsDdk, OfPins, RangesAt, RangesAt-eq,
}
use camera_udp.Listing.Blocks.{Grew}
use camera_udp.Listing.Walks.{Grew-create_pins}
use camera_udp.Listing.Message.{
  IsName, IsNamed, IsName-star, IsChunk, IsChunk-parts, length-parts, Result, Result-map,
}

-- The name that the camera gives for some room, or '*' if it gives none.
abbrev pub IsAnswer : Option (List ℕ) → List ℕ → Type 0
IsAnswer (some friendly) name = friendly ≡ name
IsAnswer none name = name ≡ 42 ∷ 0 ∷ 0 ∷ 0 ∷ []

abbrev pub IsNameOf : Device → List ℕ → Type 0
IsNameOf device name = (room : ℕ) × IsAnswer (device.friendly_name room) name

module _ (machine : Machine) where
  -- The bytes for a camera: its name, and, from the next multiple of four on, the entries of all wanted
  -- ranges that its drivers offer.
  pub record IsCamera (device : Device) (formats : List VideoRange) (bytes : List ℕ) : Type 0 where
    pub name : List ℕ
    pub of : IsNameOf device name
    pub starts : (m : Memory) (at : ℕ) → Holds m at bytes → Holds m at name
    pub client :
        (m : Memory) (at : ℕ)
        → at % 4 ≡ 0
        → Holds m at bytes
        → EntriesAt m (at + align_vfi (length name)) formats
    pub source : AllOf (IsOffered machine device) formats
    pub all : OfPins machine (if device.opens then device.pins else []) formats

  -- One camera, with the same number of formats in both lists.
  pub record Added (device : Device) (s t : Lists) (bytes : List ℕ) : Type 0 where
    pub count : ℕ
    pub chunk : IsChunk count bytes
    pub pb : t.pb ≡ align_data_range s.pb + count * machine.size_video + 4
    pub pf : t.pf ≡ s.pf + length bytes
    pub kept : (a : ℕ) → a < s.pb → t.memory a ≡ s.memory a
    pub ranges : NonzeroAt machine.size_video t.memory (align_data_range s.pb) count
    pub ending : ulong_at t.memory (align_data_range s.pb + count * machine.size_video) ≡ 0
    pub whole : s.whole ≡ true
    pub formats : List VideoRange
    pub each : length formats ≡ count
    pub camera : IsCamera device formats bytes
    pub listed : RangesAt machine t.memory (align_data_range s.pb) formats

  -- The name for the client.
  pub record Written (device : Device) (s t : Lists) (bytes : List ℕ) : Type 0 where
    pub name : IsName bytes
    pub of : IsNameOf device bytes
    pub pf : t.pf ≡ s.pf + length bytes
    pub pb : t.pb ≡ s.pb
    pub memory : t.memory ≡ s.memory
    pub whole : t.whole ≡ s.whole

  pub Written-write_name :
      (device : Device) (o : Option (List ℕ)) (s : Lists) (room : ℕ)
      → ((name : List ℕ) → o ≡ some name → IsName name)
      → o ≡ device.friendly_name room
      → Result (λ bytes t. Written device s t bytes) (write_name machine o s)
  unfolding write_name
  Written-write_name device (some name) s room named e = record {
    name = named name refl;
    of = (room, subst (λ o. IsAnswer o name) e refl);
    pf = refl;
    pb = refl;
    memory = refl;
    whole = refl;
  }
  Written-write_name device none s room named e = elim (Bool-cases (ltb s.cb2 4)) [
    | inl b ↦ rw b tt
    | inr b ↦ rw b (record {
      name = IsName-star;
      of = (room, subst (λ o. IsAnswer o (42 ∷ 0 ∷ 0 ∷ 0 ∷ [])) e refl);
      pf = refl;
      pb = refl;
      memory = refl;
      whole = refl;
    })
  ]

  -- After the name: the state is that of `s` but for the place of the client's list.
  Added-formats :
      (device : Device) (name formats : List ℕ) (vs : List VideoRange) (s s1 t : Lists)
      → s.pf % 4 ≡ 0
      → IsDdk machine
      → Written device s s1 name
      → Grew machine (IsOffered machine device) (align_lists machine s1).1 t formats vs
      → OfPins machine (if device.opens then device.pins else []) vs
      → s.whole ≡ true
      → Result
          (λ bytes u. Added device s u bytes)
          (end_formats machine (name ++ (align_lists machine s1).0 ++ formats, t))
  unfolding end_formats align_lists align_data_range align_vfi
  Added-formats device name formats vs s s1 t al d w g o whole =
      let named = (w.name).size in
      let to_pb = w.pb in
      let to_pf = w.pf in
      let large = d.large in
      let t_pb = g.pb in
      let t_pf = g.pf in
      let pad = (s1.pf + 3) / 4 * 4 - s1.pf in
      let chunk : IsChunk g.count
          (name ++ read machine.junk s1.pf pad ++ formats ++ ulong_bytes 0) =
        IsChunk-parts name (read machine.junk s1.pf pad) formats g.count w.name
          (omega (arith, length-read machine.junk s1.pf pad, to_pf, al)) g.size g.entries in
      let same = λ (a : ℕ).
        λ (h : a < t.pb). copy_outside t.memory t.pb (ulong_bytes 0) a (λ p q. omega arith) in
      let start : (s1.pb + 7) / 8 * 8 ≡ (s.pb + 7) / 8 * 8 = omega (arith, to_pb) in
      let stop : t.pb ≡ (s.pb + 7) / 8 * 8 + g.count * machine.size_video =
        omega (arith, t_pb, start) in
      let after = copy t.memory t.pb (ulong_bytes 0) in
      let filler = read machine.junk s1.pf pad in
      let front = λ (m : Memory). λ (at : ℕ).
        λ (h : Holds m at (name ++ filler ++ formats ++ ulong_bytes 0)).
          (Holds-append m at (name ++ filler ++ formats) (ulong_bytes 0) h).0 in
      let starts = λ (m : Memory). λ (at : ℕ).
        λ (h : Holds m at (name ++ filler ++ formats ++ ulong_bytes 0)).
          (Holds-append m at name filler
            (Holds-append m at (name ++ filler) formats (front m at h)).0).0 in
      let middle = λ (m : Memory). λ (at : ℕ).
        λ (h : Holds m at (name ++ filler ++ formats ++ ulong_bytes 0)).
          (Holds-append m at (name ++ filler) formats (front m at h)).1 in
      let filler_size = length-read machine.junk s1.pf pad in
      let sum = length-append name filler in
      let tail : (at : ℕ) → at + length (name ++ filler) ≡ at + (length name + 3) / 4 * 4 =
        λ (at : ℕ). omega (arith, sum, filler_size, to_pf, al) in
      let filled : length g.formats * machine.size_video ≡ g.count * machine.size_video =
        ap (λ n. n * machine.size_video) g.each in
      elim (Bool-cases (ltb t.cb 4 || ltb t.cb2 4)) [
        | inl b ↦ rw b tt
        | inr b ↦ rw b (record {
          count = g.count;
          chunk = chunk;
          pb = omega (arith, stop);
          pf = omega (
            arith,
            length-parts name (read machine.junk s1.pf pad) formats,
            length-read machine.junk s1.pf pad,
            g.size,
            t_pf,
            to_pf,
            named,
            al,
          );
          kept = λ a h.
              same a (omega (arith, stop))
              ∙ g.kept a (omega (arith, start))
              ∙ ap (λ m. m a) w.memory;
          ranges =
              subst (λ p. NonzeroAt machine.size_video after p g.count) start
                (NonzeroAt-eq machine.size_video t.memory after ((s1.pb + 7) / 8 * 8) g.count
                  (omega (arith, large)) (λ i p q. same i (omega (arith, t_pb))) g.ranges);
          ending =
              subst (λ p. ulong_at after p ≡ 0) stop
                (ulong_at-Holds after t.pb 0 (Holds-copy t.memory t.pb (ulong_bytes 0)));
          whole = whole;
          formats = g.formats;
          each = g.each;
          camera = record {
            name = name;
            of = w.of;
            starts = λ m at h. starts m at h;
            client = λ m at al' h.
                subst (λ p. EntriesAt m p g.formats) (tail at)
                  (g.client m (at + length (name ++ filler)) (middle m at h));
            source = g.source;
            all =
                subst (λ x. OfPins machine (if device.opens then device.pins else []) x)
                  (sym g.these) o;
          };
          listed =
              subst (λ p. RangesAt machine after p g.formats) start
                (RangesAt-eq machine t.memory after ((s1.pb + 7) / 8 * 8) g.formats d
                  (λ i p q. same i (omega (arith, t_pb, filled))) g.listed);
        })
      ]

  whole-end_formats :
      (device : Device) (s : Lists) (x : List ℕ × Lists)
      → x.1.whole ≡ false
      → Result (λ bytes u. u.whole ≡ true → Added device s u bytes) (end_formats machine x)
  unfolding end_formats
  whole-end_formats device s x e = elim (Bool-cases (ltb x.1.cb 4 || ltb x.1.cb2 4)) [
    | inl b ↦ rw b tt
    | inr b ↦ rw b (λ h. absurd (true≢false (sym h ∙ e)))
  ]

  whole-align_lists : (s : Lists) → (align_lists machine s).1.whole ≡ s.whole
  unfolding align_lists
  whole-align_lists s = refl

  opened :
      (device : Device) (pin : Pin)
      → IsIn pin (if device.opens then device.pins else [])
      → IsIn pin device.pins
  opened device pin h = go device.opens h
    where
      go : (b : Bool) → IsIn pin (if b then device.pins else []) → IsIn pin device.pins
      go true i = i
      go false i = absurd i

  Added-named_device :
      (device : Device) (o : Option (List ℕ × Lists)) (s : Lists)
      → s.pf % 4 ≡ 0
      → IsDdk machine
      → ((v : VideoRange)
          → IsOffered machine device v
          → (v.bi_compression ≢ 0) × (v.bi_compression < 2 ^ 32))
      → Result (λ bytes t. Written device s t bytes) o
      → Result (λ bytes u. u.whole ≡ true → Added device s u bytes) (named_device machine device o)
  unfolding named_device
  Added-named_device device none s al d law w = tt
  Added-named_device device (some (name, s1)) s al d law w =
      let s2 = (align_lists machine s1).1 in
      let pins : List Pin = if device.opens then device.pins else [] in
      let made = create_pins machine pins s2 in
      elim (Bool-cases made.1.whole) [
        | inr e ↦
            whole-end_formats device s (name ++ (align_lists machine s1).0 ++ made.0, made.1) e
        | inl e ↦
            let (vs, o, g, e') =
              Grew-create_pins machine (IsOffered machine device) pins s2 d law
                (λ pin room bytes i answer m at a h low high wanted. record {
                  pin = pin;
                  of = opened device pin i;
                  room = room;
                  bytes = bytes;
                  answer = answer;
                  memory = m;
                  at = at;
                  place = a;
                  holds = h;
                  low = low;
                  high = high;
                  is = refl;
                  wanted = wanted;
                })
                e in
            Result-map {Q = λ b u. u.whole ≡ true → Added device s u b} _ (λ b u a h. a)
              (Added-formats device name made.0 vs s s1 made.1 al d w g o
                (sym w.whole ∙ sym (whole-align_lists s1) ∙ e'))
      ]

  -- One camera, if no walk over its ranges is left early.
  pub Added-device_step :
      (device : Device) (s : Lists)
      → s.pf % 4 ≡ 0
      → IsDdk machine
      → ((v : VideoRange)
          → IsOffered machine device v
          → (v.bi_compression ≢ 0) × (v.bi_compression < 2 ^ 32))
      → IsNamed device
      → Result (λ bytes u. u.whole ≡ true → Added device s u bytes) (device_step machine device s)
  unfolding device_step
  Added-device_step device s al d law named = Added-named_device device _ s al d law (
      Written-write_name device (device.friendly_name s.cb2) s s.cb2 (λ name e. named s.cb2 name e)
        refl)
