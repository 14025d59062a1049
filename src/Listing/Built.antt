-- ===== src/Listing/Built.antt =====
-- Both lists of CreateInfo, camera by camera.
use camera_udp.Base.{
  ap, ap₂, sym, ℕ, zero, suc, ◌+◌, ◌*◌, ◌/◌, ◌%◌, ◌≤◌, ◌<◌, ◌≡◌, refl, subst, ◌∙◌, inl, inr, true,
  List, [], ◌∷◌, ◌++◌, Option, none, some, arith, ltb, length, Memory, Bool-cases, ==_of_eq,
}
use camera_udp.Formats.{ulong_at, align_data_range}
use camera_udp.Formats.Strings.{
  strings_size, strings_size, StringAt, StringsAt, AllBelow, StringAt-first, wcs_end-StringAt,
}
use camera_udp.Formats.Found.{FormatsAt, BlocksAt}
use camera_udp.Listing.{
  VideoRange, Machine, Lists, prepend, then_lists, after_name, end_devices, create_devices,
}
use camera_udp.Listing.Ranges.{ulong_at-eq, NonzeroAt, NonzeroAt-eq}
use camera_udp.Listing.Entries.{IsDdk, RangesAt, RangesAt-eq}
use camera_udp.Listing.Kept.{Loose, Loose-device_step}
use camera_udp.Listing.Message.{IsNamed, IsChunk, Result}
use camera_udp.Listing.Cameras.{IsCamera, Added, Added-device_step}

-- The bytes for cameras with numbers of formats, and the empty name at the end.
abbrev pub IsMessage : List ℕ → List ℕ → Type 0
IsMessage [] bytes = bytes ≡ 0 ∷ 0 ∷ []
IsMessage (c ∷ cs) bytes =
    (chunk : List ℕ) × (rest : List ℕ) × (bytes ≡ chunk ++ rest)
    × IsChunk c chunk
    × IsMessage cs rest

StringAt-eq :
    (m m' : Memory) (at n : ℕ)
    → ((i : ℕ) → at ≤ i → i < at + 2 * n + 2 → m' i ≡ m i)
    → StringAt m at n
    → StringAt m' at n
StringAt-eq m m' at zero same h =
    omega (arith, same at (omega arith) (omega arith), same (at + 1) (omega arith) (omega arith), h)
StringAt-eq m m' at (suc n) same (p, h) = (
  (λ z. p (
      omega (
        arith,
        same at (omega arith) (omega arith),
        same (at + 1) (omega arith) (omega arith),
        z,
      ))),
  StringAt-eq m m' (at + 2) n (λ i a b. same i (omega arith) (omega arith)) h,
)

pub StringsAt-eq :
    (m m' : Memory) (at : ℕ) (ns : List ℕ)
    → ((i : ℕ) → at ≤ i → i < at + strings_size ns → m' i ≡ m i)
    → StringsAt m at ns
    → StringsAt m' at ns
StringsAt-eq m m' at [] same h =
    omega (arith, same at (omega arith) (omega arith), same (at + 1) (omega arith) (omega arith), h)
StringsAt-eq m m' at (n ∷ ns) same (pos, s, ss) = (
  pos,
  StringAt-eq m m' at n (λ i a b. same i (omega arith) (omega arith)) s,
  StringsAt-eq m m' (at + 2 * n + 2) ns (λ i a b. same i (omega arith) (omega arith)) ss,
)

module _ (machine : Machine) where
  FormatsAt-ranges :
      (m : Memory) (at c : ℕ)
      → NonzeroAt machine.size_video m at c
      → ulong_at m (at + c * machine.size_video) ≡ 0
      → FormatsAt machine.size_video m at c
  FormatsAt-ranges m at zero h e =
      let z : at + 0 * machine.size_video ≡ at = omega arith in subst (λ p. ulong_at m p ≡ 0) z e
  FormatsAt-ranges m at (suc c) (n, h) e =
      let z : at + suc c * machine.size_video ≡ at + machine.size_video + c * machine.size_video =
        omega arith in
      (n, FormatsAt-ranges m (at + machine.size_video) c h (subst (λ p. ulong_at m p ≡ 0) z e))

  abbrev pub lengths : List (List VideoRange) → List ℕ
  lengths [] = []
  lengths (vs ∷ vss) = length vs ∷ lengths vss

  -- A message, camera by camera: the names of their interfaces have the lengths, from `psz` on.
  abbrev pub CamerasIn : (psz : ℕ) → List ℕ → List (List VideoRange) → List ℕ → Type 0
  CamerasIn psz [] [] bytes = bytes ≡ 0 ∷ 0 ∷ []
  CamerasIn psz [] (vs ∷ vss) bytes = ⊥
  CamerasIn psz (n ∷ ns) [] bytes = ⊥
  CamerasIn psz (n ∷ ns) (vs ∷ vss) bytes =
      (chunk : List ℕ) × (rest : List ℕ) × (bytes ≡ chunk ++ rest)
      × IsCamera machine (machine.device psz) vs chunk
      × CamerasIn (psz + 2 * n + 2) ns vss rest

  -- The server's list: the ranges of each camera from the next multiple of eight on, and a 0.
  abbrev pub ListsAt : Memory → ℕ → List (List VideoRange) → Type 0
  ListsAt m up [] = Unit {0}
  ListsAt m up (vs ∷ vss) =
      RangesAt machine m (align_data_range up) vs
      × ListsAt m (align_data_range up + length vs * machine.size_video + 4) vss

  -- The lists from a state on: the numbers of formats are the same in both.
  pub record Built (s : Lists) (psz : ℕ) (ns : List ℕ) (bytes : List ℕ) (t : Lists) : Type 0 where
    pub counts : List ℕ
    pub each : length counts ≡ length ns
    pub message : IsMessage counts bytes
    pub kept : (a : ℕ) → a < s.pb → t.memory a ≡ s.memory a
    pub blocks : BlocksAt machine.size_video t.memory s.pb counts
    pub whole : s.whole ≡ true
    pub formats : List (List VideoRange)
    pub numbers : lengths formats ≡ counts
    pub cameras : CamerasIn psz ns formats bytes
    pub lists : ListsAt t.memory s.pb formats

  Built-cons :
      (s s1 t : Lists) (chunk rest : List ℕ) (psz n : ℕ) (ns : List ℕ)
      → IsDdk machine
      → Added machine (machine.device psz) s s1 chunk
      → Built s1 (psz + 2 * n + 2) ns rest t
      → Built s psz (n ∷ ns) (chunk ++ rest) t
  unfolding align_data_range
  Built-cons s s1 t chunk rest psz n ns d a b =
      let large = d.large in
      let there = a.pb in
      let up = (s.pb + 7) / 8 * 8 in
      let same = λ (i : ℕ). λ (h : i < s1.pb). b.kept i h in
      let each : length a.formats * machine.size_video ≡ a.count * machine.size_video =
        ap (λ k. k * machine.size_video) a.each in
      let each' : up + a.count * machine.size_video + 4
          ≡ up + length a.formats * machine.size_video + 4 =
        ap (λ k. up + k + 4) (sym each) in
      let end =
        ulong_at-eq s1.memory t.memory (up + a.count * machine.size_video)
          (λ i p q. same i (omega (arith, there))) in
      record {
        counts = a.count ∷ b.counts;
        each = omega (arith, b.each);
        message = (chunk, rest, refl, a.chunk, b.message);
        kept = λ i h. b.kept i (omega (arith, there)) ∙ a.kept i h;
        blocks = (
          FormatsAt-ranges t.memory up a.count
              (NonzeroAt-eq machine.size_video s1.memory t.memory up a.count (omega (arith, large))
                (λ i p q. same i (omega (arith, there))) a.ranges)
              (end ∙ a.ending),
          subst (λ p. BlocksAt machine.size_video t.memory p b.counts) there b.blocks,
        );
        whole = a.whole;
        formats = a.formats ∷ b.formats;
        numbers = ap₂ ◌∷◌ a.each b.numbers;
        cameras = (chunk, rest, refl, a.camera, b.cameras);
        lists = (
          RangesAt-eq machine s1.memory t.memory up a.formats d
              (λ i p q. same i (omega (arith, there, each))) a.listed,
          subst (λ p. ListsAt t.memory p b.formats) (there ∙ each') b.lists,
        );
      }

  -- The loop ends, and what it returns has the property.
  pub record Ends (P : List ℕ → Lists → Type 0) (o : Option (Option (List ℕ × Lists)))
      : Type 0 where
    pub result : Option (List ℕ × Lists)
    pub is : o ≡ some result
    pub fits : Result P result

  Ends-prepend :
      (P Q : List ℕ → Lists → Type 0) (bytes : List ℕ) (o : Option (Option (List ℕ × Lists)))
      → Ends P o
      → ((rest : List ℕ) (t : Lists) → P rest t → Q (bytes ++ rest) t)
      → Ends Q (prepend machine bytes o)
  unfolding prepend
  Ends-prepend P Q bytes o e f = go e.result e.is e.fits
    where
      go :
          (r : Option (List ℕ × Lists)) → o ≡ some r → Result P r → Ends Q (prepend machine bytes o)
      go none i r = rw i (record { result = none; is = refl; fits = tt })
      go (some (rest, t)) i r =
          rw i (record { result = some (bytes ++ rest, t); is = refl; fits = f rest t r })

  Ends-then_lists :
      (P R : List ℕ → Lists → Type 0) (Q : Lists → List ℕ → Lists → Type 0)
      (o : Option (List ℕ × Lists)) (next : Lists → Option (Option (List ℕ × Lists)))
      → Result P o
      → ((bytes : List ℕ) (s : Lists) → P bytes s → Ends (Q s) (next s))
      → ((bytes rest : List ℕ) (s t : Lists) → P bytes s → Q s rest t → R (bytes ++ rest) t)
      → Ends R (then_lists machine o next)
  unfolding then_lists
  Ends-then_lists P R Q none next p n f = record { result = none; is = refl; fits = tt }
  Ends-then_lists P R Q (some (bytes, s)) next p n f =
      Ends-prepend (Q s) R bytes (next s) (n bytes s p) (λ rest t q. f bytes rest s t p q)

  Result-both :
      (P Q : List ℕ → Lists → Type 0) (o : Option (List ℕ × Lists))
      → Result P o
      → Result Q o
      → Result (λ b t. P b t × Q b t) o
  Result-both P Q none p q = tt
  Result-both P Q (some (bytes, t)) p q = (p, q)

  Ends-end_devices :
      (psz : ℕ) (s : Lists)
      → Result (λ bytes t. t.whole ≡ true → Built s psz [] bytes t) (end_devices machine s)
  unfolding end_devices
  Ends-end_devices psz s = elim (Bool-cases (ltb s.cb2 4)) [
    | inl b ↦ rw b tt
    | inr b ↦ rw b (λ h. record {
      counts = [];
      each = refl;
      message = refl;
      kept = λ a g. refl;
      blocks = tt;
      whole = h;
      formats = [];
      numbers = refl;
      cameras = refl;
      lists = tt;
    })
  ]

  pub Ends-create_devices :
      (fuel limit psz : ℕ) (s : Lists) (ns : List ℕ)
      → StringsAt s.memory psz ns
      → psz + strings_size ns ≤ s.pb
      → length ns < fuel
      → AllBelow limit ns
      → s.pf % 4 ≡ 0
      → IsDdk machine
      → ((a : ℕ) → IsNamed (machine.device a))
      → Ends
          (λ bytes t. t.whole ≡ true → Built s psz ns bytes t)
          (create_devices machine fuel limit psz s)
  unfolding create_devices after_name
  Ends-create_devices zero limit psz s ns ss le lt an al d named = absurd (omega arith)
  Ends-create_devices (suc fuel) limit psz s [] ss le lt an al d named =
      rw (==_of_eq ss)
        (record { result = end_devices machine s; is = refl; fits = Ends-end_devices psz s })
  Ends-create_devices (suc fuel) limit psz s (n ∷ ns) (pos, str, ss) le lt (few, an) al d named =
      rw (StringAt-first s.memory psz n pos str, wcs_end-StringAt limit s.memory psz n str few)
        (Ends-then_lists
          (λ b u. Loose s u × (u.whole ≡ true → Added machine (machine.device psz) s u b))
          (λ bytes t. t.whole ≡ true → Built s psz (n ∷ ns) bytes t)
          (λ u rest t. t.whole ≡ true → Built u (psz + 2 * n + 2) ns rest t) _ _
          (Result-both (λ b u. Loose s u)
            (λ b u. u.whole ≡ true → Added machine (machine.device psz) s u b) _
            (Loose-device_step machine (machine.device psz) s al d (named psz))
            (Added-device_step machine (machine.device psz) s al d (d.compressed psz) (named psz)))
          (λ bytes u p.
            let l = p.0 in
            let up = l.pb in
            Ends-create_devices fuel limit (psz + 2 * n + 2) u ns
              (StringsAt-eq s.memory u.memory (psz + 2 * n + 2) ns (λ i a b. l.kept i (omega arith))
                ss)
              (omega arith) (omega arith) an (l.pf ∙ al) d named)
          (λ bytes rest u t p q h.
            let b = q h in Built-cons s u t bytes rest psz n ns d (p.1 b.whole) b))
