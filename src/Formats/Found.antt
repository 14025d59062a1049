-- ===== src/Formats/Found.antt =====
-- GetFormatInfo finds the format with the two numbers.
use camera_udp.Base.{
  ℕ, zero, suc, ◌+◌, ◌*◌, ◌%◌, ◌^◌, ◌≤◌, ◌<◌, ◌≡◌, ◌≢◌, refl, subst, ap, ◌∙◌, inl, inr, Bool-cases,
  List, [], ◌∷◌, Option, none, some, arith, length, ltb, Memory, ==_of_eq, ==_of_ne, if◌then◌else◌,
}
use camera_udp.Formats.{
  ulong_at, then_at, found, ended, minlong, align_data_range, find_format, after_walk, find_device,
  get_format_info,
}
use camera_udp.Formats.Strings.{
  StringsAt, strings_size, AllBelow, StringAt-first, wcs_end-StringAt, get_strings_end-StringsAt,
}

zero_add : (n : ℕ) → 0 + n ≡ n
zero_add n = omega arith

module _ (size_video : ℕ) where
  -- `c` formats with a size other than 0, and a 0.
  abbrev pub FormatsAt : Memory → ℕ → ℕ → Type 0
  FormatsAt m at zero = ulong_at m at ≡ 0
  FormatsAt m at (suc c) = (ulong_at m at ≢ 0) × FormatsAt m (at + size_video) c

  -- The formats of each device, from the next aligned address on.
  abbrev pub BlocksAt : Memory → ℕ → List ℕ → Type 0
  BlocksAt m up [] = Unit {0}
  BlocksAt m up (c ∷ cs) =
      FormatsAt m (align_data_range up) c × BlocksAt m (align_data_range up + c * size_video + 4) cs

  find_format-ended :
      (fuel : ℕ) (m : Memory) (at n j c : ℕ)
      → FormatsAt m at c
      → c < fuel
      → n + c < 2 ^ 32
      → ((k : ℕ) → k < c → j ≢ n + k)
      → find_format size_video fuel m at n j ≡ some (ended (at + c * size_video))
  unfolding find_format
  find_format-ended zero m at n j c f lt b off_all = absurd (omega arith)
  find_format-ended (suc fuel) m at n j zero f lt b off_all =
      rw (==_of_eq f) (ap (λ a. some (ended a)) (omega arith))
  find_format-ended (suc fuel) m at n j (suc c) (h, f) lt b off_all =
      let e : at + size_video + c * size_video ≡ at + suc c * size_video = omega arith in
      let wrap : (n + 1) % 2 ^ 32 ≡ n + 1 = omega arith in
      let off : j ≢ n = λ q. off_all 0 (omega arith) (omega arith) in
      let rest =
        find_format-ended fuel m (at + size_video) (n + 1) j c f (omega arith) (omega arith)
          (λ k l q. off_all (suc k) (omega arith) (omega arith)) in
      rw (==_of_ne h, ==_of_ne off, wrap) (rest ∙ ap (λ a. some (ended a)) e)

  find_format-found :
      (fuel : ℕ) (m : Memory) (at n k c : ℕ)
      → FormatsAt m at c
      → c < fuel
      → n + c < 2 ^ 32
      → k < c
      → find_format size_video fuel m at n (n + k) ≡ some (found (at + k * size_video))
  unfolding find_format
  find_format-found zero m at n k c f lt b l = absurd (omega arith)
  find_format-found (suc fuel) m at n k zero f lt b l = absurd (omega arith)
  find_format-found (suc fuel) m at n zero (suc c) (h, f) lt b l =
      rw (==_of_ne h, ==_of_eq same) (ap (λ a. some (found a)) (omega arith))
    where
      same : n + 0 ≡ n
      same = omega arith
  find_format-found (suc fuel) m at n (suc k) (suc c) (h, f) lt b l =
      let e : at + size_video + k * size_video ≡ at + suc k * size_video = omega arith in
      let wrap : (n + 1) % 2 ^ 32 ≡ n + 1 = omega arith in
      let off : n + suc k ≢ n = λ q. absurd (omega arith) in
      let moved : n + suc k ≡ n + 1 + k = omega arith in
      let rest =
        find_format-found fuel m (at + size_video) (n + 1) k c f (omega arith) (omega arith)
          (omega arith) in
      rw (==_of_ne h, ==_of_ne off, wrap, moved) (rest ∙ ap (λ a. some (found a)) e)

  -- The name of device `i` and the address of its format `j`, in the lists of lengths and of numbers.
  abbrev pub expected : (name up : ℕ) → List ℕ → List ℕ → (i j : ℕ) → Option (ℕ × ℕ)
  expected name up [] cs i j = none
  expected name up (n ∷ ns) [] i j = none
  expected name up (n ∷ ns) (c ∷ cs) zero j =
      if ltb j c then some (name, align_data_range up + j * size_video) else none
  expected name up (n ∷ ns) (c ∷ cs) (suc i) j =
      expected (name + 2 * n + 2) (align_data_range up + c * size_video + 4) ns cs i j

  find_device-passed :
      (fuel limit : ℕ) (m : Memory) (name up i j d : ℕ) (ns cs : List ℕ)
      → StringsAt m name ns
      → BlocksAt m up cs
      → length cs ≡ length ns
      → length ns < fuel
      → AllBelow limit ns
      → AllBelow limit cs
      → limit ≤ minlong
      → j < minlong
      → i < d
      → find_device size_video fuel limit m name up i j d ≡ some none
  unfolding find_device after_walk then_at
  find_device-passed zero limit m name up i j d ns cs s b q lt an ac lim lj li =
      absurd (omega arith)
  find_device-passed (suc fuel) limit m name up i j d [] cs s b q lt an ac lim lj li =
      rw (==_of_eq s) refl
  find_device-passed (suc fuel) limit m name up i j d (n ∷ ns) [] s b q lt an ac lim lj li =
      absurd (omega arith)
  find_device-passed (suc fuel) limit m name up i j d (n ∷ ns) (c ∷ cs) (pos, s, ss) (f, bs) q lt
        (a, an) (a', ac) lim lj li =
      let other : d ≢ i = λ e. absurd (omega arith) in
      let walk =
        find_format-ended limit m (align_data_range up) minlong j c f a' (omega arith)
          (λ k l e. absurd (omega arith)) in
      let rest =
        find_device-passed fuel limit m (name + 2 * n + 2)
          (align_data_range up + c * size_video + 4) i j (d + 1) ns cs ss bs (omega arith)
          (omega arith) an ac lim lj (omega arith) in
      rw (StringAt-first m name n pos s, ==_of_ne other, walk, wcs_end-StringAt limit m name n s a)
        rest

  find_device-expected :
      (fuel limit : ℕ) (m : Memory) (name up k j d : ℕ) (ns cs : List ℕ)
      → StringsAt m name ns
      → BlocksAt m up cs
      → length cs ≡ length ns
      → length ns < fuel
      → AllBelow limit ns
      → AllBelow limit cs
      → limit ≤ minlong
      → j < minlong
      → find_device size_video fuel limit m name up (d + k) j d ≡ some (expected name up ns cs k j)
  unfolding find_device after_walk then_at
  find_device-expected zero limit m name up k j d ns cs s b q lt an ac lim lj = absurd (omega arith)
  find_device-expected (suc fuel) limit m name up k j d [] cs s b q lt an ac lim lj =
      rw (==_of_eq s) refl
  find_device-expected (suc fuel) limit m name up k j d (n ∷ ns) [] s b q lt an ac lim lj =
      absurd (omega arith)
  find_device-expected (suc fuel) limit m name up zero j d (n ∷ ns) (c ∷ cs) (pos, s, ss) (f, bs) q
        lt (a, an) (a', ac) lim lj =
      let here : d ≡ d + 0 = omega arith in
      elim (Bool-cases (ltb j c)) [
        | inl e ↦
            let walk =
              subst
                (λ x.
                  find_format size_video limit m (align_data_range up) 0 x
                  ≡ some (found (align_data_range up + j * size_video)))
                (zero_add j)
                (find_format-found limit m (align_data_range up) 0 j c f a' (omega arith)
                  (ground (arith, e))) in
            rw (StringAt-first m name n pos s, ==_of_eq here, e, walk) refl
        | inr e ↦
            let walk =
              find_format-ended limit m (align_data_range up) 0 j c f a' (omega arith)
                (λ k l r. ground (arith, e)) in
            let rest =
              find_device-passed fuel limit m (name + 2 * n + 2)
                (align_data_range up + c * size_video + 4) (d + 0) j (d + 1) ns cs ss bs
                (omega arith) (omega arith) an ac lim lj (omega arith) in
            rw
              (
                StringAt-first m name n pos s,
                ==_of_eq here,
                e,
                walk,
                wcs_end-StringAt limit m name n s a,
              )
              rest
      ]
  find_device-expected (suc fuel) limit m name up (suc k) j d (n ∷ ns) (c ∷ cs) (pos, s, ss) (f, bs)
        q lt (a, an) (a', ac) lim lj =
      let other : d ≢ d + suc k = λ e. absurd (omega arith) in
      let moved : d + suc k ≡ d + 1 + k = omega arith in
      let walk =
        find_format-ended limit m (align_data_range up) minlong j c f a' (omega arith)
          (λ k l e. absurd (omega arith)) in
      let rest =
        find_device-expected fuel limit m (name + 2 * n + 2)
          (align_data_range up + c * size_video + 4) k j (d + 1) ns cs ss bs (omega arith)
          (omega arith) an ac lim lj in
      rw
        (
          StringAt-first m name n pos s,
          ==_of_ne other,
          walk,
          wcs_end-StringAt limit m name n s a,
          moved,
        )
        rest

  -- GetFormatInfo gives the name of device `i` and its format `j`, and nothing when there is no such
  -- device or format, for a list of devices with their formats, a number `j` below 2 ^ 31, and at least
  -- as many steps as the loops take.
  pub get_format_info-expected :
      (fuel : ℕ) (m : Memory) (psz i j : ℕ) (ns cs : List ℕ)
      → StringsAt m psz ns
      → BlocksAt m (psz + strings_size ns) cs
      → length cs ≡ length ns
      → length ns < fuel
      → AllBelow fuel ns
      → AllBelow fuel cs
      → fuel ≤ minlong
      → j < minlong
      → get_format_info size_video fuel m psz i j
        ≡ some (expected psz (psz + strings_size ns) ns cs i j)
  unfolding get_format_info then_at
  get_format_info-expected fuel m psz i j ns cs s b q lt an ac lim lj =
      let device =
        find_device-expected fuel fuel m psz (psz + strings_size ns) i j 0 ns cs s b q lt an ac lim
          lj in
      rw (get_strings_end-StringsAt fuel fuel m psz ns s lt an) (
        subst
          (λ x.
            find_device size_video fuel fuel m psz (psz + strings_size ns) x j 0
            ≡ some (expected psz (psz + strings_size ns) ns cs i j))
          (zero_add i) device)
