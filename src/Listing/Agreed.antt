-- ===== src/Listing/Agreed.antt =====
-- What CreateInfo wrote for the client and for the server, and that ValidateFormats accepts it.
use camera_udp.Base.{
  Option, ℕ, ◌+◌, ◌-◌, ◌%◌, ◌<◌, ◌≡◌, refl, sym, ap, subst, ◌∙◌, true, List, some, arith, length,
  Memory, copy,
}
use mathlib.Core.Option.{some-injective}
use camera_udp.Formats.{validate_formats}
use camera_udp.Formats.Strings.{strings_size, StringsAt, AllBelow, get_strings_end-StringsAt}
use camera_udp.Formats.Found.{BlocksAt}
use camera_udp.Listing.{VideoRange, Machine, Lists, after_name, create_listed, create_info}
use camera_udp.Listing.Ranges.{Holds}
use camera_udp.Listing.Entries.{IsDdk}
use camera_udp.Listing.Message.{IsNamed, Result, Result-map}
use camera_udp.Listing.Built.{
  lengths, CamerasIn, ListsAt, IsMessage, Built, Ends, Ends-create_devices, StringsAt-eq,
}
use camera_udp.Listing.Accepted.{validate_formats-IsMessage}

module _ (machine : Machine) where
  -- The client's message has, for each name of the list in turn, the name of its camera and the entries
  -- of ranges that its drivers offer; the server's list has the names, and the same ranges.
  pub record Agrees (s : Lists) (ns : List ℕ) (bytes : List ℕ) (t : Lists) : Type 0 where
    pub formats : List (List VideoRange)
    pub each : length (lengths machine formats) ≡ length ns
    pub message : IsMessage (lengths machine formats) bytes
    pub cameras : CamerasIn machine s.pb ns formats bytes
    pub names : StringsAt t.memory s.pb ns
    pub blocks :
        BlocksAt machine.size_video t.memory (s.pb + strings_size ns) (lengths machine formats)
    pub lists : ListsAt machine t.memory (s.pb + strings_size ns) formats

  Agrees-Built :
      (s u t : Lists) (ns bytes : List ℕ)
      → StringsAt u.memory s.pb ns
      → u.pb ≡ s.pb + strings_size ns
      → Built machine u s.pb ns bytes t
      → Agrees s ns bytes t
  Agrees-Built s u t ns bytes ss e b =
      let n = sym b.numbers in
      record {
        formats = b.formats;
        each = ap length b.numbers ∙ b.each;
        message = subst (λ cs. IsMessage cs bytes) n b.message;
        cameras = b.cameras;
        names = StringsAt-eq u.memory t.memory s.pb ns (λ i p q. b.kept i (omega (arith, e))) ss;
        blocks =
            subst (λ p. BlocksAt machine.size_video t.memory p (lengths machine b.formats)) e
              (subst (λ cs. BlocksAt machine.size_video t.memory u.pb cs) n b.blocks);
        lists = subst (λ p. ListsAt machine t.memory p b.formats) e b.lists;
      }

  Ends-create_info :
      (fuel : ℕ) (s : Lists) (names ns : List ℕ)
      → machine.interfaces ≡ some names
      → StringsAt (copy s.memory s.pb names) s.pb ns
      → length ns < fuel
      → AllBelow fuel ns
      → s.pf % 4 ≡ 0
      → IsDdk machine
      → ((a : ℕ) → IsNamed (machine.device a))
      → Ends machine (λ bytes t. t.whole ≡ true → Agrees s ns bytes t) (create_info machine fuel s)
  unfolding create_info create_listed after_name
  Ends-create_info fuel s names ns i ss lt an al d named =
      let m = copy s.memory s.pb names in
      let pb = s.pb + strings_size ns in
      let u : Lists = record s { memory = m; pb = pb; cb = s.cb - (pb - s.pb) } in
      let e = Ends-create_devices machine fuel fuel s.pb u ns ss (omega arith) lt an al d named in
      let is : create_listed machine fuel (some names) s ≡ some e.result =
        rw (get_strings_end-StringsAt fuel fuel m s.pb ns ss lt an) e.is in
      record {
        result = e.result;
        is = ap (λ x. create_listed machine fuel x s) i ∙ is;
        fits =
            Result-map e.result (λ bytes t b w. Agrees-Built s u t ns bytes ss refl (b w)) e.fits;
      }

  Ends-result :
      (P : List ℕ → Lists → Type 0) (o : Option (Option (List ℕ × Lists))) (bytes : List ℕ)
      (t : Lists)
      → Ends machine P o
      → o ≡ some (some (bytes, t))
      → P bytes t
  Ends-result P o bytes t e i =
      let same : e.result ≡ some (bytes, t) = some-injective _ _ (sym e.is ∙ i) in
      subst (λ r. Result P r) same e.fits

  -- The lists of a run that succeeded.
  pub Agrees-result :
      (fuel : ℕ) (s t : Lists) (names ns bytes : List ℕ)
      → machine.interfaces ≡ some names
      → StringsAt (copy s.memory s.pb names) s.pb ns
      → length ns < fuel
      → AllBelow fuel ns
      → s.pf % 4 ≡ 0
      → IsDdk machine
      → ((a : ℕ) → IsNamed (machine.device a))
      → create_info machine fuel s ≡ some (some (bytes, t))
      → t.whole ≡ true
      → Agrees s ns bytes t
  Agrees-result fuel s t names ns bytes i ss lt an al d named ok w =
      Ends-result (λ b u. u.whole ≡ true → Agrees s ns b u) _ bytes t
        (Ends-create_info fuel s names ns i ss lt an al d named) ok w

  -- When CreateInfo succeeds for one camera or more and no walk over data ranges was left early, what
  -- it wrote for the client is a message that ValidateFormats accepts, at a multiple of four in the
  -- client's memory, with a step more than it has bytes. The other conditions are those of
  -- create_info-Agrees.
  pub create_info-accepted :
      (fuel : ℕ) (s t : Lists) (names ns bytes : List ℕ) (m : Memory) (buf : ℕ)
      → machine.interfaces ≡ some names
      → StringsAt (copy s.memory s.pb names) s.pb ns
      → length ns < fuel
      → AllBelow fuel ns
      → s.pf % 4 ≡ 0
      → IsDdk machine
      → ((a : ℕ) → IsNamed (machine.device a))
      → create_info machine fuel s ≡ some (some (bytes, t))
      → t.whole ≡ true
      → 0 < length ns
      → buf % 4 ≡ 0
      → Holds m buf bytes
      → validate_formats (length bytes + 1) m buf (length bytes) ≡ some true
  create_info-accepted fuel s t names ns bytes m buf i ss lt an al d named ok w pos al' h =
      let a = Agrees-result fuel s t names ns bytes i ss lt an al d named ok w in
      validate_formats-IsMessage m buf (lengths machine a.formats) bytes (omega (arith, a.each)) al'
        a.message h
