-- ===== src/Listing/Tests.antt =====
-- A run of CreateInfo for one camera with one format, and its theorems at it.
use camera_udp.Base.{
  ℕ, zero, suc, ◌+◌, ◌<◌, ◌≡◌, refl, subst, ap, true, List, [], ◌∷◌, ◌++◌, Option, none, some,
  arith, Memory, copy, read, ltb, if◌then◌else◌,
}
use mathlib.Core.Option.{some-injective}
use camera_udp.Formats.{
  ulong_at, wcs_end, then_at, get_strings_end, align_data_range, align_vfi, validate_formats,
}
use camera_udp.Formats.Strings.{StringAt, StringsAt}
use camera_udp.Listing.{
  is_corresponds, VideoRange, vfi_bytes, Pin, Device, Machine, Lists, is_wanted, take_range,
  range_step, leaves, walk_ranges, keep_ranges, read_ranges, pin_step, create_pins, write_name,
  align_lists, end_formats, named_device, device_step, prepend, then_lists, after_name, end_devices,
  create_devices, create_listed, create_info,
}
use camera_udp.Listing.Ranges.{Holds, Holds-copy}
use camera_udp.Listing.Entries.{IsDdk}
use camera_udp.Listing.Message.{IsName, IsNamed}
use camera_udp.Listing.Agreed.{create_info-accepted}

abbrev zeros : ℕ → List ℕ
zeros zero = []
zeros (suc n) = 0 ∷ zeros n

abbrev pin : Pin
pin = record {
  flows_out = true;
  captures = true;
  data_ranges =
      λ n. if ltb n 72 then none else some (72 ∷ 0 ∷ 0 ∷ 0 ∷ 1 ∷ 0 ∷ 0 ∷ 0 ∷ 64 ∷ zeros 63);
}

-- The name "B".
abbrev camera : Device
camera = record { friendly_name = λ n. some (66 ∷ 0 ∷ 0 ∷ 0 ∷ []); opens = true; pins = pin ∷ [] }

abbrev range : ℕ → VideoRange
range size = record {
  format_size = size;
  is_yuy2_video = true;
  min_frame_interval = 333333;
  max_frame_interval = 666666;
  min_output_cx = 320;
  max_output_cx = 640;
  min_output_cy = 240;
  max_output_cy = 480;
  avg_time_per_frame = 333333;
  bi_width = 640;
  bi_height = 480;
  bi_compression = 844715353;
}

abbrev machine : Machine
machine = record {
  size_video = 64;
  video_at = λ m a. range (ulong_at m a);
  device = λ a. camera;
  interfaces = some (65 ∷ 0 ∷ 0 ∷ 0 ∷ 0 ∷ 0 ∷ []);
  junk = λ a. 7;
}

abbrev start : Lists
start = record { memory = λ a. 0; pb = 1024; cb = 512; pf = 2048; cb2 = 64; whole = true }

-- The name, its entry and the 0 after it, and the empty name.
abbrev message : List ℕ
message = 66 ∷ 0 ∷ 0 ∷ 0 ∷ 89 ∷ 85 ∷ 89 ∷ 50 ∷ 128 ∷ 2 ∷ 30 ∷ 30 ∷ zeros 6

abbrev after : Lists
after = record {
  memory =
      copy
        (copy
          (copy (copy (λ a. 0) 1024 (65 ∷ zeros 5)) 1032
            (72 ∷ 0 ∷ 0 ∷ 0 ∷ 1 ∷ 0 ∷ 0 ∷ 0 ∷ 64 ∷ zeros 63))
          1032 (64 ∷ zeros 63))
        1096 (zeros 4);
  pb = 1100;
  cb = 436;
  pf = 2066;
  cb2 = 46;
  whole = true;
}

runs : create_info machine 24 start ≡ some (some (message, after))
unfolding is_corresponds vfi_bytes is_wanted take_range range_step leaves walk_ranges keep_ranges
    read_ranges pin_step create_pins write_name align_lists end_formats named_device device_step
    prepend then_lists after_name end_devices create_devices create_listed create_info copy read
    wcs_end then_at get_strings_end align_data_range align_vfi
runs = refl

-- The second range is larger than the memory that is left: the client has an entry for the first, and
-- the server has none.
abbrev long_machine : Machine
long_machine = record machine {
  device = λ a. record camera {
    pins =
        record pin {
          data_ranges =
              λ n. some (136 ∷ 0 ∷ 0 ∷ 0 ∷ 2 ∷ 0 ∷ 0 ∷ 0 ∷ 64 ∷ zeros 63 ++ 200 ∷ zeros 63);
        }
        ∷ [];
  };
}

abbrev first_of : Option (Option (List ℕ × Lists)) → List ℕ × ℕ
first_of none = ([], 0)
first_of (some none) = ([], 0)
first_of (some (some (bytes, t))) = (bytes, ulong_at t.memory 1032)

left_early : first_of (create_info long_machine 24 start) ≡ (message, 0)
unfolding is_corresponds vfi_bytes is_wanted take_range range_step leaves walk_ranges keep_ranges
    read_ranges pin_step create_pins write_name align_lists end_formats named_device device_step
    prepend then_lists after_name end_devices create_devices create_listed create_info copy read
    wcs_end then_at get_strings_end align_data_range align_vfi
left_early = refl

IsDdk-machine : IsDdk machine
IsDdk-machine = record {
  large = omega arith;
  small = omega arith;
  first = λ m a. refl;
  plain = λ m m' a a' same. ap range (word m m' a a' same);
  compressed = λ x v o.
      let e : 844715353 ≡ v.bi_compression = ap (λ w. w.bi_compression) o.is in
      ((λ z. absurd (omega arith)), omega arith);
}
  where
    word :
        (m m' : Memory) (a a' : ℕ)
        → ((i : ℕ) → i < 64 → m (a + i) ≡ m' (a' + i))
        → ulong_at m a ≡ ulong_at m' a'
    word m m' a a' same =
        let e : a + 0 ≡ a = omega arith in
        let e' : a' + 0 ≡ a' = omega arith in
        let s =
          subst (λ p. m a ≡ m' p) e' (subst (λ p. m p ≡ m' (a' + 0)) e (same 0 (omega arith))) in
        omega (arith, s, same 1 (omega arith), same 2 (omega arith), same 3 (omega arith))

IsNamed-camera : (a : ℕ) → IsNamed (machine.device a)
IsNamed-camera a n name e =
    let same : 66 ∷ 0 ∷ 0 ∷ 0 ∷ [] ≡ name = some-injective _ _ e in
    subst IsName same
      (record { chars = 1; some_char = omega arith; size = refl; string = λ m at h. string m at h })
  where
    string : (m : Memory) (at : ℕ) → Holds m at (66 ∷ 0 ∷ 0 ∷ 0 ∷ []) → StringAt m at 1
    string m at (a, (b, (c, (d, _)))) =
        let e : at + 1 + 1 ≡ at + 2 = omega arith in
        let c' = subst (λ p. m p ≡ 0) e c in
        let e' : at + 1 + 1 + 1 ≡ at + 2 + 1 = omega arith in
        let d' = subst (λ p. m p ≡ 0) e' d in
        ((λ z. absurd (omega (arith, a, b, z))), omega (arith, c', d'))

interface-StringsAt : StringsAt (copy start.memory start.pb (65 ∷ zeros 5)) start.pb (1 ∷ [])
unfolding copy
interface-StringsAt = (omega arith, ((λ e. absurd (omega arith)), refl), refl)

create_info-accepted_example : validate_formats 19 (copy (λ a. 7) 512 message) 512 18 ≡ some true
create_info-accepted_example =
    create_info-accepted machine 24 start after (65 ∷ zeros 5) (1 ∷ []) message
      (copy (λ a. 7) 512 message) 512 refl interface-StringsAt (omega arith) (omega arith, tt) refl
      IsDdk-machine IsNamed-camera runs refl (omega arith) refl (Holds-copy (λ a. 7) 512 message)
