-- ===== src/Listing.antt =====
-- The two lists of cameras and formats that the server builds: both functions CreateInfo of
-- camera server/server.cpp, and IsCorresponds of camera server/utils.cpp. The list for the server is
-- written to memory at `pb`; the one for the client is written in order at `pf`, and what is written
-- there is the list of bytes that a function returns. What the system and the drivers answer is the record `Machine`.
pub mod Ranges
pub mod Entries
pub mod Blocks
pub mod Walks
pub mod Message
pub mod Cameras
pub mod Kept
pub mod Built
pub mod Accepted
pub mod Agreed
pub mod Picked
mod Tests
use camera_udp.Base.{
  ℕ, zero, suc, ◌+◌, ◌-◌, ◌*◌, ◌/◌, ◌%◌, ◌^◌, Bool, true, false, ◌&&◌, ◌||◌, List, [], ◌∷◌, ◌++◌,
  Option, none, some, ltb, leb, ◌==◌, if◌then◌else◌, length, Memory, copy, read,
}
use camera_udp.Formats.{wchar_at, ulong_at, wcs_end, get_strings_end, align_data_range, align_vfi}

-- a <= b, of signed numbers with `w` bits
abbrev pub signed_le : (w a b : ℕ) → Bool
signed_le w a b = leb ((a + 2 ^ (w - 1)) % 2 ^ w) ((b + 2 ^ (w - 1)) % 2 ^ w)

-- The fields of KS_DATARANGE_VIDEO that the code reads; `is_yuy2_video` says that Specifier, MajorFormat
-- and SubFormat are the three GUIDs of the test.
pub record VideoRange : Type 0 where
  pub format_size : ℕ
  pub is_yuy2_video : Bool
  pub min_frame_interval : ℕ
  pub max_frame_interval : ℕ
  pub min_output_cx : ℕ
  pub max_output_cx : ℕ
  pub min_output_cy : ℕ
  pub max_output_cy : ℕ
  pub avg_time_per_frame : ℕ
  pub bi_width : ℕ
  pub bi_height : ℕ
  pub bi_compression : ℕ

unfoldable pub is_corresponds : VideoRange → Bool
is_corresponds v =
    signed_le 64 v.min_frame_interval v.avg_time_per_frame
    && signed_le 64 v.avg_time_per_frame v.max_frame_interval
    && signed_le 32 v.bi_width v.max_output_cx
    && signed_le 32 v.min_output_cx v.bi_width
    && signed_le 32 v.bi_height v.max_output_cy
    && signed_le 32 v.min_output_cy v.bi_height

-- One pin: whether its data flows out and its category is capture or preview, and what the driver
-- writes to a buffer of a size when it is asked for its data ranges.
pub record Pin : Type 0 where
  pub flows_out : Bool
  pub captures : Bool
  pub data_ranges : ℕ → Option (List ℕ)

-- One camera: its name with the 0 at the end, if it fits a size and is a string; whether it opens; and
-- its pins, the last first.
pub record Device : Type 0 where
  pub friendly_name : ℕ → Option (List ℕ)
  pub opens : Bool
  pub pins : List Pin

-- `video_at` reads KS_DATARANGE_VIDEO at an address, and `device` is the camera whose interface has its
-- name at an address. `interfaces` is the list of these names, if there is one. `junk` is what the client's buffer holds before it is written.
pub record Machine : Type 0 where
  pub size_video : ℕ
  pub video_at : Memory → ℕ → VideoRange
  pub device : ℕ → Device
  pub interfaces : Option (List ℕ)
  pub junk : Memory

-- `whole` says that no loop over data ranges was left early; no code keeps it.
pub record Lists : Type 0 where
  pub memory : Memory
  pub pb : ℕ
  pub cb : ℕ
  pub pf : ℕ
  pub cb2 : ℕ
  pub whole : Bool

-- The four bytes of a ULONG.
abbrev pub ulong_bytes : ℕ → List ℕ
ulong_bytes n = n % 256 ∷ n / 256 % 256 ∷ n / 65536 % 256 ∷ n / 16777216 % 256 ∷ []

-- 10000000 / AvgTimePerFrame, of signed numbers with 64 bits, as a ULONG. The time must not be 0.
abbrev pub frames_per_second : (avg_time_per_frame : ℕ) → ℕ
frames_per_second t =
    if ltb t (2 ^ 63)
    then 10000000 / t % 2 ^ 32
    else (2 ^ 32 - 10000000 / (2 ^ 64 - t) % 2 ^ 32) % 2 ^ 32

-- VFI; `old` is the last byte before, of which two bits have no field and stay.
unfoldable pub vfi_bytes : (old : ℕ) → VideoRange → List ℕ
vfi_bytes old v =
    let fps = frames_per_second v.avg_time_per_frame in
    ulong_bytes v.bi_compression
    ++ ulong_bytes (
        v.bi_width % 4096
        + 4096 * (v.bi_height % 4096)
        + 2 ^ 24 * (fps % 64)
        + 2 ^ 30 * (old / 64 % 4))

module _ (machine : Machine) where
  unfoldable pub is_wanted : VideoRange → Bool
  unfolding is_corresponds
  is_wanted v = (v.format_size == machine.size_video) && v.is_yuy2_video && is_corresponds v

  -- A range for both lists: the copy to `pb` of the place, and the entry for the client.
  unfoldable pub take_range : (pc : ℕ) → Lists → List ℕ × Lists
  take_range pc s = (
    vfi_bytes (machine.junk (s.pf + 7)) (machine.video_at s.memory pc),
    record s {
      memory = copy s.memory s.pb (read s.memory pc machine.size_video);
      pb = s.pb + machine.size_video;
      pf = s.pf + 8;
      cb2 = s.cb2 - 8;
    },
  )

  unfoldable pub range_step : (pc : ℕ) → Lists → List ℕ × Lists
  unfolding take_range
  range_step pc s = if is_wanted (machine.video_at s.memory pc) then take_range pc s else ([], s)

  -- The loop leaves at this range.
  unfoldable pub leaves : (size pc : ℕ) → Lists → Bool
  leaves size pc s =
      let format_size = ulong_at s.memory pc in
      ltb size 64
      || ltb format_size 64
      || ltb size (align_data_range format_size % 2 ^ 32)
      || (is_wanted (machine.video_at s.memory pc) && ltb s.cb2 8)

  -- `count` ranges from `pc` on, in `size` bytes; `pb` is the place for the next copy.
  unfoldable pub walk_ranges : (count size pc : ℕ) → Lists → List ℕ × Lists
  unfolding range_step
  walk_ranges zero size pc s = ([], s)
  walk_ranges (suc count) size pc s =
      let format_size = align_data_range (ulong_at s.memory pc) % 2 ^ 32 in
      let (bytes, s1) = range_step pc s in
      let (rest, s2) = walk_ranges count (size - format_size) (pc + format_size) s1 in
      if leaves size pc s then ([], record s { whole = false }) else (bytes ++ rest, s2)

  -- The end of the loop: only a whole walk moves `pb`.
  unfoldable pub keep_ranges : Lists → List ℕ × Lists → List ℕ × Lists
  keep_ranges s (bytes, w) = (
    bytes,
    if w.whole
        then record w { cb = s.cb - (w.pb - s.pb); whole = s.whole }
        else record w { pb = s.pb },
  )

  -- The answer of the driver in memory at `pb`: KSMULTIPLE_ITEM and the ranges.
  unfoldable pub read_ranges : Option (List ℕ) → Lists → List ℕ × Lists
  unfolding walk_ranges keep_ranges
  read_ranges none s = ([], s)
  read_ranges (some bytes) s =
      let s1 : Lists = record s { memory = copy s.memory s.pb bytes } in
      let size = ulong_at s1.memory s.pb in
      let count = ulong_at s1.memory (s.pb + 4) in
      let walked =
        keep_ranges s1 (walk_ranges count (size - 8) (s.pb + 8) (record s1 { whole = true })) in
      if count == 0
      then ([], s1)
      else if ltb 8 size && (size == length bytes)
      then walked
      else ([], s1)

  unfoldable pub pin_step : Pin → Lists → List ℕ × Lists
  unfolding read_ranges
  pin_step pin s =
      if pin.flows_out && pin.captures then read_ranges (pin.data_ranges s.cb) s else ([], s)

  -- The first CreateInfo.
  unfoldable pub create_pins : List Pin → Lists → List ℕ × Lists
  unfolding pin_step
  create_pins [] s = ([], s)
  create_pins (pin ∷ pins) s =
      let (bytes, s1) = pin_step pin s in
      let (rest, s2) = create_pins pins s1 in (bytes ++ rest, s2)

  -- The name for the client, or '*'.
  unfoldable pub write_name : Option (List ℕ) → Lists → Option (List ℕ × Lists)
  write_name (some name) s =
      some (name, record s { pf = s.pf + length name; cb2 = s.cb2 - length name })
  write_name none s =
      if ltb s.cb2 4
      then none
      else some (42 ∷ 0 ∷ 0 ∷ 0 ∷ [], record s { pf = s.pf + 4; cb2 = s.cb2 - 4 })

  unfoldable pub align_lists : Lists → List ℕ × Lists
  align_lists s = (
    read machine.junk s.pf (align_vfi s.pf - s.pf),
    record s {
      pb = align_data_range s.pb;
      cb = s.cb / 8 * 8;
      pf = align_vfi s.pf;
      cb2 = s.cb2 / 4 * 4;
    },
  )

  -- The 0 that ends the formats, in both lists.
  unfoldable pub end_formats : List ℕ × Lists → Option (List ℕ × Lists)
  end_formats (bytes, s) =
      if ltb s.cb 4 || ltb s.cb2 4
      then none
      else some (
        bytes ++ ulong_bytes 0,
        record s {
          memory = copy s.memory s.pb (ulong_bytes 0);
          pb = s.pb + 4;
          cb = s.cb - 4;
          pf = s.pf + 4;
          cb2 = s.cb2 - 4;
        },
      )

  unfoldable pub named_device : Device → Option (List ℕ × Lists) → Option (List ℕ × Lists)
  unfolding create_pins
  named_device device none = none
  named_device device (some (name, s)) =
      let (pad, s1) = align_lists s in
      let (formats, s2) = create_pins (if device.opens then device.pins else []) s1 in
      end_formats (name ++ pad ++ formats, s2)

  unfoldable pub device_step : Device → Lists → Option (List ℕ × Lists)
  device_step device s = named_device device (write_name (device.friendly_name s.cb2) s)

  unfoldable pub prepend :
      List ℕ → Option (Option (List ℕ × Lists)) → Option (Option (List ℕ × Lists))
  prepend bytes none = none
  prepend bytes (some none) = some none
  prepend bytes (some (some (rest, s))) = some (some (bytes ++ rest, s))

  unfoldable pub then_lists :
      Option (List ℕ × Lists)
      → (Lists → Option (Option (List ℕ × Lists)))
      → Option (Option (List ℕ × Lists))
  unfolding prepend
  then_lists none next = some none
  then_lists (some (bytes, s)) next = prepend bytes (next s)

  unfoldable pub after_name :
      Option ℕ → (ℕ → Option (Option (List ℕ × Lists))) → Option (Option (List ℕ × Lists))
  after_name none next = none
  after_name (some z) next = next z

  -- The last WCHAR of the client's list.
  unfoldable pub end_devices : Lists → Option (List ℕ × Lists)
  end_devices s =
      if ltb s.cb2 4 then none else some (0 ∷ 0 ∷ [], record s { pf = s.pf + 2; cb2 = s.cb2 - 2 })

  -- while (*pszDeviceInterface)
  unfoldable pub create_devices : (fuel limit psz : ℕ) → Lists → Option (Option (List ℕ × Lists))
  create_devices zero limit psz s = none
  create_devices (suc fuel) limit psz s =
      let rest = after_name (wcs_end limit s.memory psz) (λ z.
        then_lists (device_step (machine.device psz) s) (create_devices fuel limit (z + 2))) in
      if wchar_at s.memory psz == 0 then some (end_devices s) else rest

  unfoldable pub create_listed :
      (fuel : ℕ) → Option (List ℕ) → Lists → Option (Option (List ℕ × Lists))
  create_listed fuel none s = some (end_devices s)
  create_listed fuel (some names) s =
      let m = copy s.memory s.pb names in
      after_name (get_strings_end fuel fuel m s.pb) (λ pb.
        create_devices fuel fuel s.pb (record s { memory = m; pb = pb; cb = s.cb - (pb - s.pb) }))

  -- The second CreateInfo.
  unfoldable pub create_info : (fuel : ℕ) → Lists → Option (Option (List ℕ × Lists))
  create_info fuel s = create_listed fuel machine.interfaces s
