-- ===== src/Formats.antt =====
-- Lists of cameras and formats in memory: GetStringsEnd and GetFormatInfo of camera server/server.cpp,
-- and ValidateFormats of remote camera/client.cpp. A loop runs on fuel, and `none` says that it ended
-- first.
pub mod Strings
pub mod Found
pub mod Validated
mod Tests
use camera_udp.Base.{
  ℕ, zero, suc, ◌+◌, ◌-◌, ◌*◌, ◌/◌, ◌%◌, ◌^◌, Bool, true, false, not, ◌&&◌, ◌||◌, Option, none,
  some, ltb, leb, ◌==◌, if◌then◌else◌, Memory,
}

abbrev pub wchar_at : Memory → ℕ → ℕ
wchar_at m at = m at + 256 * m (at + 1)

abbrev pub ulong_at : Memory → ℕ → ℕ
ulong_at m at = m at + 256 * (m (at + 1) + 256 * (m (at + 2) + 256 * m (at + 3)))

-- The end of the string at an address: psz + wcslen(psz).
unfoldable pub wcs_end : (fuel : ℕ) → Memory → ℕ → Option ℕ
wcs_end zero m psz = none
wcs_end (suc fuel) m psz =
    let rest = wcs_end fuel m (psz + 2) in if wchar_at m psz == 0 then some psz else rest

unfoldable pub then_at {ℓ} : {R : Type ℓ} → Option ℕ → (ℕ → Option R) → Option R
then_at none next = none
then_at (some at) next = next at

unfoldable pub get_strings_end : (fuel limit : ℕ) → Memory → ℕ → Option ℕ
get_strings_end zero limit m psz = none
get_strings_end (suc fuel) limit m psz =
    let rest = then_at (wcs_end limit m psz) (λ z. get_strings_end fuel limit m (z + 2)) in
    if wchar_at m psz == 0 then some (psz + 2) else rest

-- Where the loop over the formats of one device stops.
pub data Walk : Type 0 where
  found : ℕ → Walk
  ended : ℕ → Walk

-- MINLONG
abbrev pub minlong : ℕ
minlong = 2 ^ 31

-- The alignment of KSDATARANGE is 8; the size of KS_DATARANGE_VIDEO is the system's.
unfoldable pub align_data_range : ℕ → ℕ
align_data_range up = (up + 7) / 8 * 8

module _ (size_video : ℕ) where
  -- while (pDRVideo->DataRange.FormatSize)
  unfoldable pub find_format : (fuel : ℕ) → Memory → (at n j : ℕ) → Option Walk
  find_format zero m at n j = none
  find_format (suc fuel) m at n j =
      let rest = find_format fuel m (at + size_video) ((n + 1) % 2 ^ 32) j in
      if ulong_at m at == 0 then some (ended at) else if j == n then some (found at) else rest

  unfoldable pub after_walk :
      (name : ℕ) → Option Walk → (ℕ → Option (Option (ℕ × ℕ))) → Option (Option (ℕ × ℕ))
  after_walk name none next = none
  after_walk name (some (found at)) next = some (some (name, at))
  after_walk name (some (ended at)) next = next at

  -- while (*pszDeviceInterface): the name of the device and the address of the format.
  unfoldable pub find_device :
      (fuel limit : ℕ) → Memory → (name up i j m : ℕ) → Option (Option (ℕ × ℕ))
  find_device zero limit mem name up i j m = none
  find_device (suc fuel) limit mem name up i j m =
      let walk = find_format limit mem (align_data_range up) (if m == i then 0 else minlong) j in
      let rest = after_walk name walk (λ at.
        then_at (wcs_end limit mem name)
          (λ z. find_device fuel limit mem (z + 2) (at + 4) i j (m + 1))) in
      if wchar_at mem name == 0 then some none else rest

  unfoldable pub get_format_info :
      (fuel : ℕ) → Memory → (psz_device_interface i j : ℕ) → Option (Option (ℕ × ℕ))
  get_format_info fuel m psz i j =
      then_at (get_strings_end fuel fuel m psz) (λ up. find_device fuel fuel m psz up i j 0)

-- The alignment of VFI is 4, its size 8.
unfoldable pub align_vfi : ℕ → ℕ
align_vfi up = (up + 3) / 4 * 4

-- while (pf < end && pf->biCompression)
unfoldable pub skip_formats : (fuel : ℕ) → Memory → (pf end : ℕ) → Option ℕ
skip_formats zero m pf end = none
skip_formats (suc fuel) m pf end =
    let rest = skip_formats fuel m (pf + 8) end in
    if ltb pf end && not (ulong_at m pf == 0) then rest else some pf

unfoldable pub validate_devices : (fuel limit : ℕ) → Memory → (name end : ℕ) → Option Bool
validate_devices zero limit m name end = none
validate_devices (suc fuel) limit m name end =
    let rest = then_at (wcs_end limit m name) (λ z.
      then_at (skip_formats limit m (align_vfi (z + 2)) end) (λ pf.
        let more = validate_devices fuel limit m (pf + 4) end in
        if leb end pf then some false else more)) in
    if wchar_at m name == 0 then some true else rest

-- `end` is buf + cb - sizeof(WCHAR). For cb = 2 the source reads a ULONG before the buffer.
unfoldable pub validate_formats : (fuel : ℕ) → Memory → (buf cb : ℕ) → Option Bool
validate_formats fuel m buf cb =
    let walk = validate_devices fuel fuel m buf (buf + cb - 2) in
    if (cb % 2 == 1) || (cb % 4 == 0)
    then some false
    else if not (ulong_at m (buf + cb - 6) == 0) || not (wchar_at m (buf + cb - 2) == 0)
    then some false
    else walk
