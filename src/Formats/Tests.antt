-- ===== src/Formats/Tests.antt =====
-- Runs of the loops over formats, and their theorems at concrete lists.
use camera_udp.Base.{
  ℕ, ◌≤◌, ◌<◌, leb, ltb, ◌+◌, ◌^◌, ◌≡◌, refl, Bool, true, [], ◌∷◌, some, arith, Memory, copy,
}
use camera_udp.Formats.{
  wcs_end, then_at, get_strings_end, align_data_range, find_format, after_walk, find_device,
  get_format_info, align_vfi, skip_formats, validate_devices, validate_formats,
}
use camera_udp.Formats.Strings.{strings_size}
use camera_udp.Formats.Found.{expected, get_format_info-expected}
use camera_udp.Formats.Validated.{validate_formats_by_message}

-- At 1024: the name "A", the end of the list, and, at 1032, two formats of eight bytes and a 0.
devices : Memory
devices =
    copy (λ _. 0) 1024
      (65 ∷ 0 ∷ 0 ∷ 0 ∷ 0 ∷ 0 ∷ 0 ∷ 0 ∷ 8 ∷ 0 ∷ 0 ∷ 0 ∷ 1 ∷ 0 ∷ 0 ∷ 0 ∷ 8 ∷ 0 ∷ 0 ∷ 0 ∷ 2 ∷ 0 ∷ 0
        ∷ 0 ∷ [])

get_format_info-expected_example :
    get_format_info 8 9 devices 1024 0 1
    ≡ some (expected 8 1024 (1024 + strings_size (1 ∷ [])) (1 ∷ []) (2 ∷ []) 0 1)
unfolding devices copy align_data_range
get_format_info-expected_example =
    get_format_info-expected 8 9 devices 1024 0 1 (1 ∷ []) (2 ∷ [])
      (omega arith, (λ e. absurd (omega arith), refl), refl)
      ((λ e. absurd (omega arith), (λ e. absurd (omega arith), refl)), tt) refl (omega arith)
      (omega arith, tt) (omega arith, tt) (omega arith) (omega arith)

-- The second format of the first device.
second_format : expected 8 1024 1030 (1 ∷ []) (2 ∷ []) 0 1 ≡ some (1024, 1040)
unfolding align_data_range
second_format = refl

-- A number of 2 ^ 31 names the first format of a device that was not asked for.
other_device : get_format_info 8 9 devices 1024 7 (2 ^ 31) ≡ some (some (1024, 1032))
unfolding devices copy get_format_info get_strings_end find_device find_format after_walk then_at
    wcs_end align_data_range
other_device = refl

-- The name "A", one format, the 0 after the formats, and the empty name.
message : Memory
message =
    copy (λ _. 7) 1024
      (65 ∷ 0 ∷ 0 ∷ 0 ∷ 89 ∷ 85 ∷ 89 ∷ 50 ∷ 1 ∷ 0 ∷ 0 ∷ 0 ∷ 0 ∷ 0 ∷ 0 ∷ 0 ∷ 0 ∷ 0 ∷ [])

message-accepted : validate_formats 20 message 1024 18 ≡ some true
unfolding message copy validate_formats validate_devices skip_formats then_at wcs_end align_vfi
message-accepted = refl

-- The same message, where the memory around it holds other bytes.
other_message : Memory
other_message =
    copy (λ _. 0) 1024
      (65 ∷ 0 ∷ 0 ∷ 0 ∷ 89 ∷ 85 ∷ 89 ∷ 50 ∷ 1 ∷ 0 ∷ 0 ∷ 0 ∷ 0 ∷ 0 ∷ 0 ∷ 0 ∷ 0 ∷ 0 ∷ [])

message-same : (a : ℕ) → 1024 ≤ a → a < 1024 + 18 → message a ≡ other_message a
unfolding message other_message copy
message-same a p q =
    let low : leb 1024 a ≡ true = ground arith in
    let high : ltb a (1024 + 18) ≡ true = ground arith in rw (low, high) refl

validate_formats_by_message_example :
    (b : Bool) × (validate_formats 20 message 1024 18 ≡ some b)
    × (validate_formats 20 other_message 1024 18 ≡ some b)
validate_formats_by_message_example =
    validate_formats_by_message 20 message other_message 1024 18 refl (omega arith) (omega arith)
      message-same
