-- ===== src/Picture/Tests.antt =====
-- Runs of the conversion, and its theorem at a concrete frame.
use camera_udp.Base.{
  ℕ, ◌+◌, ◌/◌, ◌≤◌, ◌<◌, ltb, true, if◌then◌else◌, arith, ◌*◌, ◌^◌, ◌≡◌, refl, [], ◌∷◌, length,
  Memory, copy,
}
use camera_udp.Picture.{clamp, rgba, pixel, convert_pixels, convert_lines, nv12_to_rgba}
use camera_udp.Picture.Bounds.{AllBelow, nv12_to_rgba-inside}

-- Two by two pixels: white, black, grey and black.
frame : Memory
frame = copy (λ _. 0) 64 (235 ∷ 16 ∷ 126 ∷ 0 ∷ 128 ∷ 128 ∷ [])

frame-rgba : nv12_to_rgba frame 64 2 2 ≡ 0xFFFFFF ∷ 0 ∷ 0x808080 ∷ 0 ∷ []
unfolding frame copy nv12_to_rgba convert_lines convert_pixels pixel rgba clamp
frame-rgba = refl

-- Another memory with the same frame: it differs behind the frame.
abbrev other_frame : Memory
other_frame a = if ltb a 70 then frame a else 9

frame-same : (a : ℕ) → 64 ≤ a → a < 64 + (2 * 2 + 2 / 2 * 2) → frame a ≡ other_frame a
frame-same a p q = let e : ltb a 70 ≡ true = ground arith in rw e refl

nv12_to_rgba-inside_example :
    (nv12_to_rgba frame 64 2 2 ≡ nv12_to_rgba other_frame 64 2 2)
    × (length (nv12_to_rgba frame 64 2 2) ≡ 2 * 2)
    × AllBelow (2 ^ 24) (nv12_to_rgba frame 64 2 2)
nv12_to_rgba-inside_example = nv12_to_rgba-inside frame other_frame 64 2 2 refl refl frame-same
