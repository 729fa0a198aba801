-- ===== src/Encoding/Tests.antt =====
-- The laws of the UTF-16 conversions at concrete code points.
use jaytwo_library.Prelude.{ℕ, List, [], ◌∷◌, some, ◌≡◌, inl, inr, arith}
use jaytwo_library.Encoding.{utf16_to_utf32, utf32_to_utf16}
use jaytwo_library.Encoding.RoundTrip.{utf16-utf32}

-- A letter and an emoji.
abbrev points : List ℕ
points = 0x41 ∷ 0x1F600 ∷ []

abbrev units : List ℕ
units = 0x41 ∷ 0xD83D ∷ 0xDE00 ∷ []

utf16-utf32_example :
    (u : List ℕ) × (utf32_to_utf16 points ≡ some u) × (utf16_to_utf32 u ≡ some points)
utf16-utf32_example = utf16-utf32 points (inl (omega arith), (inr (omega arith, omega arith), tt))
