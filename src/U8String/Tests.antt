-- ===== src/U8String/Tests.antt =====
-- The laws of the UTF-8 conversions at concrete texts.
use jaytwo_library.Prelude.{ℕ, List, [], ◌∷◌, some, All, Bytes, ◌≡◌, inl, inr, arith}
use jaytwo_library.Encoding.{utf32_to_utf16}
use jaytwo_library.Encoding.RoundTrip.{IsScalar}
use jaytwo_library.U8String.{to_u32string, from_u32string}
use jaytwo_library.U8String.RoundTrip.{to_u32string-from_u32string}
use jaytwo_library.U8String.Progress.{to_u32string-All}
use jaytwo_library.U8String.Utf16.{to_u16string, from_u16string, utf8-utf16}

-- A letter, a Hangul syllable and an emoji.
abbrev points : List ℕ
points = 0x41 ∷ 0xAC00 ∷ 0x1F600 ∷ []

points-All : All IsScalar points
points-All = (inl (omega arith), (inl (omega arith), (inr (omega arith, omega arith), tt)))

-- A surrogate in UTF-8, and a lead byte without its rest.
abbrev ill : Bytes
ill = 0xED ∷ 0xA0 ∷ 0x80 ∷ 0xE2 ∷ []

to_u32string-from_u32string_example : to_u32string (from_u32string points) ≡ points
to_u32string-from_u32string_example = to_u32string-from_u32string points points-All

to_u32string-All_example : All IsScalar (to_u32string ill)
to_u32string-All_example =
    to_u32string-All ill (omega arith, (omega arith, (omega arith, (omega arith, tt))))

utf8-utf16_example :
    (u : List ℕ) × (utf32_to_utf16 points ≡ some u)
    × (to_u16string (from_u32string points) ≡ u)
    × (from_u16string u ≡ from_u32string points)
utf8-utf16_example = utf8-utf16 points points-All
