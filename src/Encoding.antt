-- ===== src/Encoding.antt =====
-- The conversions between UTF-16 and UTF-32 that j2_library/src/encoding/encoding_function.cpp
-- implements itself. A text is a list of code units; `none` is the result `false`.
pub mod RoundTrip
pub mod Decode
mod Tests
use Prim.Native.Nat.{bit_and}
use jaytwo_library.Prelude.{
  ℕ, ◌+◌, ◌-◌, ◌*◌, ◌/◌, ◌%◌, ◌^◌, zero, suc, Bool, true, false, ◌&&◌, ◌||◌, List, [], ◌∷◌, ◌++◌,
  Option, none, some, if◌then◌else◌, ltb, leb,
}

abbrev pub is_high : ℕ → Bool
is_high c = leb 0xD800 c && leb c 0xDBFF

abbrev pub is_low : ℕ → Bool
is_low c = leb 0xDC00 c && leb c 0xDFFF

-- `(high << 10) + low + 0x10000`.
abbrev pub pair : ℕ → ℕ → ℕ
pair cu cu2 = (cu - 0xD800) * 2 ^ 10 + (cu2 - 0xDC00) + 0x10000

-- `utf16_to_utf32_impl`: the loop over the units, with the text so far. A high surrogate takes the
-- unit behind it along.
unfoldable pub decode_loop : List ℕ → List ℕ → Option (List ℕ)
decode_loop [] out = some out
decode_loop (cu ∷ []) out =
    if is_high cu then none else if is_low cu then none else some (out ++ cu ∷ [])
decode_loop (cu ∷ cu2 ∷ rest) out =
    let after_pair = decode_loop rest (out ++ pair cu cu2 ∷ []) in
    let after_unit = decode_loop (cu2 ∷ rest) (out ++ cu ∷ []) in
    if is_high cu
    then if ltb cu2 0xDC00 || ltb 0xDFFF cu2 then none else after_pair
    else if is_low cu
    then none
    else after_unit

unfoldable pub utf16_to_utf32 : List ℕ → Option (List ℕ)
unfolding decode_loop
utf16_to_utf32 u16 = decode_loop u16 []

-- `0xD800 + ((v >> 10) & 0x3FF)` and `0xDC00 + (v & 0x3FF)`.
abbrev pub high_unit : ℕ → ℕ
high_unit v = 0xD800 + bit_and (v / 2 ^ 10) 0x3FF

abbrev pub low_unit : ℕ → ℕ
low_unit v = 0xDC00 + bit_and v 0x3FF

-- `utf32_to_utf16_impl`.
unfoldable pub encode_loop : List ℕ → List ℕ → Option (List ℕ)
encode_loop [] out = some out
encode_loop (v ∷ rest) out =
    let after_unit = encode_loop rest (out ++ v ∷ []) in
    let after_pair =
      encode_loop rest (out ++ (high_unit (v - 0x10000) ∷ low_unit (v - 0x10000) ∷ [])) in
    if leb v 0xFFFF
    then if leb 0xD800 v && leb v 0xDFFF then none else after_unit
    else if leb v 0x10FFFF
    then after_pair
    else none

unfoldable pub utf32_to_utf16 : List ℕ → Option (List ℕ)
unfolding encode_loop
utf32_to_utf16 u32 = encode_loop u32 []
