-- ===== src/U8String.antt =====
-- The UTF-8 code of j2_library/src/string/u8string.cpp: the decoder and the encoder of `detail`, and
-- the conversions of whole texts. A `u8string` is a list of bytes. The decoder is given the bytes
-- from `index` on, and returns the code point and by how much `index` grows.
pub mod Masks
pub mod Decode
pub mod RoundTrip
pub mod Progress
pub mod Utf16
mod Tests
use Prim.Native.Nat.{bit_and, bit_or}
use jaytwo_library.Prelude.{
  ℕ, ◌+◌, ◌-◌, ◌*◌, ◌/◌, ◌%◌, ◌^◌, zero, suc, Bool, true, false, ◌&&◌, ◌||◌, not, List, [], ◌∷◌,
  ◌++◌, Option, none, some, Bytes, length, drop, if◌then◌else◌, ltb, leb, ◌==◌,
}

-- U+FFFD.
abbrev pub replacement : ℕ
replacement = 0xFFFD

-- `(b & 0b11000000) == 0b10000000`.
abbrev pub is_cont : ℕ → Bool
is_cont b = bit_and b 0xC0 == 0x80

abbrev pub two_bytes : ℕ → Bytes → ℕ × ℕ
two_bytes b0 [] = (replacement, 1)
two_bytes b0 (b1 ∷ rest) =
    let cp = bit_or (bit_and b0 0x1F * 2 ^ 6) (bit_and b1 0x3F) in
    if not (is_cont b1) then (replacement, 1) else ((if ltb cp 0x80 then replacement else cp), 2)

abbrev pub three_bytes : ℕ → Bytes → ℕ × ℕ
three_bytes b0 [] = (replacement, 1)
three_bytes b0 (b1 ∷ []) = (replacement, 1)
three_bytes b0 (b1 ∷ b2 ∷ rest) =
    let cp =
      bit_or (bit_or (bit_and b0 0xF * 2 ^ 12) (bit_and b1 0x3F * 2 ^ 6)) (bit_and b2 0x3F) in
    if not (is_cont b1) || not (is_cont b2)
    then (replacement, 1)
    else ((if ltb cp 0x800 || (leb 0xD800 cp && leb cp 0xDFFF) then replacement else cp), 3)

abbrev pub four_bytes : ℕ → Bytes → ℕ × ℕ
four_bytes b0 [] = (replacement, 1)
four_bytes b0 (b1 ∷ []) = (replacement, 1)
four_bytes b0 (b1 ∷ b2 ∷ []) = (replacement, 1)
four_bytes b0 (b1 ∷ b2 ∷ b3 ∷ rest) =
    let cp =
      bit_or
        (bit_or (bit_or (bit_and b0 7 * 2 ^ 18) (bit_and b1 0x3F * 2 ^ 12))
          (bit_and b2 0x3F * 2 ^ 6))
        (bit_and b3 0x3F) in
    if not (is_cont b1) || (not (is_cont b2) || not (is_cont b3))
    then (replacement, 1)
    else ((if ltb cp 0x10000 || ltb 0x10FFFF cp then replacement else cp), 4)

-- The branches on the first byte.
unfoldable pub lead : ℕ → Bytes → ℕ × ℕ
lead b0 rest =
    if bit_and b0 0x80 == 0
    then (b0, 1)
    else if bit_and b0 0xE0 == 0xC0
    then two_bytes b0 rest
    else if bit_and b0 0xF0 == 0xE0
    then three_bytes b0 rest
    else if bit_and b0 0xF8 == 0xF0
    then four_bytes b0 rest
    else (replacement, 1)

unfoldable pub next_code_point : Bytes → Option (ℕ × ℕ)
unfolding lead
next_code_point [] = none
next_code_point (b0 ∷ rest) = some (lead b0 rest)

-- The bytes that `append_utf8` appends.
abbrev pub utf8_three : ℕ → Bytes
utf8_three cp =
    bit_or 0xE0 (cp / 2 ^ 12)
    ∷ bit_or 0x80 (bit_and (cp / 2 ^ 6) 0x3F)
    ∷ bit_or 0x80 (bit_and cp 0x3F)
    ∷ []

unfoldable pub append_utf8 : ℕ → Bytes
append_utf8 cp =
    if leb cp 0x7F
    then cp ∷ []
    else if leb cp 0x7FF
    then bit_or 0xC0 (cp / 2 ^ 6) ∷ bit_or 0x80 (bit_and cp 0x3F) ∷ []
    else if leb cp 0xFFFF
    then utf8_three (if leb 0xD800 cp && leb cp 0xDFFF then replacement else cp)
    else if leb cp 0x10FFFF
    then bit_or 0xF0 (cp / 2 ^ 18)
      ∷ bit_or 0x80 (bit_and (cp / 2 ^ 12) 0x3F)
      ∷ bit_or 0x80 (bit_and (cp / 2 ^ 6) 0x3F)
      ∷ bit_or 0x80 (bit_and cp 0x3F)
      ∷ []
    else utf8_three replacement

-- The `while` over the code points, with the rounds left: each takes a byte at least.
unfoldable pub code_points_loop : ℕ → Bytes → List ℕ → List ℕ
unfolding next_code_point
code_points_loop zero s out = out
code_points_loop (suc fuel) s out = elim (next_code_point s) [
  | none ↦ out
  | some (cp, len) ↦ code_points_loop fuel (drop len s) (out ++ cp ∷ [])
]

unfoldable pub to_u32string : Bytes → List ℕ
unfolding code_points_loop
to_u32string s = code_points_loop (length s) s []

-- `to_u8_string` of a UTF-32 text.
unfoldable pub from_u32string : List ℕ → Bytes
unfolding append_utf8
from_u32string [] = []
from_u32string (cp ∷ s32) = append_utf8 cp ++ from_u32string s32
