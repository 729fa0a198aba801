-- ===== src/U8Str/Tests.antt =====
-- The laws of `u8str` at concrete texts.
use jaytwo_library.Prelude.{
  ℕ, ◌-◌, List, [], ◌∷◌, ◌++◌, true, not, codes, ◌≡◌, inl, inr, arith, take, drop, length,
  replicate, reverse,
}
use jaytwo_library.StringBasic.Affix
use jaytwo_library.StringBasic.Trim
use jaytwo_library.StringBasic.Replace
use jaytwo_library.StringBasic.Split
use jaytwo_library.U8String.{from_u32string}
use jaytwo_library.U8Str.{
  contains, trim, replace_all, split, left, right, mid, reverse_utf8, pad_left, pad_right,
}
use jaytwo_library.U8Str.Points.{code_points_refine}
use jaytwo_library.U8Str.Agrees.{byte_wise_agree}

-- A letter, a Hangul syllable and an emoji.
abbrev points : List ℕ
points = 0x41 ∷ 0xAC00 ∷ 0x1F600 ∷ []

code_points_refine_example :
    (left (from_u32string points) 2 ≡ from_u32string (take 2 points))
    × (right (from_u32string points) 2 ≡ from_u32string (drop (length points - 2) points))
    × (mid (from_u32string points) 1 1 ≡ from_u32string (take 1 (drop 1 points)))
    × (reverse_utf8 (from_u32string points) ≡ from_u32string (reverse points))
    × (pad_left (from_u32string points) 5 32
        ≡ from_u32string (replicate (5 - length points) 32 ++ points))
    × (pad_right (from_u32string points) 5 32
        ≡ from_u32string (points ++ replicate (5 - length points) 32))
code_points_refine_example =
    code_points_refine points 2 1 1 5 32
      (inl (omega arith), (inl (omega arith), (inr (omega arith, omega arith), tt))) (omega arith)
      (omega arith)

byte_wise_agree_example :
    (contains (codes " a,b ") (codes "a") ≡ Affix.contains (codes " a,b ") (codes "a"))
    × (trim (codes " a,b ") ≡ Trim.trim (codes " a,b "))
    × (replace_all (codes " a,b ") (codes "a") (codes "aa")
        ≡ Replace.replace (codes " a,b ") (codes "a") (codes "aa"))
    × (split (codes " a,b ") (44 ∷ []) true ≡ Split.split (codes " a,b ") (44 ∷ []) (not true))
byte_wise_agree_example = byte_wise_agree (codes " a,b ") (codes "a") (codes "aa") 44 [] true
