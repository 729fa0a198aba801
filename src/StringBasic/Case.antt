-- ===== src/StringBasic/Case.antt =====
-- ASCII case in j2_library/src/string/string_basic.cpp: conversion and comparison without case.
pub mod Laws
use jaytwo_library.Prelude.{
  ℕ, ◌+◌, ◌-◌, Bool, true, false, ◌&&◌, [], ◌∷◌, reverse, Bytes, length, is_empty, if◌then◌else◌,
  ltb, leb, ◌==◌,
}
use jaytwo_library.Text.{find}
use jaytwo_library.StringBasic.Affix.{is_some}

-- `j2_to_lower_ascii` and `j2_to_upper_ascii`.
unfoldable pub to_lower_ascii : ℕ → ℕ
to_lower_ascii c = if leb b'A' c && leb c b'Z' then (c - b'A') + b'a' else c

unfoldable pub to_upper_ascii : ℕ → ℕ
to_upper_ascii c = if leb b'a' c && leb c b'z' then (c - b'a') + b'A' else c

unfoldable pub to_lower : Bytes → Bytes
to_lower [] = []
to_lower (c ∷ s) = to_lower_ascii c ∷ to_lower s

unfoldable pub to_upper : Bytes → Bytes
to_upper [] = []
to_upper (c ∷ s) = to_upper_ascii c ∷ to_upper s

-- The loop over the chars of `p`, beside those of a text that is at least as long.
same_chars : Bytes → Bytes → Bool
same_chars [] s = true
same_chars (c ∷ p) [] = false
same_chars (c ∷ p) (d ∷ s) = (to_lower_ascii d == to_lower_ascii c) && same_chars p s

unfoldable pub iequals : Bytes → Bytes → Bool
unfolding same_chars
iequals a b = if length a == length b then same_chars b a else false

unfoldable pub icontains : Bytes → Bytes → Bool
unfolding is_some
icontains s token = if is_empty token then true else is_some (find (to_lower s) (to_lower token) 0)

unfoldable pub istarts_with : Bytes → Bytes → Bool
unfolding same_chars
istarts_with s prefix = if ltb (length s) (length prefix) then false else same_chars prefix s

-- The loop runs from the back of both texts.
unfoldable pub iends_with : Bytes → Bytes → Bool
unfolding same_chars
iends_with s suffix =
    if ltb (length s) (length suffix) then false else same_chars (reverse suffix) (reverse s)
