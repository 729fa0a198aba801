-- ===== src/StringBasic/Shape.antt =====
-- Padding, repeating, quoting, indenting and shortening in
-- j2_library/src/string/string_basic.cpp.
pub mod Laws
use jaytwo_library.Prelude.{
  ℕ, ◌+◌, ◌-◌, ◌/◌, zero, suc, Bool, true, false, not, ◌&&◌, ◌||◌, List, [], ◌∷◌, ◌++◌, Option,
  none, some, Bytes, length, take, drop, replicate, is_empty, if◌then◌else◌, ltb, leb, ◌==◌,
}
use jaytwo_library.Text.{has_char, substr, is_digit}

unfoldable pub pad_left : Bytes → ℕ → ℕ → Bytes
pad_left s width fill = if leb width (length s) then s else replicate (width - length s) fill ++ s

unfoldable pub pad_right : Bytes → ℕ → ℕ → Bytes
pad_right s width fill = if leb width (length s) then s else s ++ replicate (width - length s) fill

unfoldable pub pad_center : Bytes → ℕ → ℕ → Bytes
pad_center s width fill =
    if leb width (length s)
    then s
    else let total = width - length s in
      let left = total / 2 in
      let right = total - left in replicate left fill ++ (s ++ replicate right fill)

without : Bytes → Bytes → Bytes
without [] chars = []
without (c ∷ s) chars = elim (has_char chars c) [
  | true ↦ without s chars
  | false ↦ c ∷ without s chars
]

unfoldable pub remove_chars : Bytes → Bytes → Bytes
unfolding without
remove_chars s chars = if is_empty chars then s else without s chars

repeat_loop : Bytes → ℕ → Bytes → Bytes
repeat_loop s zero ret = ret
repeat_loop s (suc n) ret = repeat_loop s n (ret ++ s)

unfoldable pub repeat : Bytes → ℕ → Bytes
unfolding repeat_loop
repeat s count = if count == 0 || is_empty s then [] else repeat_loop s count []

-- `s.front()` and `s.back()`, which the callers read only where there is a char.
abbrev pub front : Bytes → Option ℕ
front [] = none
front (c ∷ s) = some c

abbrev pub back : Bytes → Option ℕ
back [] = none
back (c ∷ []) = some c
back (c ∷ d ∷ s) = back (d ∷ s)

abbrev pub is_char : ℕ → Option ℕ → Bool
is_char q none = false
is_char q (some c) = c == q

unfoldable pub strip_quotes : Bytes → ℕ → Bytes
strip_quotes s quote =
    if leb 2 (length s) && (is_char quote (front s) && is_char quote (back s))
    then substr s 1 (length s - 2)
    else s

escape_quoted : ℕ → Bytes → Bytes
escape_quoted q [] = []
escape_quoted q (c ∷ s) =
    (if c == q || c == b'\\' then b'\\' ∷ [] else []) ++ (c ∷ escape_quoted q s)

unfoldable pub quote : Bytes → ℕ → Bool → Bytes
unfolding escape_quoted
quote s q escape = if not escape then q ∷ (s ++ q ∷ []) else q ∷ (escape_quoted q s ++ q ∷ [])

indent_loop : Bytes → Bytes → Bytes
indent_loop prefix [] = []
indent_loop prefix (c ∷ s) = c ∷ ((if c == 10 then prefix else []) ++ indent_loop prefix s)

unfoldable pub indent_lines : Bytes → Bytes → Bytes
unfolding indent_loop
indent_lines s prefix = if is_empty s then prefix else prefix ++ indent_loop prefix s

-- `size_t` lengths: `count` may be any number up to `npos`.
unfoldable pub safe_substr : Bytes → ℕ → ℕ → Bytes
safe_substr s pos count =
    if leb (length s) pos
    then []
    else let max_count = length s - pos in
      substr s pos (if ltb max_count count then max_count else count)

unfoldable pub ellipsize : Bytes → ℕ → Bytes → Bytes
ellipsize s max_len ellipsis =
    if leb (length s) max_len
    then s
    else if leb max_len (length ellipsis)
    then take max_len ellipsis
    else take (max_len - length ellipsis) s ++ ellipsis

digits_only : Bytes → Bool
digits_only [] = true
digits_only (c ∷ s) = if ltb c b'0' || ltb b'9' c then false else digits_only s

unfoldable pub is_digits : Bytes → Bool
unfolding digits_only
is_digits s = if is_empty s then false else digits_only s
