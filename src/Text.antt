-- ===== src/Text.antt =====
-- What the sources use of `std::string` and `<cctype>`: `find`, `rfind`, `substr`, `std::equal`,
-- `isspace`, `isdigit` and `tolower` in the "C" locale. A string is a list of bytes.
pub mod Find
pub mod Pieces
use jaytwo_library.Prelude.{
  ℕ, ◌+◌, ◌-◌, zero, suc, Bool, true, false, ◌&&◌, ◌||◌, not, List, [], ◌∷◌, ◌++◌, reverse, Option,
  none, some, Bytes, length, take, drop, ltb, leb, ◌==◌, if◌then◌else◌,
}

-- `std::isspace`: blank, tab, line feed, vertical tab, form feed and carriage return.
unfoldable pub is_space : ℕ → Bool
is_space c = c == 32 || (leb 9 c && leb c 13)

unfoldable pub is_digit : ℕ → Bool
is_digit c = leb b'0' c && leb c b'9'

-- `std::equal(p.begin(), p.end(), s.begin())`, where `s` is at least as long as `p`.
unfoldable pub equal : Bytes → Bytes → Bool
equal [] s = true
equal (c ∷ p) [] = false
equal (c ∷ p) (d ∷ s) = (c == d) && equal p s

-- `a == b` on whole strings.
unfoldable pub str_eq : Bytes → Bytes → Bool
str_eq [] [] = true
str_eq [] (d ∷ s) = false
str_eq (c ∷ p) [] = false
str_eq (c ∷ p) (d ∷ s) = (c == d) && str_eq p s

abbrev pub offset : ℕ → Option ℕ → Option ℕ
offset k none = none
offset k (some i) = some (k + i)

abbrev pub next : Option ℕ → Option ℕ
next none = none
next (some i) = some (suc i)

-- The first occurrence of `tok`.
unfoldable pub find_first : Bytes → Bytes → Option ℕ
unfolding equal
find_first tok [] = if equal tok [] then some 0 else none
find_first tok (c ∷ s) =
    let rest = next (find_first tok s) in if equal tok (c ∷ s) then some 0 else rest

-- `s.find(tok, pos)`; `none` is `npos`.
unfoldable pub find : Bytes → Bytes → ℕ → Option ℕ
unfolding find_first
find s tok pos = if leb pos (length s) then offset pos (find_first tok (drop pos s)) else none

-- `s.rfind(tok)`: the last occurrence.
unfoldable pub rfind : Bytes → Bytes → Option ℕ
unfolding equal
rfind tok [] = if equal tok [] then some 0 else none
rfind tok (c ∷ s) = elim (rfind tok s) [
  | some i ↦ some (suc i)
  | none ↦ if equal tok (c ∷ s) then some 0 else none
]

-- `s.find(c) != npos` for a char.
unfoldable pub has_char : Bytes → ℕ → Bool
has_char [] c = false
has_char (d ∷ s) c = (d == c) || has_char s c

-- `std::find_if` to the first char that fails the test, and `erase` up to it.
unfoldable pub drop_while : (ℕ → Bool) → Bytes → Bytes
drop_while p [] = []
drop_while p (c ∷ s) = if p c then drop_while p s else c ∷ s

-- `s.substr(pos, count)`, for `pos <= s.size()`.
abbrev pub substr : Bytes → ℕ → ℕ → Bytes
substr s pos count = take count (drop pos s)
