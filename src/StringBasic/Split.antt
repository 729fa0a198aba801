-- ===== src/StringBasic/Split.antt =====
-- The splitting and joining functions of j2_library/src/string/string_basic.cpp.
pub mod Laws
pub mod Lines
use jaytwo_library.Prelude.{
  ℕ, ◌+◌, ◌-◌, zero, suc, Bool, true, false, not, ◌&&◌, ◌||◌, List, [], ◌∷◌, ◌++◌, none, some,
  Bytes, length, drop, is_empty, if◌then◌else◌, ltb, leb, ◌==◌,
}
use jaytwo_library.Text.{find, substr, has_char}
use jaytwo_library.StringBasic.Trim.{trim_copy}

-- `std::getline` until it fails: the rest after the last delimiter counts only if it is not empty.
split_char_loop : ℕ → Bytes → Bytes → List Bytes
split_char_loop d [] item = if is_empty item then [] else item ∷ []
split_char_loop d (c ∷ s) item = elim (c == d) [
  | true ↦ item ∷ split_char_loop d s []
  | false ↦ split_char_loop d s (item ++ c ∷ [])
]

unfoldable pub split_char : Bytes → ℕ → List Bytes
unfolding split_char_loop
split_char s d = split_char_loop d s []

singletons : Bytes → List Bytes
singletons [] = []
singletons (c ∷ s) = (c ∷ []) ∷ singletons s

-- The fuel is above the number of rounds: each one moves `pos` on by a whole delimiter.
unfoldable pub split_loop : ℕ → Bytes → Bytes → Bool → ℕ → List Bytes → List Bytes
split_loop zero s d keep pos parts = parts
split_loop (suc fuel) s d keep pos parts = elim (find s d pos) [
  | some idx ↦ split_loop fuel s d keep (idx + length d) (
      if keep || ltb pos idx
      then parts ++ substr s pos (idx - pos) ∷ []
      else if keep
      then parts ++ [] ∷ []
      else parts)
  | none ↦
      if keep || ltb pos (length s)
      then parts ++ drop pos s ∷ []
      else if keep && is_empty s
      then parts ++ [] ∷ []
      else parts
]

unfoldable pub split : Bytes → Bytes → Bool → List Bytes
unfolding split_loop singletons
split s d keep = if is_empty d then singletons s else split_loop (suc (length s)) s d keep 0 []

tokenize_loop : Bytes → Bool → Bytes → List Bytes → Bytes → List Bytes
tokenize_loop delims keep [] out cur = if keep || not (is_empty cur) then out ++ cur ∷ [] else out
tokenize_loop delims keep (c ∷ s) out cur = elim (not (is_empty delims) && has_char delims c) [
  | true ↦
      tokenize_loop delims keep s (if keep || not (is_empty cur) then out ++ cur ∷ [] else out) []
  | false ↦ tokenize_loop delims keep s out (cur ++ c ∷ [])
]

unfoldable pub tokenize_any_of : Bytes → Bytes → Bool → List Bytes
unfolding tokenize_loop
tokenize_any_of s delims keep = tokenize_loop delims keep s [] []

trim_parts : Bool → List Bytes → List Bytes → List Bytes
trim_parts drop_empty [] out = out
trim_parts drop_empty (t ∷ ts) out =
    let x = trim_copy t in
    trim_parts drop_empty ts (if not drop_empty || not (is_empty x) then out ++ x ∷ [] else out)

unfoldable pub split_trimmed : Bytes → ℕ → Bool → List Bytes
unfolding trim_parts
split_trimmed s d drop_empty = trim_parts drop_empty (split_char s d) []

-- A line that ends is kept unless it is empty and empty lines are dropped.
flush_line : Bool → List Bytes → Bytes → List Bytes
flush_line keep lines cur = if keep || not (is_empty cur) then lines ++ cur ∷ [] else lines

-- The round over `\r` looks at the next char, if there is one, and skips it if it is `\n`.
split_lines_loop : Bool → Bytes → List Bytes → Bytes → List Bytes
unfolding flush_line
split_lines_loop keep [] lines cur = flush_line keep lines cur
split_lines_loop keep (c ∷ []) lines cur =
    if c == 13 || c == 10
    then flush_line keep (flush_line keep lines cur) []
    else flush_line keep lines (cur ++ c ∷ [])
split_lines_loop keep (c ∷ e ∷ t) lines cur = elim (c == 13) [
  | true ↦ elim (e == 10) [
    | true ↦ split_lines_loop keep t (flush_line keep lines cur) []
    | false ↦ split_lines_loop keep (e ∷ t) (flush_line keep lines cur) []
  ]
  | false ↦ elim (c == 10) [
    | true ↦ split_lines_loop keep (e ∷ t) (flush_line keep lines cur) []
    | false ↦ split_lines_loop keep (e ∷ t) lines (cur ++ c ∷ [])
  ]
]

unfoldable pub split_lines : Bytes → Bool → List Bytes
unfolding split_lines_loop
split_lines s keep = split_lines_loop keep s [] []

-- The delimiter goes before every part but the first.
join_loop : List Bytes → Bytes → Bytes → Bytes
join_loop [] d out = out
join_loop (t ∷ ts) d out = join_loop ts d (out ++ (d ++ t))

unfoldable pub join : List Bytes → Bytes → Bytes
unfolding join_loop
join [] d = []
join (t ∷ ts) d = join_loop ts d t
