-- ===== src/StringBasic/Trim.antt =====
-- Trimming and the normal forms of white space in j2_library/src/string/string_basic.cpp.
pub mod Laws
use jaytwo_library.Prelude.{
  ℕ, Bool, true, false, ◌&&◌, ◌||◌, [], ◌∷◌, ◌++◌, reverse, Bytes, if◌then◌else◌, ◌==◌,
}
use jaytwo_library.Text.{is_space, drop_while}

unfoldable pub ltrim : Bytes → Bytes
unfolding drop_while
ltrim s = drop_while is_space s

-- The search runs over the reversed text.
unfoldable pub rtrim : Bytes → Bytes
unfolding drop_while
rtrim s = reverse (drop_while is_space (reverse s))

unfoldable pub trim : Bytes → Bytes
unfolding ltrim rtrim
trim s = rtrim (ltrim s)

unfoldable pub ltrim_copy : Bytes → Bytes
unfolding ltrim
ltrim_copy s = ltrim s

unfoldable pub rtrim_copy : Bytes → Bytes
unfolding rtrim
rtrim_copy s = rtrim s

unfoldable pub trim_copy : Bytes → Bytes
unfolding trim
trim_copy s = trim s

unfoldable pub is_blank : Bytes → Bool
is_blank [] = true
is_blank (c ∷ s) = is_space c && is_blank s

collapse_loop : Bytes → Bytes → Bool → Bytes
collapse_loop [] out in_space = out
collapse_loop (c ∷ s) out in_space = elim (is_space c) [
  | true ↦ collapse_loop s (if in_space then out else out ++ 32 ∷ []) true
  | false ↦ collapse_loop s (out ++ c ∷ []) false
]

unfoldable pub collapse_spaces : Bytes → Bytes
unfolding collapse_loop trim_copy
collapse_spaces s = trim_copy (collapse_loop s [] false)

-- The round over `\r` looks at the next char, if there is one, and skips it if it is `\n`.
unfoldable pub normalize_loop : Bytes → Bytes → Bytes → Bytes
normalize_loop nl [] tmp = tmp
normalize_loop nl (c ∷ []) tmp = if c == 13 || c == 10 then tmp ++ nl else tmp ++ c ∷ []
normalize_loop nl (c ∷ e ∷ t) tmp = elim (c == 13) [
  | true ↦ elim (e == 10) [
    | true ↦ normalize_loop nl t (tmp ++ nl)
    | false ↦ normalize_loop nl (e ∷ t) (tmp ++ nl)
  ]
  | false ↦ elim (c == 10) [
    | true ↦ normalize_loop nl (e ∷ t) (tmp ++ nl)
    | false ↦ normalize_loop nl (e ∷ t) (tmp ++ c ∷ [])
  ]
]

unfoldable pub normalize_newlines : Bytes → Bytes → Bytes
unfolding normalize_loop
normalize_newlines s nl = normalize_loop nl s []
