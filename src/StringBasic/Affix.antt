-- ===== src/StringBasic/Affix.antt =====
-- Prefixes, suffixes and search in j2_library/src/string/string_basic.cpp.
pub mod Laws
pub mod Common
use jaytwo_library.Prelude.{
  ℕ, ◌-◌, zero, suc, Bool, true, false, ◌&&◌, ◌||◌, List, [], ◌∷◌, ◌++◌, reverse, Option, none,
  some, Bytes, length, take, drop, is_empty, if◌then◌else◌, ltb, ◌==◌,
}
use jaytwo_library.Text.{equal, find}

unfoldable pub is_some : Option ℕ → Bool
is_some none = false
is_some (some i) = true

unfoldable pub contains : Bytes → Bytes → Bool
unfolding is_some
contains s token = if is_empty token then true else is_some (find s token 0)

unfoldable pub starts_with : Bytes → Bytes → Bool
starts_with s prefix = if ltb (length s) (length prefix) then false else equal prefix s

-- The comparison runs over the reversed texts.
unfoldable pub ends_with : Bytes → Bytes → Bool
ends_with s suffix =
    if ltb (length s) (length suffix) then false else equal (reverse suffix) (reverse s)

unfoldable pub starts_with_any : Bytes → List Bytes → Bool
starts_with_any s [] = false
starts_with_any s (p ∷ ps) = starts_with s p || starts_with_any s ps

unfoldable pub ends_with_any : Bytes → List Bytes → Bool
ends_with_any s [] = false
ends_with_any s (p ∷ ps) = ends_with s p || ends_with_any s ps

-- The new text, and whether the prefix was there.
unfoldable pub remove_prefix : Bytes → Bytes → Bytes × Bool
remove_prefix s prefix = if starts_with s prefix then (drop (length prefix) s, true) else (s, false)

unfoldable pub remove_suffix : Bytes → Bytes → Bytes × Bool
remove_suffix s suffix =
    if ends_with s suffix then (take (length s - length suffix) s, true) else (s, false)

unfoldable pub removed_prefix : Bytes → Bytes → Bytes
unfolding remove_prefix
removed_prefix s prefix = (remove_prefix s prefix).0

unfoldable pub removed_suffix : Bytes → Bytes → Bytes
unfolding remove_suffix
removed_suffix s suffix = (remove_suffix s suffix).0

unfoldable pub surround_if_missing : Bytes → Bytes → Bytes → Bytes
surround_if_missing s prefix suffix =
    let out = if starts_with s prefix then s else prefix ++ s in
    if ends_with out suffix then out else out ++ suffix

-- The length of the run of equal chars at the front of both.
agree : Bytes → Bytes → ℕ
agree [] s = 0
agree (c ∷ p) [] = 0
agree (c ∷ p) (d ∷ s) = elim (c == d) [ true ↦ suc (agree p s) | false ↦ 0 ]

-- The round that leaves nothing stops the loop.
prefix_loop : Bytes → List Bytes → Bytes
prefix_loop pref [] = pref
prefix_loop pref (s ∷ items) =
    let cut = take (agree pref s) pref in
    elim (is_empty cut) [ true ↦ cut | false ↦ prefix_loop cut items ]

unfoldable pub common_prefix : List Bytes → Bytes
unfolding prefix_loop agree
common_prefix [] = []
common_prefix (s ∷ items) = prefix_loop s items

-- From the back: the run of equal chars is counted over the reversed texts, and the front erased.
suffix_loop : Bytes → List Bytes → Bytes
suffix_loop suff [] = suff
suffix_loop suff (s ∷ items) =
    let cut = drop (length suff - agree (reverse suff) (reverse s)) suff in
    elim (is_empty cut) [ true ↦ cut | false ↦ suffix_loop cut items ]

unfoldable pub common_suffix : List Bytes → Bytes
unfolding suffix_loop agree
common_suffix [] = []
common_suffix (s ∷ items) = suffix_loop s items
