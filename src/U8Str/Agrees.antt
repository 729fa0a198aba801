-- ===== src/U8Str/Agrees.antt =====
-- The byte-wise operations of `u8str` beside those of string_basic.cpp.
use jaytwo_library.Prelude.{
  ℕ, ◌+◌, ◌-◌, ◌≤◌, zero, suc, Bool, true, false, not, ◌&&◌, ◌||◌, List, [], ◌∷◌, ◌++◌, none, some,
  Bytes, length, drop, reverse, is_empty, if◌then◌else◌, ltb, leb, ◌≡◌, ◌≢◌, refl, sym, ap, ap₂,
  ◌∙◌, arith, inl, inr, Bool-cases, Option-cases, length-drop, length-take,
}
use jaytwo_library.Text.{find, find_first, is_space, drop_while, substr, offset}
use jaytwo_library.Text.Find.{find_first_bound}
use jaytwo_library.StringBasic.Affix
use jaytwo_library.StringBasic.Split
use jaytwo_library.StringBasic.Replace
use jaytwo_library.StringBasic.Trim
use jaytwo_library.U8Str.{
  contains, is_ascii_space, ltrim, rtrim, trim, split_loop, split, replace_all_loop, replace_all,
  splice,
}

space_same : (c : ℕ) → is_ascii_space c ≡ is_space c
unfolding is_ascii_space is_space
space_same c = ground arith

drop_while_same : (s : Bytes) → drop_while is_ascii_space s ≡ drop_while is_space s
unfolding drop_while
drop_while_same [] = refl
drop_while_same (c ∷ s) = ap₂ (λ b t. if b then t else c ∷ s) (space_same c) (drop_while_same s)

trim_same : (s : Bytes) → trim s ≡ Trim.trim s
unfolding trim ltrim rtrim Trim.trim Trim.ltrim Trim.rtrim
trim_same s = ap reverse (
    drop_while_same (reverse (drop_while is_ascii_space s))
    ∙ ap (λ t. drop_while is_space (reverse t)) (drop_while_same s))

contains_same : (s needle : Bytes) → contains s needle ≡ Affix.contains s needle
unfolding contains Affix.contains Affix.is_some
contains_same s needle = elim (Option-cases (find s needle 0)) [
  | inl e ↦ rw e refl
  | inr (i, e) ↦ rw e refl
]

is_empty-drop : (pos : ℕ) (s : Bytes) → not (is_empty (drop pos s)) ≡ ltb pos (length s)
is_empty-drop zero [] = refl
is_empty-drop zero (c ∷ s) = ground arith
is_empty-drop (suc pos) [] = ground arith
is_empty-drop (suc pos) (c ∷ s) = ground (arith, is_empty-drop pos s)

is_empty-length : (s : Bytes) (n : ℕ) → length s ≡ n → not (is_empty s) ≡ ltb 0 n
is_empty-length [] n e = ground (arith, e)
is_empty-length (c ∷ s) n e = ground (arith, e)

none-not-some : {i : ℕ} → none ≢ some i
none-not-some e = cc

some-same : {i j : ℕ} → some i ≡ some j → i ≡ j
some-same e = ap (λ o. elim o [ some k ↦ k | none ↦ 0 ]) e

find_range : (s tok : Bytes) (pos i : ℕ) → find s tok pos ≡ some i → (pos ≤ i) × (i ≤ length s)
unfolding find
find_range s tok pos i h = elim (Bool-cases (leb pos (length s))) [
  | inr e ↦ absurd (
      none-not-some
        (sym (ap (λ b. if b then offset pos (find_first tok (drop pos s)) else none) e) ∙ h))
  | inl e ↦ elim (Option-cases (find_first tok (drop pos s))) [
    | inl f ↦ absurd (
        none-not-some (
          sym (
            ap (λ b. if b then offset pos (find_first tok (drop pos s)) else none) e
            ∙ ap (offset pos) f)
          ∙ h))
    | inr (k, f) ↦
        let at : pos + k ≡ i = some-same (
          sym (
            ap (λ b. if b then offset pos (find_first tok (drop pos s)) else none) e
            ∙ ap (offset pos) f)
          ∙ h) in
        let inside = find_first_bound tok (drop pos s) k f in
        (omega (arith, at), ground (arith, at, inside, length-drop pos s, e))
  ]
]

part_empty :
    (s : Bytes) (pos i : ℕ)
    → pos ≤ i
    → i ≤ length s
    → not (is_empty (substr s pos (i - pos))) ≡ ltb pos i
part_empty s pos i lo hi =
    is_empty-length (substr s pos (i - pos)) (i - pos)
      (omega (arith, length-take (i - pos) (drop pos s), length-drop pos s, lo, hi))
    ∙ ground arith

keep_same :
    (filled skip : Bool) (parts : List Bytes) (p : Bytes)
    → (if filled || not skip then parts ++ p ∷ [] else parts) ≡ (
        if not skip || filled
        then parts ++ p ∷ []
        else if not skip
        then parts ++ [] ∷ []
        else parts)
keep_same true true parts p = refl
keep_same true false parts p = refl
keep_same false true parts p = refl
keep_same false false parts p = refl

last_same :
    (filled skip none_there : Bool) (parts : List Bytes) (p : Bytes)
    → (if filled || not skip then parts ++ p ∷ [] else parts) ≡ (
        if not skip || filled
        then parts ++ p ∷ []
        else if not skip && none_there
        then parts ++ [] ∷ []
        else parts)
last_same true true none_there parts p = refl
last_same true false none_there parts p = refl
last_same false true none_there parts p = refl
last_same false false none_there parts p = refl

split_last :
    (fuel : ℕ) (s d : Bytes) (skip : Bool) (pos : ℕ) (parts : List Bytes)
    → find s d pos ≡ none
    → split_loop (suc fuel) s d skip pos parts
      ≡ Split.split_loop (suc fuel) s d (not skip) pos parts
unfolding split_loop Split.split_loop
split_last fuel s d skip pos parts e =
    rw (e, split_loop, Split.split_loop, is_empty-drop pos s)
      (last_same (ltb pos (length s)) skip (is_empty s) parts (drop pos s))

split_next :
    (fuel : ℕ) (s d : Bytes) (skip : Bool) (pos : ℕ) (parts : List Bytes) (i : ℕ)
    → find s d pos ≡ some i
    → split_loop (suc fuel) s d skip pos parts
      ≡ split_loop fuel s d skip (i + length d) (
          if not skip || ltb pos i
          then parts ++ substr s pos (i - pos) ∷ []
          else if not skip
          then parts ++ [] ∷ []
          else parts)
unfolding split_loop
split_next fuel s d skip pos parts i e =
    let (lo, hi) = find_range s d pos i e in
    rw (e, split_loop)
      (ap (split_loop fuel s d skip (i + length d)) (
        ap (λ b. if b || not skip then parts ++ substr s pos (i - pos) ∷ [] else parts)
          (part_empty s pos i lo hi)
        ∙ keep_same (ltb pos i) skip parts (substr s pos (i - pos))))

split_there :
    (fuel : ℕ) (s d : Bytes) (skip : Bool) (pos : ℕ) (parts : List Bytes) (i : ℕ)
    → find s d pos ≡ some i
    → Split.split_loop fuel s d (not skip) (i + length d) (
        if not skip || ltb pos i
        then parts ++ substr s pos (i - pos) ∷ []
        else if not skip
        then parts ++ [] ∷ []
        else parts)
      ≡ Split.split_loop (suc fuel) s d (not skip) pos parts
unfolding Split.split_loop
split_there fuel s d skip pos parts i e = rw (e, Split.split_loop) refl

split_loop_same :
    (fuel : ℕ) (s d : Bytes) (skip : Bool) (pos : ℕ) (parts : List Bytes)
    → split_loop fuel s d skip pos parts ≡ Split.split_loop fuel s d (not skip) pos parts
split_loop_same zero s d skip pos parts = unfold split_loop Split.split_loop in refl
split_loop_same (suc fuel) s d skip pos parts = elim (Option-cases (find s d pos)) [
  | inl e ↦ split_last fuel s d skip pos parts e
  | inr (i, e) ↦
      split_next fuel s d skip pos parts i e
      ∙ split_loop_same fuel s d skip (i + length d) (
          if not skip || ltb pos i
          then parts ++ substr s pos (i - pos) ∷ []
          else if not skip
          then parts ++ [] ∷ []
          else parts)
      ∙ split_there fuel s d skip pos parts i e
]

replace_loop_same :
    (fuel : ℕ) (s : Bytes) (pos : ℕ) (from to : Bytes)
    → replace_all_loop fuel s pos from to ≡ Replace.replace_loop fuel s pos from to
unfolding replace_all_loop Replace.replace_loop
replace_loop_same zero s pos from to = refl
replace_loop_same (suc fuel) s pos from to = elim (Option-cases (find s from pos)) [
  | inl e ↦ rw (e, replace_all_loop, Replace.replace_loop) refl
  | inr (i, e) ↦
      rw (e, replace_all_loop, Replace.replace_loop)
        (replace_loop_same fuel (splice s i (length from) to) (i + length to) from to)
]

-- On every text, `contains`, `trim`, `replace_all` and, by a delimiter that is not empty, `split` of
-- `u8str` do as `contains`, `trim`, `replace` and `split` of string_basic.cpp do; `skip_empty` is the
-- opposite of `keep_empty`.
pub byte_wise_agree :
    (s t to : Bytes) (c : ℕ) (d : Bytes) (skip : Bool)
    → (contains s t ≡ Affix.contains s t)
      × (trim s ≡ Trim.trim s)
      × (replace_all s t to ≡ Replace.replace s t to)
      × (split s (c ∷ d) skip ≡ Split.split s (c ∷ d) (not skip))
unfolding replace_all Replace.replace split Split.split
byte_wise_agree s t to c d skip = (
  contains_same s t,
  trim_same s,
  ap (λ r. if is_empty t then s else r) (replace_loop_same (suc (length s)) s 0 t to),
  split_loop_same (suc (length s)) s (c ∷ d) skip 0 [],
)
