-- ===== src/StringBasic/Replace.antt =====
-- The replacing functions of j2_library/src/string/string_basic.cpp.
use jaytwo_library.Prelude.{
  ℕ, ◌+◌, zero, suc, List, [], ◌∷◌, ◌++◌, none, some, ◌≡◌, refl, ap, ◌∙◌, arith, Bytes, length,
  take, drop, is_empty, if◌then◌else◌, append_assoc, inl, inr, append-nil, take-append_add,
  drop-append_add, length-take, length-append, drop-append_left, Option-cases,
}
use native.Mathlib.Nat.{add_assoc}
use jaytwo_library.Text.Find.{find_first_bound}
use jaytwo_library.Text.{find_first, find, rfind, offset}
use jaytwo_library.Text.Pieces.{
  pieces, glue, glue-cons, pieces-ne-nil, pieces_found, pieces-none, glue-pieces,
}

-- `s.replace(pos, count, with)`.
abbrev pub splice : Bytes → ℕ → ℕ → Bytes → Bytes
splice s pos count with = take pos s ++ (with ++ drop (pos + count) s)

-- The loop of `replace`: the text so far and the position to search from.
unfoldable pub replace_loop : ℕ → Bytes → ℕ → Bytes → Bytes → Bytes
replace_loop zero ret pos tok with = ret
replace_loop (suc fuel) ret pos tok with = elim (find ret tok pos) [
  | none ↦ ret
  | some at ↦ replace_loop fuel (splice ret at (length tok) with) (at + length with) tok with
]

-- Each round leaves less to search, so the length of the text bounds the rounds.
unfoldable pub replace : Bytes → Bytes → Bytes → Bytes
unfolding replace_loop
replace text tok with =
    if is_empty tok then text else replace_loop (suc (length text)) text 0 tok with

unfoldable pub replace_all_inplace : Bytes → Bytes → Bytes → Bytes
unfolding replace_loop
replace_all_inplace text tok with =
    if is_empty tok then text else replace_loop (suc (length text)) text 0 tok with

unfoldable pub replace_first : Bytes → Bytes → Bytes → Bytes
replace_first text tok with =
    if is_empty tok
    then text
    else elim (find text tok 0) [ none ↦ text | some at ↦ splice text at (length tok) with ]

unfoldable pub replace_last : Bytes → Bytes → Bytes → Bytes
replace_last text tok with =
    if is_empty tok
    then text
    else elim (rfind tok text) [ none ↦ text | some at ↦ splice text at (length tok) with ]

-- The pairs are replaced one after the other, in their order.
unfoldable pub replace_all_map : Bytes → List (Bytes × Bytes) → Bytes
replace_all_map text [] = text
replace_all_map text ((tok, with) ∷ rest) = replace_all_map (replace_all_inplace text tok with) rest

find-append :
    (a rest tok : Bytes) → find (a ++ rest) tok (length a) ≡ offset (length a) (find_first tok rest)
unfolding find
find-append a rest tok = rw (drop-append_left a rest) (ground (arith, length-append a rest))

replace_loop_found :
    (fuel : ℕ) (ret : Bytes) (pos : ℕ) (tok with : Bytes) (at : ℕ)
    → find ret tok pos ≡ some at
    → replace_loop (suc fuel) ret pos tok with
      ≡ replace_loop fuel (splice ret at (length tok) with) (at + length with) tok with
unfolding replace_loop
replace_loop_found fuel ret pos tok with at h = rw (h, replace_loop)

replace_loop-none :
    (fuel : ℕ) (ret : Bytes) (pos : ℕ) (tok with : Bytes)
    → find ret tok pos ≡ none
    → replace_loop (suc fuel) ret pos tok with ≡ ret
unfolding replace_loop
replace_loop-none fuel ret pos tok with h = rw (h, replace_loop)

splice-append :
    (a rest with : Bytes) (i n : ℕ)
    → splice (a ++ rest) (length a + i) n with ≡ (a ++ (take i rest ++ with)) ++ drop (i + n) rest
splice-append a rest with i n =
    rw (take-append_add a i rest, add_assoc (length a) i n, drop-append_add a (i + n) rest)
      (simp append_assoc)

-- Behind a finished part `a`, the loop rewrites the parts of the rest.
replace_loop-pieces :
    (fuel : ℕ) (a rest tok with : Bytes)
    → replace_loop fuel (a ++ rest) (length a) tok with ≡ a ++ glue (pieces fuel tok rest) with
replace_loop-pieces zero a rest tok with = unfold replace_loop pieces glue in rw append-nil
replace_loop-pieces (suc fuel) a rest tok with = elim (Option-cases (find_first tok rest)) [
  | inl e ↦
      replace_loop-none fuel _ _ tok with (find-append a rest tok ∙ ap (offset (length a)) e)
      ∙ rw (pieces-none fuel tok rest e) (unfold glue in rw append-nil)
  | inr (i, e) ↦
      let done = a ++ (take i rest ++ with) in
      let at : length a + i + length with ≡ length done = omega (
        arith,
        length-append a (take i rest ++ with),
        length-append (take i rest) with,
        length-take i rest,
        find_first_bound tok rest i e,
      ) in
      rw
        (
          replace_loop_found fuel _ _ tok with (length a + i)
              (find-append a rest tok ∙ ap (offset (length a)) e),
          splice-append a rest with i (length tok),
          at,
          replace_loop-pieces fuel done (drop (i + length tok) rest) tok with,
          pieces_found fuel tok rest i e,
          glue-cons (take i rest) (pieces fuel tok (drop (i + length tok) rest)) with
              (pieces-ne-nil fuel tok _),
        )
        (simp append_assoc)
]

-- With a token that is not empty, `replace` cuts the text at the leftmost occurrences of it that
-- do not overlap and puts the other text between the pieces.
pub replace-pieces :
    (text : Bytes) (c : ℕ) (tok with : Bytes)
    → replace text (c ∷ tok) with ≡ glue (pieces (suc (length text)) (c ∷ tok) text) with
unfolding replace
replace-pieces text c tok with = replace_loop-pieces (suc (length text)) [] text (c ∷ tok) with

-- Replacing a text by itself changes nothing.
pub replace_same : (text tok : Bytes) → replace text tok tok ≡ text
replace_same text [] = unfold replace in refl
replace_same text (c ∷ tok) =
    replace-pieces text c tok (c ∷ tok) ∙ glue-pieces (suc (length text)) (c ∷ tok) text
