-- ===== src/StringBasic/Split/Laws.antt =====
-- What the splitting and joining functions of string_basic.cpp promise of one another.
use native.Mathlib.Nat.{add_assoc}
use jaytwo_library.Prelude.{
  ℕ, ◌+◌, ◌-◌, ◌≤◌, ◌<◌, zero, suc, Bool, true, false, not, ◌&&◌, ◌||◌, List, [], ◌∷◌, ◌++◌, none,
  some, ◌≡◌, refl, sym, ap, ◌∙◌, arith, inl, inr, Bytes, length, take, drop, is_empty,
  if◌then◌else◌, ltb, append_assoc, append-nil, drop-drop, length-drop, length-take, Option-cases,
  All, subst,
}
use jaytwo_library.Text.{find_first, find, offset}
use jaytwo_library.Text.Find.{find_first_bound}
use jaytwo_library.Text.Pieces.{pieces, glue, pieces_found, pieces-none, pieces_free, glue-pieces}
use jaytwo_library.StringBasic.Replace.{replace, replace-pieces}
use jaytwo_library.StringBasic.Split.{singletons, split_loop, split, join_loop, join}

-- The parts that are kept: all of them, or those that are not empty.
abbrev pub kept : Bool → List Bytes → List Bytes
kept keep [] = []
kept keep (p ∷ ps) = if keep || not (is_empty p) then p ∷ kept keep ps else kept keep ps

kept-cons :
    (keep : Bool) (p : Bytes) (ps : List Bytes)
    → kept keep (p ∷ []) ++ kept keep ps ≡ kept keep (p ∷ ps)
kept-cons keep p ps = ground arith

find_in-drop :
    (s d : Bytes) (pos : ℕ) → pos ≤ length s → find s d pos ≡ offset pos (find_first d (drop pos s))
unfolding find
find_in-drop s d pos h = ground arith

-- The two tests of a round agree with the test that the part is not empty.
push_part :
    (keep : Bool) (parts : List Bytes) (pos idx : ℕ) (part : Bytes)
    → idx ≡ pos + length part
    → (if keep || ltb pos idx then parts ++ part ∷ [] else if keep then parts ++ [] ∷ [] else parts)
      ≡ parts ++ kept keep (part ∷ [])
push_part keep parts pos idx [] e = ground (arith, append-nil parts)
push_part keep parts pos idx (c ∷ part) e = ground arith

push_last :
    (keep empty : Bool) (parts : List Bytes) (pos size : ℕ) (part : Bytes)
    → size ≡ pos + length part
    → (if keep || ltb pos size
        then parts ++ part ∷ []
        else if keep && empty
        then parts ++ [] ∷ []
        else parts)
      ≡ parts ++ kept keep (part ∷ [])
push_last keep empty parts pos size [] e = ground (arith, append-nil parts)
push_last keep empty parts pos size (c ∷ part) e = ground arith

length_part : (s : Bytes) (pos i : ℕ) → pos + i ≤ length s → length (take i (drop pos s)) ≡ i
length_part s pos i h = omega (arith, length-take i (drop pos s), length-drop pos s)

split_loop_found :
    (fuel : ℕ) (s d : Bytes) (keep : Bool) (pos : ℕ) (parts : List Bytes) (i : ℕ)
    → pos + i + length d ≤ length s
    → find s d pos ≡ some (pos + i)
    → split_loop (suc fuel) s d keep pos parts
      ≡ split_loop fuel s d keep
          (pos + i + length d)
          (parts ++ kept keep (take i (drop pos s) ∷ []))
unfolding split_loop
split_loop_found fuel s d keep pos parts i fits h =
    let width : pos + i - pos ≡ i = omega arith in
    let part = take i (drop pos s) in
    rw (h, split_loop, width)
      (ap (split_loop fuel s d keep (pos + i + length d))
        (push_part keep parts pos (pos + i) part (omega (arith, length_part s pos i))))

split_loop-none :
    (fuel : ℕ) (s d : Bytes) (keep : Bool) (pos : ℕ) (parts : List Bytes)
    → pos ≤ length s
    → find s d pos ≡ none
    → split_loop (suc fuel) s d keep pos parts ≡ parts ++ kept keep (drop pos s ∷ [])
unfolding split_loop
split_loop-none fuel s d keep pos parts fits h =
    rw (h, split_loop)
      (push_last keep (is_empty s) parts pos (length s) (drop pos s)
        (omega (arith, length-drop pos s)))

-- From `pos` on, the loop appends the parts of what is left.
split_loop-pieces :
    (fuel : ℕ) (s d : Bytes) (keep : Bool) (pos : ℕ) (parts : List Bytes)
    → pos ≤ length s
    → length (drop pos s) < fuel
    → 0 < length d
    → split_loop fuel s d keep pos parts ≡ parts ++ kept keep (pieces fuel d (drop pos s))
split_loop-pieces zero s d keep pos parts h short pos_d = absurd (omega arith)
split_loop-pieces (suc fuel) s d keep pos parts h short pos_d =
    elim (Option-cases (find_first d (drop pos s))) [
      | inl e ↦
          split_loop-none fuel s d keep pos parts h (find_in-drop s d pos h ∙ ap (offset pos) e)
          ∙ ap (λ ps. parts ++ kept keep ps) (sym (pieces-none fuel d (drop pos s) e))
      | inr (i, e) ↦
          let rest = drop pos s in
          let fits : pos + (i + length d) ≤ length s =
            omega (arith, find_first_bound d rest i e, length-drop pos s) in
          split_loop_found fuel s d keep pos parts i (omega arith)
            (find_in-drop s d pos h ∙ ap (offset pos) e)
          ∙ split_loop-pieces fuel s d keep (pos + i + length d) _ (omega arith)
              (omega (arith, length-drop pos s, length-drop (pos + i + length d) s)) pos_d
          ∙ rw (
            add_assoc pos i (length d),
            ← drop-drop (i + length d) pos s,
            append_assoc,
            kept-cons,
            pieces_found fuel d rest i e,
          )
    ]

join_loop-glue : (ts : List Bytes) (d out : Bytes) → join_loop ts d out ≡ glue (out ∷ ts) d
unfolding join_loop glue
join_loop-glue [] d out = sym (append-nil out)
join_loop-glue (t ∷ ts) d out = join_loop-glue ts d (out ++ (d ++ t)) ∙ simp append_assoc

pub join-glue : (ts : List Bytes) (d : Bytes) → join ts d ≡ glue ts d
unfolding join
join-glue [] d = unfold glue in refl
join-glue (t ∷ ts) d = join_loop-glue ts d t

kept_all : (ps : List Bytes) → kept true ps ≡ ps
kept_all [] = refl
kept_all (p ∷ ps) = ap (◌∷◌ p) (kept_all ps)

-- With a delimiter to look for, `split` returns the parts between its occurrences: all of them, or
-- those that are not empty.
pub split-pieces :
    (s : Bytes) (c : ℕ) (d : Bytes) (keep : Bool)
    → split s (c ∷ d) keep ≡ kept keep (pieces (suc (length s)) (c ∷ d) s)
unfolding split
split-pieces s c d keep =
    split_loop-pieces (suc (length s)) s (c ∷ d) keep 0 [] (omega arith) (omega arith) (omega arith)

glue-singletons : (s : Bytes) → glue (singletons s) [] ≡ s
unfolding glue singletons
glue-singletons [] = refl
glue-singletons (c ∷ []) = refl
glue-singletons (c ∷ e ∷ s) = ap (◌∷◌ c) (glue-singletons (e ∷ s))

-- Joining what a split keeps in full gives the text back, for every text and every delimiter, the
-- empty one included.
pub join-split : (s d : Bytes) → join (split s d true) d ≡ s
join-split s [] = join-glue (split s [] true) [] ∙ unfold split in glue-singletons s
join-split s (c ∷ d) =
    join-glue (split s (c ∷ d) true) (c ∷ d)
    ∙ ap (λ ps. glue ps (c ∷ d)) (split-pieces s c d true ∙ kept_all _)
    ∙ glue-pieces (suc (length s)) (c ∷ d) s

-- No part of a split by a delimiter that is not empty holds the delimiter, where empty parts are
-- kept.
pub split_free :
    (s : Bytes) (c : ℕ) (d : Bytes) → All (λ p. find_first (c ∷ d) p ≡ none) (split s (c ∷ d) true)
split_free s c d =
    subst (All (λ p. find_first (c ∷ d) p ≡ none)) (sym (split-pieces s c d true ∙ kept_all _))
      (pieces_free (suc (length s)) c d s (omega arith))

-- Without `keep_empty`, `split` returns the parts of the full split that are not empty.
pub split_nonempty :
    (s : Bytes) (c : ℕ) (d : Bytes) → split s (c ∷ d) false ≡ kept false (split s (c ∷ d) true)
split_nonempty s c d =
    split-pieces s c d false ∙ ap (kept false) (sym (split-pieces s c d true ∙ kept_all _))

-- Replacing every occurrence of a token that is not empty is splitting at it, with empty parts
-- kept, and joining with the other text.
pub replace-split :
    (s : Bytes) (c : ℕ) (d with : Bytes) → replace s (c ∷ d) with ≡ join (split s (c ∷ d) true) with
replace-split s c d with =
    replace-pieces s c d with
    ∙ ap (λ ps. glue ps with) (sym (split-pieces s c d true ∙ kept_all _))
    ∙ sym (join-glue (split s (c ∷ d) true) with)
