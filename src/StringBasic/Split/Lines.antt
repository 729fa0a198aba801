-- ===== src/StringBasic/Split/Lines.antt =====
-- Lines and newlines: `split_lines` against `normalize_newlines`, and `split` over one char.
use mathlib.Core.List.{concat-ne-nil}
use jaytwo_library.Prelude.{
  ℕ, true, List, [], ◌∷◌, ◌++◌, ◌≡◌, refl, ap, ◌∙◌, arith, inl, inr, Bytes, ◌==◌, append_assoc,
  append-nil, Bool-cases, if◌then◌else◌,
}
use jaytwo_library.Text.Pieces.{glue, glue-cons}
use jaytwo_library.StringBasic.Trim.{normalize_loop, normalize_newlines}
use jaytwo_library.StringBasic.Split.{
  split_char_loop, split_char, split_lines_loop, split_lines, flush_line, join,
}
use jaytwo_library.StringBasic.Split.Laws.{join-glue}

-- Every line with the newline behind it.
pub ended : List Bytes → Bytes → Bytes
ended [] nl = []
ended (l ∷ ls) nl = l ++ (nl ++ ended ls nl)

ended-append : (ls ms : List Bytes) (nl : Bytes) → ended (ls ++ ms) nl ≡ ended ls nl ++ ended ms nl
unfolding ended
ended-append [] ms nl = refl
ended-append (l ∷ ls) ms nl = simp (ended-append ls ms nl, append_assoc)

glue-snoc : (ls : List Bytes) (x nl : Bytes) → glue (ls ++ x ∷ []) nl ≡ ended ls nl ++ x
unfolding ended
glue-snoc [] x nl = unfold glue in append-nil x
glue-snoc (l ∷ ls) x nl =
    glue-cons l (ls ++ x ∷ []) nl (concat-ne-nil x ls) ∙ simp (glue-snoc ls x nl, append_assoc)

ended_flush :
    (lines : List Bytes) (cur nl : Bytes)
    → ended (flush_line true lines cur) nl ++ [] ≡ (ended lines nl ++ cur) ++ nl
unfolding ended flush_line
ended_flush lines cur nl = rw (ended-append lines (cur ∷ []) nl) (simp (append_assoc, append-nil))

-- The texts that the two loops have made so far agree.
lines-normalize :
    (s nl : Bytes) (lines : List Bytes) (cur : Bytes)
    → glue (split_lines_loop true s lines cur) nl ≡ normalize_loop nl s (ended lines nl ++ cur)
unfolding split_lines_loop normalize_loop
lines-normalize [] nl lines cur = glue-snoc lines cur nl
lines-normalize (c ∷ []) nl lines cur = ground (
  arith,
  glue-snoc lines (cur ++ c ∷ []) nl,
  glue-snoc (flush_line true lines cur) [] nl,
  ended_flush lines cur nl,
  append_assoc (ended lines nl) cur (c ∷ []),
)
lines-normalize (c ∷ e ∷ t) nl lines cur = ground (
  arith,
  lines-normalize t nl (flush_line true lines cur) [],
  lines-normalize (e ∷ t) nl (flush_line true lines cur) [],
  lines-normalize (e ∷ t) nl lines (cur ++ c ∷ []),
  ended_flush lines cur nl,
  append_assoc (ended lines nl) cur (c ∷ []),
)

-- Joining the lines of a text, empty ones kept, with a newline of one's choice is normalising its
-- newlines to it.
pub join-split_lines : (s nl : Bytes) → join (split_lines s true) nl ≡ normalize_newlines s nl
unfolding split_lines normalize_newlines ended
join-split_lines s nl = join-glue (split_lines s true) nl ∙ lines-normalize s nl [] []

-- The text with a delimiter at its end: the text itself if it is empty or has one there.
abbrev pub seal : ℕ → Bytes → Bytes
seal d [] = []
seal d (c ∷ []) = if c == d then c ∷ [] else c ∷ d ∷ []
seal d (c ∷ e ∷ t) = c ∷ seal d (e ∷ t)

item_left :
    (d c : ℕ) (item : Bytes)
    → ended (split_char_loop d [] (item ++ c ∷ [])) (d ∷ []) ≡ item ++ c ∷ d ∷ []
unfolding split_char_loop ended
item_left d c [] = refl
item_left d c (x ∷ item) = simp append_assoc

char_loop-seal :
    (d c : ℕ) (s item : Bytes)
    → ended (split_char_loop d (c ∷ s) item) (d ∷ []) ≡ item ++ seal d (c ∷ s)
unfolding split_char_loop ended
char_loop-seal d c [] item = elim (Bool-cases (c == d)) [
  | inl e ↦ let same : c ≡ d = ground arith in rw (e, split_char_loop, same)
  | inr e ↦ rw (e, split_char_loop) (unfold ended split_char_loop in item_left d c item)
]
char_loop-seal d c (x ∷ s) item = elim (Bool-cases (c == d)) [
  | inl e ↦
      let same : c ≡ d = ground arith in
      rw (e, split_char_loop, same) (ap (λ t. item ++ d ∷ t) (char_loop-seal d x s []))
  | inr e ↦
      rw (e, split_char_loop) (char_loop-seal d x s (item ++ c ∷ []) ∙ append_assoc item (c ∷ []) _)
]

-- The parts of a split at one char, each with the delimiter put behind it, spell the text, with a
-- delimiter at its end if it is not empty and lacks one: `std::getline` drops only an empty part,
-- and only after the last delimiter.
pub ended-split_char : (s : Bytes) (d : ℕ) → ended (split_char s d) (d ∷ []) ≡ seal d s
unfolding split_char
ended-split_char [] d = unfold split_char_loop ended in refl
ended-split_char (c ∷ s) d = char_loop-seal d c s []
