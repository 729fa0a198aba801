-- ===== src/Text/Pieces.antt =====
-- The cut of a text at every occurrence of a delimiter: what the loops over `find` are compared to.
use jaytwo_library.Prelude.{
  ℕ, ◌+◌, ◌<◌, zero, suc, List, [], ◌∷◌, ◌++◌, none, some, ◌≡◌, ◌≢◌, refl, sym, arith, Bytes,
  length, take, drop, append-nil, length-drop, All, inl, inr, Option-cases,
}
use jaytwo_library.Text.{find_first}
use jaytwo_library.Text.Find.{find_first_sound, find_first_bound, find_first-take}

-- The parts of `rest` between the occurrences of `d`, at most `fuel` of them cut off.
unfoldable pub pieces : ℕ → Bytes → Bytes → List Bytes
pieces zero d rest = rest ∷ []
pieces (suc fuel) d rest = elim (find_first d rest) [
  | none ↦ rest ∷ []
  | some i ↦ take i rest ∷ pieces fuel d (drop (i + length d) rest)
]

-- The parts with `d` between them.
unfoldable pub glue : List Bytes → Bytes → Bytes
glue [] d = []
glue (p ∷ ps) d = p ++ elim ps [ [] ↦ [] | q ∷ qs ↦ d ++ glue ps d ]

pub glue-cons :
    (p : Bytes) (ps : List Bytes) (d : Bytes) → ps ≢ [] → glue (p ∷ ps) d ≡ p ++ (d ++ glue ps d)
unfolding glue
glue-cons p [] d h = absurd (h refl)
glue-cons p (q ∷ qs) d h = refl

pub pieces-ne-nil : (fuel : ℕ) (d rest : Bytes) → pieces fuel d rest ≢ []
unfolding pieces
pieces-ne-nil zero d rest h = cc
pieces-ne-nil (suc fuel) d rest h = ground arith

pub pieces_found :
    (fuel : ℕ) (d rest : Bytes) (i : ℕ)
    → find_first d rest ≡ some i
    → pieces (suc fuel) d rest ≡ take i rest ∷ pieces fuel d (drop (i + length d) rest)
unfolding pieces
pieces_found fuel d rest i h = rw (h, pieces)

pub pieces-none :
    (fuel : ℕ) (d rest : Bytes) → find_first d rest ≡ none → pieces (suc fuel) d rest ≡ rest ∷ []
unfolding pieces
pieces-none fuel d rest h = rw (h, pieces)

pub glue-pieces : (fuel : ℕ) (d rest : Bytes) → glue (pieces fuel d rest) d ≡ rest
glue-pieces zero d rest = unfold pieces glue in append-nil rest
glue-pieces (suc fuel) d rest = elim (Option-cases (find_first d rest)) [
  | inl e ↦ rw (pieces-none fuel d rest e) (unfold glue in append-nil rest)
  | inr (i, e) ↦
      rw
        (
          pieces_found fuel d rest i e,
          glue-cons _ _ d (pieces-ne-nil fuel d _),
          glue-pieces fuel d _,
        )
        (sym (find_first_sound d rest i e))
]

-- With fuel above the length, no part holds the delimiter: every occurrence has been cut.
pub pieces_free :
    (fuel c : ℕ) (d rest : Bytes)
    → length rest < fuel
    → All (λ p. find_first (c ∷ d) p ≡ none) (pieces fuel (c ∷ d) rest)
pieces_free zero c d rest h = absurd (omega arith)
pieces_free (suc fuel) c d rest h = elim (Option-cases (find_first (c ∷ d) rest)) [
  | inl e ↦ rw (pieces-none fuel (c ∷ d) rest e) (e, tt)
  | inr (i, e) ↦ rw (pieces_found fuel (c ∷ d) rest i e) (
    find_first-take c d rest i e,
    pieces_free fuel c d _
        (omega (arith, length-drop (i + length (c ∷ d)) rest, find_first_bound (c ∷ d) rest i e)),
  )
]

-- More fuel than the length changes nothing.
pub pieces_fuel :
    (f g c : ℕ) (d rest : Bytes)
    → length rest < f
    → length rest < g
    → pieces f (c ∷ d) rest ≡ pieces g (c ∷ d) rest
pieces_fuel zero g c d rest h k = absurd (omega arith)
pieces_fuel (suc f) zero c d rest h k = absurd (omega arith)
pieces_fuel (suc f) (suc g) c d rest h k = elim (Option-cases (find_first (c ∷ d) rest)) [
  | inl e ↦ rw (pieces-none f (c ∷ d) rest e, pieces-none g (c ∷ d) rest e)
  | inr (i, e) ↦
      let short = length-drop (i + length (c ∷ d)) rest in
      let fits = find_first_bound (c ∷ d) rest i e in
      rw (
        pieces_found f (c ∷ d) rest i e,
        pieces_found g (c ∷ d) rest i e,
        pieces_fuel f g c d (drop (i + length (c ∷ d)) rest) (omega (arith, short, fits))
            (omega (arith, short, fits)),
      )
]
