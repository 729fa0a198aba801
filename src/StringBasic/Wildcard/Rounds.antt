-- ===== src/StringBasic/Wildcard/Rounds.antt =====
-- One round of the wildcard loop against the meaning of a pattern, on a text with no `*`.
use jaytwo_library.Prelude.{
  ℕ, ◌≤◌, true, [], ◌∷◌, ◌++◌, ◌≡◌, ◌≢◌, ◌↔◌, ◌⊎◌, inl, inr, refl, sym, ap, ◌∙◌, arith, none, some,
  Bytes, length, ◌==◌, ==_iff, Bool-cases, All, append_assoc, subst, length-append,
}
use jaytwo_library.StringBasic.Wildcard.{Anchor, Outcome, done, more, all_stars, retry, asterisk}
use jaytwo_library.StringBasic.Wildcard.Spec.{
  Fits, Matches, Run, Run-snoc, Matches-Run, cut_between, Matches-star,
}

abbrev pub Plain : Bytes → Type 0
Plain = All (λ c. c ≢ asterisk)

-- The pattern behind the anchor fits the text somewhere past the anchor.
abbrev pub Later : Anchor → Type 0
Later none = ⊥
Later (some (sp, st)) = (c : ℕ) × (a : Bytes) × (b : Bytes) × (st ≡ c ∷ (a ++ b)) × Matches sp b

-- What is left to decide.
abbrev pub Answer : Bytes → Bytes → Anchor → Type 0
Answer text pat star = Matches pat text ⊎ Later star

-- Between the anchor and here lies a run that has been compared.
abbrev pub Anchored : Bytes → Bytes → Anchor → Type 0
Anchored text pat none = Unit
Anchored text pat (some (sp, st)) =
    (seg : Bytes) × (x : Bytes) × (sp ≡ seg ++ pat) × (st ≡ x ++ text) × Run seg x × Plain st

pub all_stars_iff : (pat : Bytes) → (all_stars pat ≡ true) ↔ Matches pat []
unfolding all_stars
all_stars_iff [] = ((λ _. refl), (λ _. refl))
all_stars_iff (p ∷ ps) = elim (Bool-cases (p == asterisk)) [
  | inl e ↦
      let at = (==_iff p asterisk).0 e in
      rw e (
        (λ h. inl (at, [], [], refl, (all_stars_iff ps).0 h)),
        (λ m. (all_stars_iff ps).1 (star_tail p ps at m)),
      )
  | inr e ↦ rw e ((λ h. cc), (λ m. absurd (not_star p ps (ground arith) m)))
]
  where
    star_tail : (p : ℕ) (ps : Bytes) → p ≡ asterisk → Matches (p ∷ ps) [] → Matches ps []
    star_tail p ps at (inl (_, [], b, split, m)) = subst (Matches ps) (sym split) m
    star_tail p ps at (inl (_, c ∷ a, b, split, m)) = cc
    star_tail p ps at (inr m) = absurd (m.0 at)

    not_star : (p : ℕ) (ps : Bytes) → p ≢ asterisk → ¬ Matches (p ∷ ps) []
    not_star p ps ne (inl m) = ne m.0
    not_star p ps ne (inr (_, c, t, split, _, _)) = cc

nonempty_cut :
    (x text a b : Bytes) (c : ℕ)
    → x ++ text ≡ (c ∷ a) ++ b
    → length x ≤ length a
    → (d : ℕ) × (z : Bytes) × (text ≡ d ∷ (z ++ b))
nonempty_cut x text a b c e h = go (cut_between x text (c ∷ a) b e (omega arith))
  where
    go : (z : Bytes) × (text ≡ z ++ b) → (d : ℕ) × (z : Bytes) × (text ≡ d ∷ (z ++ b))
    go ([], split) =
        absurd (
          omega
            (arith, ap length e, ap length split, length-append x text, length-append (c ∷ a) b))
    go (d ∷ z, split) = (d, z, split)

-- A match past the anchor, seen from here: the run between takes up its part of the text.
pub Later-here :
    (text pat : Bytes) (star : Anchor)
    → Anchored text pat star
    → Later star
    → (c : ℕ) × (z : Bytes) × (b : Bytes) × (text ≡ c ∷ (z ++ b)) × Matches pat b
Later-here text pat none w l = absurd l
Later-here text pat (some (sp, st)) (seg, x, e, f, run, plain) (c, a, b, split, m) =
    let (y, b', cut, same, m') = Matches-Run seg x pat b run (subst (λ q. Matches q b) e m) in
    let whole : x ++ text ≡ (c ∷ (a ++ y)) ++ b' =
      sym f ∙ split ∙ ap (λ t. c ∷ (a ++ t)) cut ∙ ap (◌∷◌ c) (sym (append_assoc a y b')) in
    let (d, z, rest) = nonempty_cut x text (a ++ y) b' c whole (omega (arith, length-append a y)) in
    (d, z, b', rest, m')

-- What a round owes to the question that it was given.
abbrev pub Keeps : Outcome → Type 0 → Type 0
Keeps (done b) A = (b ≡ true) ↔ A
Keeps (more t p star) A = Anchored t p star × Plain t × (Answer t p star ↔ A)

Plain-tail : (x text : Bytes) → Plain (x ++ text) → Plain text
Plain-tail [] text h = h
Plain-tail (c ∷ x) text h = Plain-tail x text h.1

anchor_on : (sp st : Bytes) (y : ℕ) → Answer st sp (some (sp, st)) → Later (some (sp, y ∷ st))
anchor_on sp st y (inl m) = (y, [], st, refl, m)
anchor_on sp st y (inr (c, a, b, split, m)) = (y, c ∷ a, b, ap (◌∷◌ y) split, m)

anchor_back : (sp st : Bytes) (y : ℕ) → Later (some (sp, y ∷ st)) → Answer st sp (some (sp, st))
anchor_back sp st y (c, [], b, split, m) = let same : b ≡ st = cc in inl (subst (Matches sp) same m)
anchor_back sp st y (c, d ∷ a, b, split, m) = inr (d, a, b, cc, m)

-- Where the text has a char and the pattern does not fit it, only the anchor is left.
pub retry_keeps :
    (c : ℕ) (t pat : Bytes) (star : Anchor)
    → Anchored (c ∷ t) pat star
    → ¬ Matches pat (c ∷ t)
    → Keeps (retry star) (Answer (c ∷ t) pat star)
unfolding retry
retry_keeps c t pat none w no_match =
    ((λ h. cc), elim [ inl m ↦ absurd (no_match m) | inr l ↦ absurd l ])
retry_keeps c t pat (some (sp, [])) (seg, x, e, f, run, plain) no_match =
    absurd (omega (arith, ap length f, length-append x (c ∷ t)))
retry_keeps c t pat (some (sp, y ∷ st)) (seg, x, e, f, run, plain) no_match = (
  ([], [], refl, refl, tt, plain.1),
  plain.1,
  (
    (λ h. inr (anchor_on sp st y h)),
    elim [ inl m ↦ absurd (no_match m) | inr l ↦ anchor_back sp st y l ],
  ),
)

-- A char that fits is taken from both.
Anchored-take :
    (c : ℕ) (t : Bytes) (p : ℕ) (ps : Bytes) (star : Anchor)
    → p ≢ asterisk
    → Fits p c
    → Anchored (c ∷ t) (p ∷ ps) star
    → Anchored t ps star
Anchored-take c t p ps none h fits w = tt
Anchored-take c t p ps (some (sp, st)) h fits (seg, x, e, f, run, plain) = (
  seg ++ p ∷ [],
  x ++ c ∷ [],
  e ∙ sym (append_assoc seg (p ∷ []) ps),
  f ∙ sym (append_assoc x (c ∷ []) t),
  Run-snoc seg x p c run h fits,
  plain,
)

Matches-take :
    (c : ℕ) (t : Bytes) (p : ℕ) (ps : Bytes)
    → p ≢ asterisk
    → Matches (p ∷ ps) (c ∷ t)
    → Fits p c × Matches ps t
Matches-take c t p ps h (inl m) = absurd (h m.0)
Matches-take c t p ps h (inr (_, d, u, split, fits, m)) =
    let head : d ≡ c = cc in
    let tail : u ≡ t = cc in (subst (Fits p) head fits, subst (Matches ps) tail m)

pub take_keeps :
    (c : ℕ) (t : Bytes) (p : ℕ) (ps : Bytes) (star : Anchor)
    → p ≢ asterisk
    → Fits p c
    → Anchored (c ∷ t) (p ∷ ps) star
    → Plain t
    → Keeps (more t ps star) (Answer (c ∷ t) (p ∷ ps) star)
take_keeps c t p ps star h fits w plain = (
  Anchored-take c t p ps star h fits w,
  plain,
  (
    elim [ inl m ↦ inl (inr (h, c, t, refl, fits, m)) | inr l ↦ inr l ],
    elim [ inl m ↦ inl (Matches-take c t p ps h m).1 | inr l ↦ inr l ],
  ),
)

-- A `*` sets the anchor anew: the pattern behind it may fit here, or later.
star_here : (t ps : Bytes) → Matches (asterisk ∷ ps) t → Answer t ps (some (ps, t))
star_here t ps (inr m) = absurd (m.0 refl)
star_here t ps (inl (_, [], b, split, m)) = inl (subst (Matches ps) (sym split) m)
star_here t ps (inl (_, c ∷ a, b, split, m)) = inr (c, a, b, split, m)

here_star : (t ps : Bytes) → Answer t ps (some (ps, t)) → Matches (asterisk ∷ ps) t
here_star t ps (inl m) = inl (refl, [], t, refl, m)
here_star t ps (inr (c, a, b, split, m)) = inl (refl, c ∷ a, b, split, m)

pub star_keeps :
    (t ps : Bytes) (star : Anchor)
    → Anchored t (asterisk ∷ ps) star
    → Plain t
    → Keeps (more t ps (some (ps, t))) (Answer t (asterisk ∷ ps) star)
star_keeps t ps star w plain = (
  ([], [], refl, refl, tt, plain),
  plain,
  ((λ h. inl (here_star t ps h)), elim [ inl m ↦ star_here t ps m | inr l ↦ from_later l ]),
)
  where
    from_later : Later star → Answer t ps (some (ps, t))
    from_later l =
        let (c, z, b, split, m) = Later-here t (asterisk ∷ ps) star w l in
        star_here t ps (subst (Matches (asterisk ∷ ps)) (sym split) (Matches-star ps (c ∷ z) b m))
