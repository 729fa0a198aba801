-- ===== src/StringBasic/Wildcard/Laws.antt =====
-- `wildcard_match` against the meaning of a pattern.
use jaytwo_library.Prelude.{
  ℕ, zero, suc, Bool, true, false, [], ◌∷◌, ◌≡◌, ◌≢◌, ◌↔◌, inl, inr, refl, sym, ap, ◌∙◌, arith,
  none, some, append-nil, ◌<◌, Bytes, ◌==◌, ◌||◌, Bool-cases, subst,
}
use jaytwo_library.StringBasic.Wildcard.{
  Anchor, Outcome, done, more, all_stars, retry, wild_step, wild_loop, wildcard_impl,
  wildcard_match, wild_fuel, c_str, asterisk, question,
}
use jaytwo_library.StringBasic.Wildcard.Spec.{Fits, Matches}
use jaytwo_library.StringBasic.Wildcard.Fuel.{wildcard_impl_total}
use jaytwo_library.StringBasic.Wildcard.Rounds.{
  Plain, Later, Answer, Anchored, Keeps, all_stars_iff, Later-here, retry_keeps, take_keeps,
  star_keeps,
}

unstarred : (p : ℕ) → (p == asterisk) ≡ false → p ≢ asterisk
unstarred p f = ground arith

Fits-of : (c p : ℕ) → (p == question || p == c) ≡ true → Fits p c
Fits-of c p e = ground arith

fits_plain : (c p : ℕ) → (p == question || p == c) ≡ true → c ≢ asterisk → p ≢ asterisk
fits_plain c p e h = ground arith

no_char_fits :
    (c : ℕ) (t : Bytes) (p : ℕ) (ps : Bytes)
    → (p == question || p == c) ≡ false
    → (p == asterisk) ≡ false
    → ¬ Matches (p ∷ ps) (c ∷ t)
no_char_fits c t p ps e f (inl m) = absurd (unstarred p f m.0)
no_char_fits c t p ps e f (inr (_, d, u, split, inl q, m)) = ground arith
no_char_fits c t p ps e f (inr (_, d, u, split, inr q, m)) = ground arith

step_keeps :
    (text pat : Bytes) (star : Anchor)
    → Anchored text pat star
    → Plain text
    → Keeps (wild_step text pat star) (Answer text pat star)
unfolding wild_step
step_keeps [] pat star w plain = (
  (λ h. inl ((all_stars_iff pat).0 h)),
  elim [ inl m ↦ (all_stars_iff pat).1 m | inr l ↦ nothing_later l ],
)
  where
    nothing_later : Later star → all_stars pat ≡ true
    nothing_later l = let (c, z, b, split, m) = Later-here [] pat star w l in cc
step_keeps (c ∷ t) [] star w plain = retry_keeps c t [] star w (λ m. cc)
step_keeps (c ∷ t) (p ∷ ps) star w plain = elim (Bool-cases (p == question || p == c)) [
  | inl e ↦ rw e (take_keeps c t p ps star (fits_plain c p e plain.0) (Fits-of c p e) w plain.1)
  | inr e ↦ elim (Bool-cases (p == asterisk)) [
    | inl f ↦
        let at : p ≡ asterisk = ground arith in
        rw (e, f)
          (subst (λ q. Keeps (more (c ∷ t) ps (some (ps, c ∷ t))) (Answer (c ∷ t) (q ∷ ps) star))
            (sym at)
            (star_keeps (c ∷ t) ps star (subst (λ q. Anchored (c ∷ t) (q ∷ ps) star) at w) plain))
    | inr f ↦ rw (e, f) (retry_keeps c t (p ∷ ps) star w (no_char_fits c t p ps e f))
  ]
]

loop_done :
    (fuel : ℕ) (text pat : Bytes) (star : Anchor) (d : Bool)
    → wild_step text pat star ≡ done d
    → wild_loop (suc fuel) text pat star ≡ some d
unfolding wild_loop
loop_done fuel text pat star d e = rw (e, wild_loop)

loop_more :
    (fuel : ℕ) (text pat : Bytes) (star : Anchor) (t p : Bytes) (s : Anchor)
    → wild_step text pat star ≡ more t p s
    → wild_loop (suc fuel) text pat star ≡ wild_loop fuel t p s
unfolding wild_loop
loop_more fuel text pat star t p s e = rw (e, wild_loop)

loop_keeps :
    (fuel : ℕ) (text pat : Bytes) (star : Anchor) (b : Bool)
    → Anchored text pat star
    → Plain text
    → wild_loop fuel text pat star ≡ some b
    → (b ≡ true) ↔ Answer text pat star
loop_keeps zero text pat star b w plain h = unfold wild_loop in cc h
loop_keeps (suc fuel) text pat star b w plain h =
    go (loop_keeps fuel) (wild_step text pat star) refl (step_keeps text pat star w plain)
  where
    go :
        ((t p : Bytes) (s : Anchor) (r : Bool)
          → Anchored t p s
          → Plain t
          → wild_loop fuel t p s ≡ some r
          → (r ≡ true) ↔ Answer t p s)
        → (o : Outcome) → wild_step text pat star ≡ o
        → Keeps o (Answer text pat star)
        → (b ≡ true) ↔ Answer text pat star
    go ih (done d) e k =
        let same : d ≡ b = cc (loop_done fuel text pat star d e) in
        subst (λ x. (x ≡ true) ↔ Answer text pat star) same k
    go ih (more t p s) e (w', plain', k) =
        let next = ih t p s b w' plain' (sym (loop_more fuel text pat star t p s e) ∙ h) in
        ((λ x. k.0 (next.0 x)), (λ a. next.1 (k.1 a)))

impl_decides :
    (text pat : Bytes) (b : Bool)
    → Plain text
    → wildcard_impl text pat ≡ some b
    → (b ≡ true) ↔ Matches pat text
impl_decides text pat b plain e =
    let k = loop_keeps (wild_fuel text pat) text pat none b tt plain (unfold wildcard_impl in e) in
    ((λ h. elim (k.0 h) [ inl m ↦ m | inr l ↦ absurd l ]), (λ m. k.1 (inl m)))

match_of :
    (text pattern : Bytes) (b : Bool)
    → wildcard_impl (c_str text) (c_str pattern) ≡ some b
    → wildcard_match text pattern ≡ b
unfolding wildcard_match
match_of text pattern b e = rw (e, wildcard_match)

-- On a text with no `*` before its first NUL, `wildcard_match` holds exactly if the pattern, read up
-- to its first NUL, stands for the text: `*` for any chars, `?` for one, any other char for itself.
pub wildcard_match_iff :
    (text pattern : Bytes)
    → Plain (c_str text)
    → (wildcard_match text pattern ≡ true) ↔ Matches (c_str pattern) (c_str text)
wildcard_match_iff text pattern plain =
    let (b, e) = wildcard_impl_total (c_str text) (c_str pattern) in
    let decided : (b ≡ true) ↔ Matches (c_str pattern) (c_str text) =
      impl_decides (c_str text) (c_str pattern) b plain e in
    let result = match_of text pattern b e in
    ((λ h. decided.0 (sym result ∙ h)), (λ m. result ∙ decided.1 m))

stuck_loop : (fuel c : ℕ) (t : Bytes) → 0 < fuel → wild_loop fuel (c ∷ t) [] none ≡ some false
unfolding wild_loop wild_step retry
stuck_loop zero c t h = absurd (omega arith)
stuck_loop (suc fuel) c t h = refl

impl_star : (c : ℕ) (t : Bytes) → wildcard_impl (asterisk ∷ c ∷ t) (asterisk ∷ []) ≡ some false
unfolding wildcard_impl wild_fuel
impl_star c t = stuck_loop _ c t (omega arith)

c_str_star : (c : ℕ) (t : Bytes) → c ≢ 0 → c_str (asterisk ∷ c ∷ t) ≡ asterisk ∷ c ∷ c_str t
unfolding c_str
c_str_star c t h = ground arith

-- The pattern `*` refuses every text that begins with `*` and goes on with a char other than NUL,
-- while the meaning of the pattern allows it.
pub wildcard_star_text :
    (c : ℕ) (t : Bytes)
    → c ≢ 0
    → (wildcard_match (asterisk ∷ c ∷ t) (asterisk ∷ []) ≡ false)
      × Matches (c_str (asterisk ∷ [])) (c_str (asterisk ∷ c ∷ t))
wildcard_star_text c t h = (
  match_of (asterisk ∷ c ∷ t) (asterisk ∷ []) false (
      ap (λ x. wildcard_impl x (c_str (asterisk ∷ []))) (c_str_star c t h)
      ∙ unfold c_str in impl_star c (c_str t)),
  (unfold c_str in inl (refl, c_str (asterisk ∷ c ∷ t), [], sym (append-nil _), refl)),
)
