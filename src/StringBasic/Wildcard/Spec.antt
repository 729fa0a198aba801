-- ===== src/StringBasic/Wildcard/Spec.antt =====
-- What a pattern stands for: `?` for any char, `*` for any text, every other char for itself.
use jaytwo_library.Prelude.{
  ℕ, ◌≤◌, [], ◌∷◌, ◌++◌, ◌≡◌, ◌≢◌, ◌⊎◌, inl, inr, refl, sym, ap, ◌∙◌, arith, Bytes, length,
  append_assoc,
}
use jaytwo_library.StringBasic.Wildcard.{asterisk, question}

-- A pattern char other than `*`, and a char of the text.
abbrev pub Fits : ℕ → ℕ → Type 0
Fits p c = (p ≡ question) ⊎ (p ≡ c)

abbrev pub Matches : Bytes → Bytes → Type 0
Matches [] text = text ≡ []
Matches (p ∷ ps) text =
    ((p ≡ asterisk) × (a : Bytes) × (b : Bytes) × (text ≡ a ++ b) × Matches ps b)
    ⊎ ((p ≢ asterisk) × (c : ℕ) × (t : Bytes) × (text ≡ c ∷ t) × Fits p c × Matches ps t)

-- A run of pattern chars without `*`, and the text that it is set against, char by char.
abbrev pub Run : Bytes → Bytes → Type 0
Run [] [] = Unit
Run [] (c ∷ x) = ⊥
Run (p ∷ seg) [] = ⊥
Run (p ∷ seg) (c ∷ x) = (p ≢ asterisk) × Fits p c × Run seg x

pub Run-snoc :
    (seg x : Bytes) (p c : ℕ)
    → Run seg x
    → p ≢ asterisk
    → Fits p c
    → Run (seg ++ p ∷ []) (x ++ c ∷ [])
Run-snoc [] [] p c r h f = (h, f, tt)
Run-snoc [] (y ∷ x) p c r h f = absurd r
Run-snoc (q ∷ seg) [] p c r h f = absurd r
Run-snoc (q ∷ seg) (y ∷ x) p c (hq, fq, r) h f = (hq, fq, Run-snoc seg x p c r h f)

-- A match of a run and a rest cuts off as many chars as the run has.
pub Matches-Run :
    (seg x rest b : Bytes)
    → Run seg x
    → Matches (seg ++ rest) b
    → (y b' : Bytes) × (b ≡ y ++ b') × (length y ≡ length x) × Matches rest b'
Matches-Run [] [] rest b r m = ([], b, refl, refl, m)
Matches-Run [] (c ∷ x) rest b r m = absurd r
Matches-Run (p ∷ seg) [] rest b r m = absurd r
Matches-Run (p ∷ seg) (c ∷ x) rest b (h, _, r) (inl m) = absurd (h m.0)
Matches-Run (p ∷ seg) (c ∷ x) rest b (h, _, r) (inr (_, d, t, e, _, m)) =
    let (y, b', split, same, m') = Matches-Run seg x rest t r m in
    (d ∷ y, b', e ∙ ap (◌∷◌ d) split, omega arith, m')

-- Two ways to cut a text, the second behind the first, and what lies between.
pub cut_between :
    (x text a b : Bytes) → x ++ text ≡ a ++ b → length x ≤ length a → (z : Bytes) × (text ≡ z ++ b)
cut_between [] text a b e h = (a, e)
cut_between (c ∷ x) text [] b e h = absurd (omega arith)
cut_between (c ∷ x) text (d ∷ a) b e h = cut_between x text a b (cc) (omega arith)

-- A `*` in front takes up any text.
pub Matches-star : (ps z b : Bytes) → Matches (asterisk ∷ ps) b → Matches (asterisk ∷ ps) (z ++ b)
Matches-star ps z b (inl (e, a, t, split, m)) =
    inl (e, z ++ a, t, ap (◌++◌ z) split ∙ sym (append_assoc z a t), m)
Matches-star ps z b (inr m) = absurd (m.0 refl)
