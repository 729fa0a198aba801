-- ===== src/Text/Find.antt =====
-- Laws of `equal`, `find_first` and `rfind`: an occurrence splits the text.
use Prim.Native.Nat.add
use jaytwo_library.Prelude.{
  ℕ, ◌+◌, ◌≤◌, ◌<◌, suc, true, false, [], ◌∷◌, ◌++◌, none, some, ◌≡◌, ◌≢◌, ◌↔◌, ◌⊎◌, inl, inr, refl,
  sym, ◌∙◌, false, ap, arith, Bytes, length, take, drop, Bool-cases, Option-cases, take-append-drop,
}
use jaytwo_library.Text.{equal, find_first, str_eq}

pub equal_self : (p r : Bytes) → equal p (p ++ r) ≡ true
unfolding equal
equal_self [] r = refl
equal_self (c ∷ p) r = ground (arith, equal_self p r)

pub equal_sound : (p s : Bytes) → equal p s ≡ true → s ≡ p ++ drop (length p) s
unfolding equal
equal_sound [] s h = refl
equal_sound (c ∷ p) [] h = cc
equal_sound (c ∷ p) (d ∷ s) h = ground (arith, equal_sound p s)

pub equal-length : (p s : Bytes) → equal p s ≡ true → length p ≤ length s
unfolding equal
equal-length [] s h = omega arith
equal-length (c ∷ p) [] h = cc
equal-length (c ∷ p) (d ∷ s) h = ground (arith, equal-length p s)

pub str_eq_iff : (a b : Bytes) → (str_eq a b ≡ true) ↔ (a ≡ b)
unfolding str_eq
str_eq_iff [] [] = ground arith
str_eq_iff [] (d ∷ s) = ground arith
str_eq_iff (c ∷ p) [] = ground arith
str_eq_iff (c ∷ p) (d ∷ s) = ground (arith, str_eq_iff p s)

-- How an occurrence in `c ∷ s` arises.
abbrev pub FindCases : Bytes → ℕ → Bytes → ℕ → Type 0
FindCases tok c s i =
    ((equal tok (c ∷ s) ≡ true) × (i ≡ 0))
    ⊎ ((j : ℕ) × (equal tok (c ∷ s) ≡ false) × (find_first tok s ≡ some j) × (i ≡ suc j))

pub find_first_cases :
    (tok : Bytes) (c : ℕ) (s : Bytes) (i : ℕ)
    → find_first tok (c ∷ s) ≡ some i
    → FindCases tok c s i
unfolding find_first
find_first_cases tok c s i h = elim (Bool-cases (equal tok (c ∷ s))) [
  | inl e ↦ inl (e, ground arith)
  | inr e ↦ elim (Option-cases (find_first tok s)) [
    | inl n ↦ ground arith
    | inr (j, f) ↦ inr (j, e, f, ground arith)
  ]
]

find_first-nil : (tok : Bytes) (i : ℕ) → find_first tok [] ≡ some i → (tok ≡ []) × (i ≡ 0)
unfolding find_first equal
find_first-nil [] i h = ground arith
find_first-nil (c ∷ tok) i h = cc

-- An occurrence at `i` splits the text in three.
pub find_first_sound :
    (tok s : Bytes) (i : ℕ)
    → find_first tok s ≡ some i
    → s ≡ take i s ++ (tok ++ drop (i + length tok) s)
find_first_sound tok [] i h = let (e, f) = find_first-nil tok i h in rw (e, f) refl
find_first_sound tok (c ∷ s) i h = elim (find_first_cases tok c s i h) [
  | inl (e, z) ↦ rw (z, add.zero (length tok)) (equal_sound tok (c ∷ s) e)
  | inr (j, _, f, z) ↦ rw (z, add.suc j (length tok)) (ap (◌∷◌ c) (find_first_sound tok s j f))
]

pub find_first_bound :
    (tok s : Bytes) (i : ℕ) → find_first tok s ≡ some i → i + length tok ≤ length s
find_first_bound tok [] i h = let (e, f) = find_first-nil tok i h in rw (e, f) (omega arith)
find_first_bound tok (c ∷ s) i h = elim (find_first_cases tok c s i h) [
  | inl (e, z) ↦ omega (arith, equal-length tok (c ∷ s) e)
  | inr (j, _, f, z) ↦ omega (arith, find_first_bound tok s j f)
]

equal-append_lt : (p s r : Bytes) → length p ≤ length s → equal p (s ++ r) ≡ equal p s
unfolding equal
equal-append_lt [] s r h = refl
equal-append_lt (c ∷ p) [] r h = absurd (omega arith)
equal-append_lt (c ∷ p) (d ∷ s) r h = rw (equal-append_lt p s r (omega arith))

equal_short : (p s : Bytes) → length s < length p → equal p s ≡ false
unfolding equal
equal_short [] s h = absurd (omega arith)
equal_short (c ∷ p) [] h = refl
equal_short (c ∷ p) (d ∷ s) h = ground (arith, equal_short p s)

equal-append : (p s r : Bytes) → equal p s ≡ true → equal p (s ++ r) ≡ true
unfolding equal
equal-append [] s r h = refl
equal-append (c ∷ p) [] r h = cc
equal-append (c ∷ p) (d ∷ s) r h = ground (arith, equal-append p s r)

equal-take : (p : Bytes) (n : ℕ) (s : Bytes) → equal p s ≡ false → equal p (take n s) ≡ false
equal-take p n s h = elim (Bool-cases (equal p (take n s))) [
  | inl e ↦ cc (equal-append p (take n s) (drop n s) e, ap (equal p) (take-append-drop n s))
  | inr e ↦ e
]

find_first_skip :
    (tok : Bytes) (c : ℕ) (s : Bytes)
    → equal tok (c ∷ s) ≡ false
    → find_first tok s ≡ none
    → find_first tok (c ∷ s) ≡ none
unfolding find_first
find_first_skip tok c s e f = rw (e, f)

find_first_here : (tok s : Bytes) → equal tok s ≡ true → find_first tok s ≢ none
unfolding find_first
find_first_here tok [] e = ground arith
find_first_here tok (c ∷ s) e = ground arith

-- No occurrence lies wholly before the first one.
pub find_first-take :
    (c : ℕ) (tok s : Bytes) (i : ℕ)
    → find_first (c ∷ tok) s ≡ some i
    → find_first (c ∷ tok) (take i s) ≡ none
find_first-take c tok [] i h = cc ((find_first-nil (c ∷ tok) i h).0)
find_first-take c tok (d ∷ s) i h = elim (find_first_cases (c ∷ tok) d s i h) [
  | inl (e, z) ↦ rw z (unfold find_first equal in refl)
  | inr (j, e, f, z) ↦ rw z (
      find_first_skip (c ∷ tok) d (take j s) (equal-take (c ∷ tok) (suc j) (d ∷ s) e)
        (find_first-take c tok s j f))
]

-- Where nothing is found, nothing is there.
pub find_first_complete : (tok a b : Bytes) → find_first tok (a ++ (tok ++ b)) ≢ none
unfolding find_first
find_first_complete tok [] b h = find_first_here tok (tok ++ b) (equal_self tok b) h
find_first_complete tok (d ∷ a) b h = ground (arith, find_first_complete tok a b)

-- The position that is found is the first one: no occurrence begins earlier.
pub find_first_least :
    (tok s : Bytes) (i : ℕ) (a b : Bytes)
    → find_first tok s ≡ some i
    → s ≡ a ++ (tok ++ b)
    → i ≤ length a
find_first_least tok [] i a b h e = omega (arith, (find_first-nil tok i h).1)
find_first_least tok (c ∷ s) i [] b h e = elim (find_first_cases tok c s i h) [
  | inl (_, z) ↦ omega (arith, z)
  | inr (j, f, _, _) ↦ absurd (true-not-false (sym (equal_self tok b) ∙ ap (equal tok) (sym e) ∙ f))
]
  where
    true-not-false : true ≢ false
    true-not-false q = cc
find_first_least tok (c ∷ s) i (d ∷ a) b h e = elim (find_first_cases tok c s i h) [
  | inl (_, z) ↦ omega (arith, z)
  | inr (j, _, g, z) ↦ omega (arith, z, find_first_least tok s j a b g (ap (drop 1) e))
]
