-- ===== src/StringBasic/Trim/Laws.antt =====
-- What trimming and the normal forms of white space promise.
use mathlib.Core.List.{reverse-append, reverse-reverse, reverse-cons}
use jaytwo_library.Prelude.{
  true, false, [], ◌∷◌, ◌++◌, reverse, ◌≡◌, refl, sym, ap, ◌∙◌, arith, Bytes, append-nil, All,
  All-append, subst,
}
use jaytwo_library.Text.{is_space, drop_while}
use jaytwo_library.StringBasic.Trim.{ltrim, rtrim, trim}

abbrev pub IsBlank : Bytes → Type 0
IsBlank = All (λ c. is_space c ≡ true)

-- The text does not begin with white space.
abbrev pub StartsDark : Bytes → Type 0
StartsDark [] = Unit
StartsDark (c ∷ s) = is_space c ≡ false

-- Nor does it end with it.
pub record IsTrimmed (s : Bytes) : Type 0 where
  pub front : StartsDark s
  pub back : StartsDark (reverse s)

-- The white space that the loop drops.
leading : Bytes → Bytes
leading [] = []
leading (c ∷ s) = elim (is_space c) [ true ↦ c ∷ leading s | false ↦ [] ]

leading-drop_while : (s : Bytes) → leading s ++ drop_while is_space s ≡ s
unfolding leading drop_while
leading-drop_while [] = refl
leading-drop_while (c ∷ s) = ground (arith, leading-drop_while s)

leading-IsBlank : (s : Bytes) → IsBlank (leading s)
unfolding leading
leading-IsBlank [] = tt
leading-IsBlank (c ∷ s) = ground (arith, leading-IsBlank s)

pub drop_while-StartsDark : (s : Bytes) → StartsDark (drop_while is_space s)
unfolding drop_while
drop_while-StartsDark [] = tt
drop_while-StartsDark (c ∷ s) = ground (arith, drop_while-StartsDark s)

pub drop_while_dark : (s : Bytes) → StartsDark s → drop_while is_space s ≡ s
unfolding drop_while
drop_while_dark [] h = refl
drop_while_dark (c ∷ s) h = ground arith

pub drop_while_blank :
    (a s : Bytes) → IsBlank a → drop_while is_space (a ++ s) ≡ drop_while is_space s
unfolding drop_while
drop_while_blank [] s h = refl
drop_while_blank (c ∷ a) s h = ground (arith, drop_while_blank a s)

IsBlank-reverse : (s : Bytes) → IsBlank s → IsBlank (reverse s)
IsBlank-reverse [] h = tt
IsBlank-reverse (c ∷ s) (hc, hs) =
    subst IsBlank (sym (reverse-cons c s))
      (All-append (λ x. is_space x ≡ true) (reverse s) (c ∷ []) (IsBlank-reverse s hs) (hc, tt))

-- A text that begins dark still does when blanks are cut from its end.
StartsDark-prefix : (s r : Bytes) → StartsDark (s ++ r) → StartsDark s
StartsDark-prefix [] r h = tt
StartsDark-prefix (c ∷ s) r h = h

trailing : Bytes → Bytes
trailing s = reverse (leading (reverse s))

rtrim-trailing : (s : Bytes) → rtrim s ++ trailing s ≡ s
unfolding rtrim trailing
rtrim-trailing s =
    sym (reverse-append (leading (reverse s)) (drop_while is_space (reverse s)))
    ∙ ap reverse (leading-drop_while (reverse s))
    ∙ reverse-reverse s

-- `trim` cuts blanks from both ends, and nothing else: the text is blanks, the result, blanks, and
-- the result neither begins nor ends with a blank.
pub trim_cuts :
    (s : Bytes)
    → (a b : Bytes) × (s ≡ a ++ (trim s ++ b)) × IsBlank a × IsBlank b × IsTrimmed (trim s)
unfolding trim ltrim
trim_cuts s = (
  leading s,
  trailing (ltrim s),
  sym (ap (◌++◌ (leading s)) (rtrim-trailing (ltrim s)) ∙ leading-drop_while s),
  leading-IsBlank s,
  (unfold trailing in IsBlank-reverse _ (leading-IsBlank (reverse (ltrim s)))),
  record {
    front =
        StartsDark-prefix (rtrim (ltrim s)) (trailing (ltrim s))
          (subst StartsDark (sym (rtrim-trailing (ltrim s))) (drop_while-StartsDark s));
    back =
        (unfold rtrim in
          subst StartsDark (sym (reverse-reverse (drop_while is_space (reverse (ltrim s)))))
            (drop_while-StartsDark (reverse (ltrim s))));
  },
)

drop_while_all : (s : Bytes) → IsBlank s → drop_while is_space s ≡ []
unfolding drop_while
drop_while_all [] h = refl
drop_while_all (c ∷ s) h = ground (arith, drop_while_all s)

rtrim_core :
    (core b : Bytes) → IsBlank b → IsTrimmed core → rtrim (drop_while is_space (core ++ b)) ≡ core
unfolding rtrim
rtrim_core [] b hb t = rw (drop_while_all b hb) (unfold drop_while in refl)
rtrim_core (c ∷ s) b hb t =
    rw
      (
        drop_while_dark (c ∷ (s ++ b)) t.front,
        reverse-append (c ∷ s) b,
        drop_while_blank (reverse b) (reverse (c ∷ s)) (IsBlank-reverse b hb),
        drop_while_dark (reverse (c ∷ s)) t.back,
      )
      (reverse-reverse (c ∷ s))

-- A core with dark ends is what `trim` finds between any blanks.
pub trim_core :
    (a core b : Bytes) → IsBlank a → IsBlank b → IsTrimmed core → trim (a ++ (core ++ b)) ≡ core
unfolding trim ltrim
trim_core a core b ha hb t = ap rtrim (drop_while_blank a (core ++ b) ha) ∙ rtrim_core core b hb t

-- Trimming twice is trimming once.
pub trim-trim : (s : Bytes) → trim (trim s) ≡ trim s
trim-trim s =
    let (_, _, _, _, _, t) = trim_cuts s in
    ap trim (sym (append-nil (trim s))) ∙ trim_core [] (trim s) [] tt tt t
