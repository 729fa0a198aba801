-- ===== src/StringBasic/Case/Laws.antt =====
-- The comparisons without case, against those of the lower-case texts.
use mathlib.Core.List.{reverse-cons}
use jaytwo_library.Prelude.{
  ℕ, true, false, [], ◌∷◌, ◌++◌, reverse, Bytes, length, ◌==◌, ◌≡◌, ◌↔◌, inl, inr, refl, sym, ap,
  ◌∙◌, arith, Bool-cases, ==_iff,
}
use jaytwo_library.Text.{equal}
use jaytwo_library.StringBasic.Affix.Common.{equal_refl}
use jaytwo_library.StringBasic.Affix.{contains, starts_with, ends_with}
use jaytwo_library.StringBasic.Case.{
  to_lower_ascii, to_upper_ascii, to_lower, to_upper, same_chars, iequals, icontains, istarts_with,
  iends_with,
}

length-to_lower : (s : Bytes) → length (to_lower s) ≡ length s
unfolding to_lower
length-to_lower [] = refl
length-to_lower (c ∷ s) = omega (arith, length-to_lower s)

same_chars-equal : (p s : Bytes) → same_chars p s ≡ equal (to_lower p) (to_lower s)
unfolding same_chars equal to_lower
same_chars-equal [] s = refl
same_chars-equal (c ∷ p) [] = refl
same_chars-equal (c ∷ p) (d ∷ s) = ground (arith, same_chars-equal p s)

iequals_same : (a b : Bytes) → (length a == length b) ≡ true → iequals a b ≡ same_chars b a
unfolding iequals
iequals_same a b e = rw e

iequals_other : (a b : Bytes) → (length a == length b) ≡ false → iequals a b ≡ false
unfolding iequals
iequals_other a b e = rw e

equal_eq : (p s : Bytes) → length p ≡ length s → equal p s ≡ true → p ≡ s
unfolding equal
equal_eq [] [] e h = refl
equal_eq [] (d ∷ s) e h = absurd (omega arith)
equal_eq (c ∷ p) [] e h = cc
equal_eq (c ∷ p) (d ∷ s) e h = ground (arith, equal_eq p s)

icontains_lower : (s t : Bytes) → icontains s t ≡ contains (to_lower s) (to_lower t)
unfolding icontains contains to_lower
icontains_lower s [] = refl
icontains_lower s (c ∷ t) = refl

-- `iequals` holds exactly of texts with the same lower-case form.
pub iequals_iff : (a b : Bytes) → (iequals a b ≡ true) ↔ (to_lower a ≡ to_lower b)
iequals_iff a b = (to, from)
  where
    to : iequals a b ≡ true → to_lower a ≡ to_lower b
    to h = elim (Bool-cases (length a == length b)) [
      | inl e ↦ sym (
          equal_eq (to_lower b) (to_lower a)
            (omega (arith, length-to_lower a, length-to_lower b, (==_iff _ _).0 e))
            (sym (same_chars-equal b a) ∙ sym (iequals_same a b e) ∙ h))
      | inr e ↦ cc (iequals_other a b e)
    ]

    from : to_lower a ≡ to_lower b → iequals a b ≡ true
    from h =
        iequals_same a b (
          (==_iff (length a) (length b)).1
            (omega (arith, length-to_lower a, length-to_lower b, ap length h)))
        ∙ same_chars-equal b a
        ∙ ap (λ t. equal t (to_lower a)) (sym h)
        ∙ equal_refl (to_lower a)

to_lower-append : (s r : Bytes) → to_lower (s ++ r) ≡ to_lower s ++ to_lower r
unfolding to_lower
to_lower-append [] r = refl
to_lower-append (c ∷ s) r = ap (◌∷◌ (to_lower_ascii c)) (to_lower-append s r)

to_lower-reverse : (s : Bytes) → to_lower (reverse s) ≡ reverse (to_lower s)
to_lower-reverse [] = unfold to_lower in refl
to_lower-reverse (c ∷ s) =
    ap to_lower (reverse-cons c s)
    ∙ to_lower-append (reverse s) (c ∷ [])
    ∙ ap (λ t. t ++ to_lower (c ∷ [])) (to_lower-reverse s)
    ∙ unfold to_lower in sym (reverse-cons (to_lower_ascii c) (to_lower s))

-- The tests for a prefix, a suffix and a part without case are those of the lower-case texts.
pub case_free :
    (s t : Bytes)
    → (istarts_with s t ≡ starts_with (to_lower s) (to_lower t))
      × (iends_with s t ≡ ends_with (to_lower s) (to_lower t))
      × (icontains s t ≡ contains (to_lower s) (to_lower t))
case_free s t = (
  (unfold istarts_with starts_with in
      rw (length-to_lower s, length-to_lower t, same_chars-equal t s)),
  (unfold iends_with ends_with in
      rw (
        length-to_lower s,
        length-to_lower t,
        same_chars-equal (reverse t) (reverse s),
        to_lower-reverse s,
        to_lower-reverse t,
      )),
  icontains_lower s t,
)

lower_upper : (c : ℕ) → to_lower_ascii (to_upper_ascii c) ≡ to_lower_ascii c
unfolding to_lower_ascii to_upper_ascii
lower_upper c = ground arith

-- Upper-casing is undone by lower-casing, up to case: the two agree on every text, and both
-- conversions keep the length.
pub to_lower-to_upper : (s : Bytes) → to_lower (to_upper s) ≡ to_lower s
unfolding to_lower to_upper
to_lower-to_upper [] = refl
to_lower-to_upper (c ∷ s) = rw (lower_upper c, to_lower-to_upper s)
