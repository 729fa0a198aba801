-- ===== src/StringBasic/Affix/Common.antt =====
-- `common_prefix` against the prefixes that all the texts share.
use jaytwo_library.Prelude.{
  ℕ, zero, suc, true, List, [], ◌∷◌, Bytes, take, is_empty, ◌≡◌, ◌≢◌, inl, inr, refl, sym, ◌∙◌,
  arith, Bool-cases, All, subst,
}
use jaytwo_library.Text.{equal}
use jaytwo_library.StringBasic.Affix.{agree, prefix_loop, common_prefix, starts_with}
use jaytwo_library.StringBasic.Affix.Laws.{starts_with-equal}

equal_trans : (p q s : Bytes) → equal p q ≡ true → equal q s ≡ true → equal p s ≡ true
unfolding equal
equal_trans [] q s h k = refl
equal_trans (c ∷ p) [] s h k = cc
equal_trans (c ∷ p) (d ∷ q) [] h k = cc
equal_trans (c ∷ p) (d ∷ q) (e ∷ s) h k = ground (arith, equal_trans p q s)

pub equal_refl : (p : Bytes) → equal p p ≡ true
unfolding equal
equal_refl [] = refl
equal_refl (c ∷ p) = ground (arith, equal_refl p)

equal-take_self : (n : ℕ) (p : Bytes) → equal (take n p) p ≡ true
unfolding equal
equal-take_self zero p = refl
equal-take_self (suc n) [] = refl
equal-take_self (suc n) (c ∷ p) = ground (arith, equal-take_self n p)

-- The run that two texts share is a prefix of the second,
agree_right : (p s : Bytes) → equal (take (agree p s) p) s ≡ true
unfolding equal agree
agree_right [] s = refl
agree_right (c ∷ p) [] = refl
agree_right (c ∷ p) (d ∷ s) = ground (arith, agree_right p s)

-- and every prefix of both lies in it.
agree_greatest :
    (q p s : Bytes) → equal q p ≡ true → equal q s ≡ true → equal q (take (agree p s) p) ≡ true
unfolding equal agree
agree_greatest [] p s h k = refl
agree_greatest (x ∷ q) [] s h k = cc
agree_greatest (x ∷ q) (c ∷ p) [] h k = cc
agree_greatest (x ∷ q) (c ∷ p) (d ∷ s) h k = ground (arith, agree_greatest q p s)

abbrev PrefixOf : Bytes → Bytes → Type 0
PrefixOf p s = equal p s ≡ true

nil-All : (items : List Bytes) → All (PrefixOf []) items
unfolding equal
nil-All [] = tt
nil-All (s ∷ items) = (refl, nil-All items)

empty_nil : (s : Bytes) → is_empty s ≡ true → s ≡ []
empty_nil [] h = refl
empty_nil (c ∷ s) h = cc

prefix_loop_common :
    (pref : Bytes) (items : List Bytes)
    → PrefixOf (prefix_loop pref items) pref × All (PrefixOf (prefix_loop pref items)) items
prefix_loop_common pref [] = unfold prefix_loop in (equal_refl pref, tt)
prefix_loop_common pref (s ∷ items) = elim (Bool-cases (is_empty (take (agree pref s) pref))) [
  | inl e ↦
      let gone : prefix_loop pref (s ∷ items) ≡ [] =
        unfold prefix_loop in rw (e, prefix_loop) (empty_nil _ e) in
      subst (λ p. PrefixOf p pref × All (PrefixOf p) (s ∷ items)) (sym gone)
        ((unfold equal in refl), nil-All (s ∷ items))
  | inr e ↦
      let cut = take (agree pref s) pref in
      let goes_on : prefix_loop pref (s ∷ items) ≡ prefix_loop cut items =
        unfold prefix_loop in rw (e, prefix_loop) in
      let (below, rest) = prefix_loop_common cut items in
      subst (λ p. PrefixOf p pref × All (PrefixOf p) (s ∷ items)) (sym goes_on)
        (
          equal_trans (prefix_loop cut items) cut pref below (equal-take_self (agree pref s) pref),
          (equal_trans (prefix_loop cut items) cut s below (agree_right pref s), rest),
        )
]

prefix_loop_greatest :
    (q pref : Bytes) (items : List Bytes)
    → PrefixOf q pref
    → All (PrefixOf q) items
    → PrefixOf q (prefix_loop pref items)
unfolding prefix_loop
prefix_loop_greatest q pref [] h k = h
prefix_loop_greatest q pref (s ∷ items) h (hs, k) =
    let below = agree_greatest q pref s h hs in
    elim (Bool-cases (is_empty (take (agree pref s) pref))) [
      | inl e ↦ rw (e, prefix_loop) below
      | inr e ↦
          rw (e, prefix_loop) (prefix_loop_greatest q (take (agree pref s) pref) items below k)
    ]

All-starts :
    (q : Bytes) (items : List Bytes)
    → All (PrefixOf q) items
    → All (λ s. starts_with s q ≡ true) items
All-starts q [] h = tt
All-starts q (s ∷ items) (hs, h) = (starts_with-equal s q ∙ hs, All-starts q items h)

starts-All :
    (q : Bytes) (items : List Bytes)
    → All (λ s. starts_with s q ≡ true) items
    → All (PrefixOf q) items
starts-All q [] h = tt
starts-All q (s ∷ items) (hs, h) = (sym (starts_with-equal s q) ∙ hs, starts-All q items h)

-- Every text begins with the common prefix.
pub common_prefix_common :
    (items : List Bytes) → All (λ s. starts_with s (common_prefix items) ≡ true) items
common_prefix_common [] = tt
common_prefix_common (s ∷ items) =
    unfold common_prefix in
    let (front, rest) = prefix_loop_common s items in All-starts _ (s ∷ items) (front, rest)

-- Every prefix of all the texts is a prefix of the common one, if there is a text.
pub common_prefix_greatest :
    (q : Bytes) (items : List Bytes)
    → items ≢ []
    → All (λ s. starts_with s q ≡ true) items
    → starts_with (common_prefix items) q ≡ true
common_prefix_greatest q [] ne h = absurd (ne refl)
common_prefix_greatest q (s ∷ items) ne h =
    unfold common_prefix in
    let (hs, rest) = starts-All q (s ∷ items) h in
    starts_with-equal (prefix_loop s items) q ∙ prefix_loop_greatest q s items hs rest
