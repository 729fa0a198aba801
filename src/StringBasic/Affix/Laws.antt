-- ===== src/StringBasic/Affix/Laws.antt =====
-- What the tests for prefixes, suffixes and parts decide, and what removing and adding them does.
use mathlib.Core.List.{reverse-append, reverse-reverse}
use jaytwo_library.Prelude.{
  ℕ, ◌+◌, ◌-◌, true, false, [], ◌∷◌, ◌++◌, reverse, Option, none, some, Bytes, length, take, drop,
  if◌then◌else◌, ◌≡◌, ◌≢◌, ◌↔◌, ◌⊎◌, inl, inr, refl, sym, ap, ◌∙◌, arith, Bool-cases, Option-cases,
  length-append, length-reverse, append_assoc, take-append_left, drop-append_left,
}
use jaytwo_library.Text.{equal, find, find_first}
use jaytwo_library.Text.Find.{
  equal_self, equal_sound, equal-length, find_first_sound, find_first_complete,
}
use jaytwo_library.StringBasic.Affix.{
  is_some, contains, starts_with, ends_with, remove_prefix, remove_suffix, surround_if_missing,
}

pub starts_with-equal : (s p : Bytes) → starts_with s p ≡ equal p s
unfolding starts_with
starts_with-equal s p = elim (Bool-cases (equal p s)) [
  | inl e ↦ ground (arith, equal-length p s)
  | inr e ↦ ground arith
]

-- `starts_with` holds exactly of the texts with the prefix at their front.
pub starts_with_iff : (s p : Bytes) → (starts_with s p ≡ true) ↔ ((r : Bytes) × (s ≡ p ++ r))
starts_with_iff s p = (
  λ h. (drop (length p) s, equal_sound p s (sym (starts_with-equal s p) ∙ h)),
  λ e. starts_with-equal s p ∙ ap (equal p) e.1 ∙ equal_self p e.0,
)

ends_with-starts : (s p : Bytes) → ends_with s p ≡ starts_with (reverse s) (reverse p)
unfolding ends_with starts_with
ends_with-starts s p = rw (length-reverse s, length-reverse p)

-- `ends_with` holds exactly of the texts with the suffix at their end.
pub ends_with_iff : (s p : Bytes) → (ends_with s p ≡ true) ↔ ((r : Bytes) × (s ≡ r ++ p))
ends_with_iff s p = (to, from)
  where
    to : ends_with s p ≡ true → (r : Bytes) × (s ≡ r ++ p)
    to h =
        let (r, e) = (starts_with_iff (reverse s) (reverse p)).0 (sym (ends_with-starts s p) ∙ h) in
        (
          reverse r,
          sym (reverse-reverse s)
              ∙ ap reverse e
              ∙ reverse-append (reverse p) r
              ∙ ap (◌++◌ (reverse r)) (reverse-reverse p),
        )

    from : (r : Bytes) × (s ≡ r ++ p) → ends_with s p ≡ true
    from (r, e) =
        ends_with-starts s p
        ∙ (starts_with_iff (reverse s) (reverse p)).1 (reverse r, ap reverse e ∙ reverse-append r p)

is_some-none : {o : Option ℕ} → o ≡ none → is_some o ≢ true
unfolding is_some
is_some-none e h = ground arith

is_some_ne : (o : Option ℕ) → o ≢ none → is_some o ≡ true
unfolding is_some
is_some_ne none h = absurd (h refl)
is_some_ne (some i) h = refl

contains-find_first :
    (s : Bytes) (c : ℕ) (t : Bytes) → contains s (c ∷ t) ≡ is_some (find_first (c ∷ t) s)
unfolding contains find is_some
contains-find_first s c t = ground arith

-- `contains` holds exactly of the texts with the other text somewhere in them.
pub contains_iff : (s t : Bytes) → (contains s t ≡ true) ↔ ((a b : Bytes) × (s ≡ a ++ (t ++ b)))
contains_iff s [] = ((λ _. ([], s, refl)), (λ _. unfold contains in refl))
contains_iff s (c ∷ t) = (to, from)
  where
    to : contains s (c ∷ t) ≡ true → (a b : Bytes) × (s ≡ a ++ (c ∷ t ++ b))
    to h = elim (Option-cases (find_first (c ∷ t) s)) [
      | inl e ↦ absurd (is_some-none e (sym (contains-find_first s c t) ∙ h))
      | inr (i, e) ↦ (take i s, drop (i + length (c ∷ t)) s, find_first_sound (c ∷ t) s i e)
    ]

    from : (a b : Bytes) × (s ≡ a ++ (c ∷ t ++ b)) → contains s (c ∷ t) ≡ true
    from (a, b, e) =
        contains-find_first s c t
        ∙ is_some_ne (find_first (c ∷ t) s) (λ none_found.
          find_first_complete (c ∷ t) a b (ap (find_first (c ∷ t)) (sym e) ∙ none_found))

-- Removing a prefix that is there leaves what follows it; one that is not there leaves the text.
pub remove_prefix_cases :
    (s p : Bytes)
    → ((r : Bytes) × (s ≡ p ++ r) × (remove_prefix s p ≡ (r, true)))
      ⊎ (((r : Bytes) → s ≢ p ++ r) × (remove_prefix s p ≡ (s, false)))
unfolding remove_prefix
remove_prefix_cases s p = elim (Bool-cases (starts_with s p)) [
  | inl e ↦
      let (r, split) = (starts_with_iff s p).0 e in
      inl (r, split, rw e (ap (λ t. (t, true)) (ap (drop (length p)) split ∙ drop-append_left p r)))
  | inr e ↦ inr ((λ r h. cc ((starts_with_iff s p).1 (r, h))), rw e)
]

-- Removing a suffix that is there leaves what stands before it; one that is not there leaves the
-- text.
pub remove_suffix_cases :
    (s p : Bytes)
    → ((r : Bytes) × (s ≡ r ++ p) × (remove_suffix s p ≡ (r, true)))
      ⊎ (((r : Bytes) → s ≢ r ++ p) × (remove_suffix s p ≡ (s, false)))
unfolding remove_suffix
remove_suffix_cases s p = elim (Bool-cases (ends_with s p)) [
  | inl e ↦
      let (r, split) = (ends_with_iff s p).0 e in
      let left : length s - length p ≡ length r =
        omega (arith, ap length split, length-append r p) in
      inl (
        r,
        split,
        rw (e, left) (ap (λ t. (t, true)) (ap (take (length r)) split ∙ take-append_left r p)),
      )
  | inr e ↦ inr ((λ r h. cc ((ends_with_iff s p).1 (r, h))), rw e)
]

abbrev Surrounded : Bytes → Bytes → Bytes → Type 0
Surrounded out prefix suffix = (starts_with out prefix ≡ true) × (ends_with out suffix ≡ true)

with_suffix :
    (out prefix suffix : Bytes)
    → starts_with out prefix ≡ true
    → Surrounded (if ends_with out suffix then out else out ++ suffix) prefix suffix
with_suffix out prefix suffix h = elim (Bool-cases (ends_with out suffix)) [
  | inl e ↦ rw e (h, e)
  | inr e ↦
      let (r, split) = (starts_with_iff out prefix).0 h in
      rw e (
        (starts_with_iff (out ++ suffix) prefix).1
            (r ++ suffix, ap (λ t. t ++ suffix) split ∙ append_assoc prefix r suffix),
        (ends_with_iff (out ++ suffix) suffix).1 (out, refl),
      )
]

surround_prefix :
    (s prefix : Bytes) → starts_with (if starts_with s prefix then s else prefix ++ s) prefix ≡ true
surround_prefix s prefix = elim (Bool-cases (starts_with s prefix)) [
  | inl e ↦ rw e e
  | inr e ↦ rw e ((starts_with_iff (prefix ++ s) prefix).1 (s, refl))
]

surround_fixed :
    (s prefix suffix : Bytes)
    → starts_with s prefix ≡ true
    → ends_with s suffix ≡ true
    → surround_if_missing s prefix suffix ≡ s
unfolding surround_if_missing
surround_fixed s prefix suffix f b = rw (f, b)

-- The result begins with the prefix and ends with the suffix, and doing it again changes nothing.
pub surround_if_missing_lem :
    (s prefix suffix : Bytes)
    → (starts_with (surround_if_missing s prefix suffix) prefix ≡ true)
      × (ends_with (surround_if_missing s prefix suffix) suffix ≡ true)
      × (surround_if_missing (surround_if_missing s prefix suffix) prefix suffix
          ≡ surround_if_missing s prefix suffix)
surround_if_missing_lem s prefix suffix =
    let (front, back) = surrounded in (front, back, surround_fixed _ prefix suffix front back)
  where
    surrounded : Surrounded (surround_if_missing s prefix suffix) prefix suffix
    surrounded =
        unfold surround_if_missing in with_suffix _ prefix suffix (surround_prefix s prefix)
