-- ===== src/Schedule/Normalizer.antt =====
-- The minutes of the week that a list of ranges covers, before and after `normalize`.
use jaytwo_library.Prelude.{
  ℕ, ◌+◌, ◌*◌, ◌/◌, ◌%◌, ◌≤◌, ◌<◌, max, Bool, true, false, not, ◌&&◌, ◌||◌, List, [], ◌∷◌, ◌++◌,
  map, ltb, leb, ◌==◌, ◌≡◌, ◌⊎◌, inl, inr, refl, ap, ap₂, ◌∙◌, arith, Bool-cases,
}
use jaytwo_library.Schedule.{
  WeeklyRange, Interval, intervals_from_range, intervals_of, before, insert, sort, merge_loop,
  merge_sorted, to_range, normalize,
}

abbrev pub within : Interval → ℕ → ℕ → Bool
within x d m = (x.day == d) && (leb x.start m && leb m x.end)

unfoldable pub covered : List Interval → ℕ → ℕ → Bool
covered [] d m = false
covered (x ∷ xs) d m = within x d m || covered xs d m

-- The second begins no earlier in the week.
abbrev Follows : Interval → Interval → Type 0
Follows x y = (x.day < y.day) ⊎ ((x.day ≡ y.day) × (x.start ≤ y.start))

-- The intervals are in the order of their days and starts.
abbrev Ordered : Interval → List Interval → Type 0
Ordered x [] = Unit
Ordered x (y ∷ ys) = Follows x y × Ordered y ys

or_swap : (a b c : Bool) → (a || (b || c)) ≡ (b || (a || c))
or_swap true true c = refl
or_swap true false c = refl
or_swap false b c = refl

covered-insert :
    (x : Interval) (xs : List Interval) (d m : ℕ) → covered (insert x xs) d m ≡ covered (x ∷ xs) d m
unfolding covered insert
covered-insert x [] d m = refl
covered-insert x (y ∷ ys) d m = elim (Bool-cases (before y x)) [
  | inl e ↦ rw e (
      ap (λ t. within y d m || t) (covered-insert x ys d m)
      ∙ or_swap (within y d m) (within x d m) (covered ys d m))
  | inr e ↦ rw e refl
]

covered-sort : (xs : List Interval) (d m : ℕ) → covered (sort xs) d m ≡ covered xs d m
unfolding sort covered
covered-sort [] d m = refl
covered-sort (x ∷ xs) d m =
    covered-insert x (sort xs) d m ∙ ap (λ t. within x d m || t) (covered-sort xs d m)

within-join :
    (x y : Interval) (d m : ℕ)
    → x.day ≡ y.day
    → x.start ≤ y.start
    → y.start ≤ x.end + 1
    → within (record x { end = max x.end y.end }) d m ≡ (within x d m || within y d m)
within-join x y d m day start near = ground arith

or_assoc : (a b c : Bool) → ((a || b) || c) ≡ (a || (b || c))
or_assoc true b c = refl
or_assoc false b c = refl

Ordered-earlier : (x y : Interval) (zs : List Interval) → Follows x y → Ordered y zs → Ordered x zs
Ordered-earlier x y [] f h = tt
Ordered-earlier x y (z ∷ zs) f (g, h) = (ground (arith, f, g), h)

Ordered-end :
    (x : Interval) (e : ℕ) (zs : List Interval) → Ordered x zs → Ordered (record x { end = e }) zs
Ordered-end x e [] h = tt
Ordered-end x e (z ∷ zs) h = h

covered-merge_loop :
    (back : Interval) (ivs : List Interval) (d m : ℕ)
    → Ordered back ivs
    → covered (merge_loop back ivs) d m ≡ covered (back ∷ ivs) d m
unfolding covered merge_loop
covered-merge_loop back [] d m h = refl
covered-merge_loop back (iv ∷ ivs) d m (o, h) =
    elim (Bool-cases (not (back.day == iv.day) || ltb (back.end + 1) iv.start)) [
      | inl e ↦ rw e (ap (λ t. within back d m || t) (covered-merge_loop iv ivs d m h))
      | inr e ↦ rw e (
          covered-merge_loop (record back { end = max back.end iv.end }) ivs d m
            (Ordered-end back (max back.end iv.end) ivs (Ordered-earlier back iv ivs o h))
          ∙ ap (λ t. t || covered ivs d m)
              (within-join back iv d m (ground (arith, e)) (ground (arith, e, o))
                (ground (arith, e)))
          ∙ or_assoc (within back d m) (within iv d m) (covered ivs d m))
    ]

abbrev Sorted : List Interval → Type 0
Sorted [] = Unit
Sorted (x ∷ xs) = Ordered x xs

not_before : (x y : Interval) → before y x ≡ false → Follows x y
unfolding before
not_before x y h = ground (arith, h)

is_before : (x y : Interval) → before y x ≡ true → Follows y x
unfolding before
is_before x y h = ground (arith, h)

insert-Ordered :
    (a x : Interval) (ys : List Interval) → Follows a x → Ordered a ys → Ordered a (insert x ys)
unfolding insert
insert-Ordered a x [] f h = (f, tt)
insert-Ordered a x (y ∷ ys) f (g, h) = elim (Bool-cases (before y x)) [
  | inl e ↦ rw e (g, insert-Ordered y x ys (is_before x y e) h)
  | inr e ↦ rw e (f, (not_before x y e, h))
]

insert-Sorted : (x : Interval) (ys : List Interval) → Sorted ys → Sorted (insert x ys)
unfolding insert
insert-Sorted x [] h = tt
insert-Sorted x (y ∷ ys) h = elim (Bool-cases (before y x)) [
  | inl e ↦ rw e (insert-Ordered y x ys (is_before x y e) h)
  | inr e ↦ rw e (not_before x y e, h)
]

sort-Sorted : (xs : List Interval) → Sorted (sort xs)
unfolding sort
sort-Sorted [] = tt
sort-Sorted (x ∷ xs) = insert-Sorted x (sort xs) (sort-Sorted xs)

covered-merge_sorted :
    (xs : List Interval) (d m : ℕ) → Sorted xs → covered (merge_sorted xs) d m ≡ covered xs d m
unfolding merge_sorted
covered-merge_sorted [] d m h = refl
covered-merge_sorted (x ∷ xs) d m h = covered-merge_loop x xs d m h

-- A range of one day is read back as the interval that it was made of.
interval-to_range : (x : Interval) → intervals_from_range (to_range x) ≡ x ∷ []
unfolding intervals_from_range
interval-to_range x =
    let self : (x.day == x.day) ≡ true = ground arith in
    let from : x.start / 60 * 60 + x.start % 60 ≡ x.start = omega arith in
    let until : x.end / 60 * 60 + x.end % 60 ≡ x.end = omega arith in rw (self, from, until) refl

intervals_of-to_range : (xs : List Interval) → intervals_of (map to_range xs) ≡ xs
unfolding intervals_of
intervals_of-to_range [] = refl
intervals_of-to_range (x ∷ xs) = ap₂ (◌++◌) (interval-to_range x) (intervals_of-to_range xs)

-- The intervals of the ranges before and after `normalize` cover the same minutes.
pub covered-normalize :
    (input : List WeeklyRange) (d m : ℕ)
    → covered (intervals_of (normalize input)) d m ≡ covered (intervals_of input) d m
unfolding normalize
covered-normalize input d m =
    let sorted = sort (intervals_of input) in
    ap (λ t. covered t d m) (intervals_of-to_range (merge_sorted sorted))
    ∙ covered-merge_sorted sorted d m (sort-Sorted (intervals_of input))
    ∙ covered-sort (intervals_of input) d m
