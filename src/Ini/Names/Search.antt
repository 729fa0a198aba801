-- ===== src/Ini/Names/Search.antt =====
-- A vector of named things searched by name: what an index finds, and what the changes of the
-- vector do to a search.
use jaytwo_library.Prelude.{
  ℕ, zero, suc, true, false, List, [], ◌∷◌, ◌++◌, map, Bytes, set, get_elem?, Option, none, some,
  if◌then◌else◌, ◌≡◌, refl, sym, ap, ◌∙◌, inl, inr, Bool-cases,
}
use jaytwo_library.Text.{str_eq, next}
use jaytwo_library.Text.Find.{str_eq_iff}
use jaytwo_library.Ini.Names.{Index, at_index, erase_at, position, Distinct, IsIndex}
use jaytwo_library.Ini.Names.Laws.{
  position_here, position_there, some≢none, position_cases, str_eq_sym,
}

str_eq_other : (n a b : Bytes) → n ≡ b → str_eq a b ≡ false → str_eq n a ≡ false
str_eq_other n a b same other = ap (λ t. str_eq t a) same ∙ str_eq_sym b a ∙ other

module _ {ℓ} {A : Type ℓ} (name_of : A → Bytes) where
  -- The first thing of the name.
  unfoldable pub search : List A → Bytes → Option A
  search [] n = none
  search (x ∷ xs) n = let rest = search xs n in if str_eq n (name_of x) then some x else rest

  search_here :
      (x : A) (xs : List A) (n : Bytes) → str_eq n (name_of x) ≡ true → search (x ∷ xs) n ≡ some x
  unfolding search
  search_here x xs n e = rw e refl

  search_there :
      (x : A) (xs : List A) (n : Bytes)
      → str_eq n (name_of x) ≡ false
      → search (x ∷ xs) n ≡ search xs n
  unfolding search
  search_there x xs n e = rw e refl

  at_index-next : (x : A) (xs : List A) (o : Option ℕ) → at_index (x ∷ xs) (next o) ≡ at_index xs o
  at_index-next x xs none = refl
  at_index-next x xs (some i) = refl

  pub at_index-position :
      (xs : List A) (n : Bytes) → at_index xs (position (map name_of xs) n) ≡ search xs n
  at_index-position [] n = unfold position search in refl
  at_index-position (x ∷ xs) n = elim (Bool-cases (str_eq n (name_of x))) [
    | inl e ↦
        ap (at_index (x ∷ xs)) (position_here (map name_of xs) (name_of x) n e)
        ∙ sym (search_here x xs n e)
    | inr e ↦
        ap (at_index (x ∷ xs)) (position_there (map name_of xs) (name_of x) n e)
        ∙ at_index-next x xs (position (map name_of xs) n)
        ∙ at_index-position xs n
        ∙ sym (search_there x xs n e)
  ]

  -- A right index finds what a search finds.
  pub lookup_lem :
      (index : Index) (xs : List A) (n : Bytes)
      → IsIndex index (map name_of xs)
      → at_index xs (index n) ≡ search xs n
  lookup_lem index xs n h = ap (at_index xs) (h.finds n) ∙ at_index-position xs n

  pub search-snoc :
      (xs : List A) (x : A) (n : Bytes)
      → search (xs ++ x ∷ []) n ≡ elim (search xs n) [
        | some y ↦ some y
        | none ↦ if str_eq n (name_of x) then some x else none
      ]
  unfolding search
  search-snoc [] x n = refl
  search-snoc (y ∷ xs) x n = elim (Bool-cases (str_eq n (name_of y))) [
    | inl e ↦ rw e refl
    | inr e ↦ rw e (search-snoc xs x n)
  ]

  search-none : (xs : List A) (n : Bytes) → position (map name_of xs) n ≡ none → search xs n ≡ none
  search-none xs n h = sym (at_index-position xs n) ∙ ap (at_index xs) h

  -- A thing of the same name is written over the one there.
  pub search-set :
      (xs : List A) (x : A) (i : ℕ) (n : Bytes)
      → position (map name_of xs) (name_of x) ≡ some i
      → search (set xs i x) n ≡ (if str_eq n (name_of x) then some x else search xs n)
  search-set [] x i n at = absurd (some≢none (sym at ∙ unfold position in refl))
  search-set (y ∷ xs) x i n at =
      elim (position_cases (map name_of xs) (name_of y) (name_of x) i at) [
        | inl (same, z) ↦ rw z (elim (Bool-cases (str_eq n (name_of x))) [
          | inl e ↦ rw e (search_here x xs n e)
          | inr e ↦
              rw e
                (search_there x xs n e ∙ sym (search_there y xs n (ap (str_eq n) (sym same) ∙ e)))
        ])
        | inr (other, k, z, found) ↦ rw z (elim (Bool-cases (str_eq n (name_of y))) [
          | inl e ↦
              let same : n ≡ name_of y = (str_eq_iff n (name_of y)).0 e in
              let miss : str_eq n (name_of x) ≡ false =
                str_eq_other n (name_of x) (name_of y) same other in
              rw miss (search_here y (set xs k x) n e ∙ sym (search_here y xs n e))
          | inr e ↦
              search_there y (set xs k x) n e
              ∙ search-set xs x k n found
              ∙ ap (λ r. if str_eq n (name_of x) then some x else r) (sym (search_there y xs n e))
        ])
      ]

  pub names-set :
      (xs : List A) (x : A) (i : ℕ)
      → position (map name_of xs) (name_of x) ≡ some i
      → map name_of (set xs i x) ≡ map name_of xs
  names-set [] x i at = refl
  names-set (y ∷ xs) x i at = elim (position_cases (map name_of xs) (name_of y) (name_of x) i at) [
    | inl (same, z) ↦ rw z (ap (λ t. t ∷ map name_of xs) same)
    | inr (other, k, z, found) ↦ rw z (ap (◌∷◌ (name_of y)) (names-set xs x k found))
  ]

  pub names-erase_at :
      (xs : List A) (i : ℕ) → map name_of (erase_at xs i) ≡ erase_at (map name_of xs) i
  names-erase_at [] i = refl
  names-erase_at (x ∷ xs) zero = refl
  names-erase_at (x ∷ xs) (suc i) = ap (◌∷◌ (name_of x)) (names-erase_at xs i)

  -- The other names are found as before, and the erased one no more.
  pub search-erase_at :
      (xs : List A) (gone : Bytes) (i : ℕ) (n : Bytes)
      → Distinct (map name_of xs)
      → position (map name_of xs) gone ≡ some i
      → search (erase_at xs i) n ≡ (if str_eq n gone then none else search xs n)
  search-erase_at [] gone i n d at = absurd (some≢none (sym at ∙ unfold position in refl))
  search-erase_at (x ∷ xs) gone i n d at =
      elim (position_cases (map name_of xs) (name_of x) gone i at) [
        | inl (same, z) ↦ rw z (elim (Bool-cases (str_eq n gone)) [
          | inl e ↦ rw e (
              search-none xs n
                (ap (position (map name_of xs)) ((str_eq_iff n gone).0 e ∙ same) ∙ d.0))
          | inr e ↦ rw e (sym (search_there x xs n (ap (str_eq n) (sym same) ∙ e)))
        ])
        | inr (other, k, z, found) ↦ rw z (elim (Bool-cases (str_eq n (name_of x))) [
          | inl e ↦
              let same : n ≡ name_of x = (str_eq_iff n (name_of x)).0 e in
              let miss : str_eq n gone ≡ false = str_eq_other n gone (name_of x) same other in
              rw miss (search_here x (erase_at xs k) n e ∙ sym (search_here x xs n e))
          | inr e ↦
              search_there x (erase_at xs k) n e
              ∙ search-erase_at xs gone k n d.1 found
              ∙ ap (λ r. if str_eq n gone then none else r) (sym (search_there x xs n e))
        ])
      ]

  -- A thing whose name has a position is there.
  pub found_at :
      (xs : List A) (n : Bytes) (i : ℕ)
      → position (map name_of xs) n ≡ some i
      → (x : A) × (search xs n ≡ some x) × (get_elem? xs i ≡ some x) × (name_of x ≡ n)
  found_at [] n i at = absurd (some≢none (sym at ∙ unfold position in refl))
  found_at (x ∷ xs) n i at = elim (position_cases (map name_of xs) (name_of x) n i at) [
    | inl (same, z) ↦
        (x, search_here x xs n ((str_eq_iff n (name_of x)).1 same), rw z refl, sym same)
    | inr (other, k, z, found) ↦
        let (y, hit, here, named) = found_at xs n k found in
        (y, search_there x xs n other ∙ hit, rw z here, named)
  ]
