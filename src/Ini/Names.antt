-- ===== src/Ini/Names.antt =====
-- The `std::map<std::string, std::size_t>` that stands beside a vector and says at which position a
-- name is: `sec_index_` beside `sections_`, and `section::index` beside `section::entries`.
pub mod Laws
pub mod Search
use jaytwo_library.Prelude.{
  ℕ, ◌+◌, ◌-◌, ◌≤◌, ◌<◌, zero, suc, Bool, true, false, List, [], ◌∷◌, ◌++◌, Bytes, length,
  get_elem?, Option, none, some, if◌then◌else◌, ◌≡◌, ◌≢◌, refl, sym, ap, subst, ◌∙◌, arith, inl,
  inr, Bool-cases, Option-cases, length-append,
}
use jaytwo_library.Text.{str_eq, next}
use jaytwo_library.Text.Find.{str_eq_iff}

abbrev pub Index : Type 0
Index = Bytes → Option ℕ

abbrev pub empty_index : Index
empty_index name = none

-- `index[name] = i`.
unfoldable pub assign : Index → Bytes → ℕ → Index
assign index name i other = if str_eq other name then some i else index other

-- `index.emplace(name, i)`, which keeps a value that is there.
unfoldable pub emplace : Index → Bytes → ℕ → Index
unfolding assign
emplace index name i = elim (index name) [ some j ↦ index | none ↦ assign index name i ]

-- `index.erase(it)`.
unfoldable pub erase_name : Index → Bytes → Index
erase_name index name other = if str_eq other name then none else index other

-- `for (i = 0; i < names.size(); ++i) index[names[i]] = i`, from `i` on.
unfoldable pub reindex_loop : List Bytes → ℕ → Index → Index
unfolding assign
reindex_loop [] i index = index
reindex_loop (name ∷ names) i index = reindex_loop names (suc i) (assign index name i)

-- `entries.erase(entries.begin() + i)`.
abbrev pub erase_at {ℓ} : {A : Type ℓ} → List A → ℕ → List A
erase_at [] i = []
erase_at (x ∷ xs) zero = xs
erase_at (x ∷ xs) (suc i) = x ∷ erase_at xs i

-- What the vector holds at the position that `find` in the index gives.
abbrev pub at_index {ℓ} : {A : Type ℓ} → List A → Option ℕ → Option A
at_index xs none = none
at_index xs (some i) = get_elem? xs i

-- Where a name is, by search.
unfoldable pub position : List Bytes → Bytes → Option ℕ
position [] name = none
position (n ∷ names) name =
    let rest = next (position names name) in if str_eq name n then some 0 else rest

abbrev pub Distinct : List Bytes → Type 0
Distinct [] = Unit
Distinct (n ∷ names) = (position names n ≡ none) × Distinct names

-- The names are distinct, and the index finds each of them where a search does.
pub record IsIndex (index : Index) (names : List Bytes) : Type 0 where
  pub distinct : Distinct names
  pub finds : (name : Bytes) → index name ≡ position names name
