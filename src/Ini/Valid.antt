-- ===== src/Ini/Valid.antt =====
-- The invariant of the store, and the operations on one section.
use jaytwo_library.Prelude.{
  ℕ, zero, suc, Bool, List, [], ◌∷◌, ◌++◌, map, Bytes, length, get_elem?, set, none, some, ◌≡◌,
  refl, sym, ap, subst, ◌∙◌, inl, inr, All, Option-cases,
}
use jaytwo_library.Ini.{
  ValueKind, Entry, Section, IniParser, key_of, name_of, upsert_entry, remove_entry,
}
use jaytwo_library.Ini.Names.{Index, emplace, erase_name, reindex_loop, erase_at, position, IsIndex}
use jaytwo_library.Ini.Names.Laws.{emplace-IsIndex, reindex-IsIndex}
use jaytwo_library.Ini.Names.Search.{found_at, names-set, names-erase_at}

-- The keys of a section are distinct, and its index is right.
abbrev pub IsSection : Section → Type 0
IsSection sec = IsIndex sec.index (map key_of sec.entries)

abbrev pub IsNamed : Bytes × Section → Type 0
IsNamed (name, sec) = IsSection sec

-- The names of the sections are distinct, their index is right, and every section is.
pub record IsValid (p : IniParser) : Type 0 where
  pub indexed : IsIndex p.sec_index_ (map name_of p.sections_)
  pub each : All IsNamed p.sections_

pub length-map {ℓ κ} :
    {A : Type ℓ} {B : Type κ} (f : A → B) (xs : List A) → length (map f xs) ≡ length xs
length-map f [] = refl
length-map f (x ∷ xs) = ap suc (length-map f xs)

pub map-snoc {ℓ κ} :
    {A : Type ℓ} {B : Type κ} (f : A → B) (xs : List A) (x : A)
    → map f (xs ++ x ∷ []) ≡ map f xs ++ f x ∷ []
map-snoc f [] x = refl
map-snoc f (y ∷ xs) x = ap (◌∷◌ (f y)) (map-snoc f xs x)

pub All-set :
    (xs : List (Bytes × Section)) (i : ℕ) (x : Bytes × Section)
    → All IsNamed xs
    → IsNamed x
    → All IsNamed (set xs i x)
All-set [] i x h hx = tt
All-set (y ∷ xs) zero x (hy, h) hx = (hx, h)
All-set (y ∷ xs) (suc i) x (hy, h) hx = (hy, All-set xs i x h hx)

pub All-erase_at :
    (xs : List (Bytes × Section)) (i : ℕ) → All IsNamed xs → All IsNamed (erase_at xs i)
All-erase_at [] i h = h
All-erase_at (y ∷ xs) zero (hy, h) = h
All-erase_at (y ∷ xs) (suc i) (hy, h) = (hy, All-erase_at xs i h)

pub some_inj {ℓ} : {A : Type ℓ} {x y : A} → some x ≡ some y → x ≡ y
some_inj {x} {y} e = ap (λ o. elim o [ some z ↦ z | none ↦ x ]) e

pub All-get_elem :
    (xs : List (Bytes × Section)) (i : ℕ) (x : Bytes × Section)
    → All IsNamed xs
    → get_elem? xs i ≡ some x
    → IsNamed x
All-get_elem [] i x h e = absurd (cc)
All-get_elem (y ∷ xs) zero x (hy, h) e = subst IsNamed (some_inj e) hy
All-get_elem (y ∷ xs) (suc i) x (hy, h) e = All-get_elem xs i x h e

-- The things are named as before, with one more at the end.
pub grown {ℓ} :
    {A : Type ℓ} (f : A → Bytes) (index : Index) (xs : List A) (x : A)
    → IsIndex index (map f xs)
    → index (f x) ≡ none
    → IsIndex (emplace index (f x) (length xs)) (map f (xs ++ x ∷ []))
grown f index xs x h new =
    subst (λ n. IsIndex (emplace index (f x) n) (map f (xs ++ x ∷ []))) (length-map f xs)
      (subst (IsIndex (emplace index (f x) (length (map f xs)))) (sym (map-snoc f xs x))
        (emplace-IsIndex index (map f xs) (f x) h new))

pub shrunk {ℓ} :
    {A : Type ℓ} (f : A → Bytes) (index : Index) (xs : List A) (n : Bytes) (i : ℕ)
    → IsIndex index (map f xs)
    → index n ≡ some i
    → IsIndex (reindex_loop (map f (erase_at xs i)) 0 (erase_name index n)) (map f (erase_at xs i))
shrunk f index xs n i h at =
    subst (λ t. IsIndex (reindex_loop t 0 (erase_name index n)) t) (sym (names-erase_at f xs i))
      (reindex-IsIndex index (map f xs) n i h at)

abbrev pub written : Bytes → Bytes → ValueKind → Bool → Entry
written key value kind literal = record {
  key = key;
  value = value;
  kind = kind;
  string_literal = literal;
}

pub upsert_new :
    (sec : Section) (key value : Bytes) (kind : ValueKind) (literal : Bool)
    → sec.index key ≡ none
    → upsert_entry sec key value kind literal ≡ record {
      entries = sec.entries ++ written key value kind literal ∷ [];
      index = emplace sec.index key (length sec.entries);
    }
unfolding upsert_entry
upsert_new sec key value kind literal new = rw (new, upsert_entry) refl

pub upsert_old :
    (sec : Section) (key value : Bytes) (kind : ValueKind) (literal : Bool) (i : ℕ) (e : Entry)
    → sec.index key ≡ some i
    → get_elem? sec.entries i ≡ some e
    → upsert_entry sec key value kind literal ≡ record sec {
      entries =
          set sec.entries i (record e { value = value; kind = kind; string_literal = literal });
    }
unfolding upsert_entry
upsert_old sec key value kind literal i e at here = rw (at, here, upsert_entry) refl

pub upsert_entry-IsSection :
    (sec : Section) (key value : Bytes) (kind : ValueKind) (literal : Bool)
    → IsSection sec
    → IsSection (upsert_entry sec key value kind literal)
upsert_entry-IsSection sec key value kind literal h = elim (Option-cases (sec.index key)) [
  | inl new ↦
      subst IsSection (sym (upsert_new sec key value kind literal new))
        (grown key_of sec.index sec.entries (written key value kind literal) h new)
  | inr (i, at) ↦
      let (e, hit, here, named) = found_at key_of sec.entries key i (sym (h.finds key) ∙ at) in
      let over = record e { value = value; kind = kind; string_literal = literal } in
      subst IsSection (sym (upsert_old sec key value kind literal i e at here)) (
        subst (IsIndex sec.index)
          (sym (
            names-set key_of sec.entries over i
              (ap (position (map key_of sec.entries)) named ∙ sym (h.finds key) ∙ at)))
          h)
]

pub remove_entry-IsSection :
    (sec : Section) (key : Bytes) (i : ℕ)
    → IsSection sec
    → sec.index key ≡ some i
    → IsSection (remove_entry sec key i)
unfolding remove_entry
remove_entry-IsSection sec key i h at = shrunk key_of sec.index sec.entries key i h at
