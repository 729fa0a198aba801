-- ===== src/Ini/Store.antt =====
-- What the getters find after each operation of the store.
use jaytwo_library.Prelude.{
  ℕ, Bool, true, false, ◌&&◌, map, Bytes, get_elem?, Option, none, some, if◌then◌else◌, ◌≡◌, ◌≢◌,
  refl, sym, ap, ◌∙◌, inl, inr, Option-cases,
}
use jaytwo_library.Text.{str_eq}
use jaytwo_library.Text.Find.{str_eq_iff}
use jaytwo_library.Ini.{
  ValueKind, Entry, Section, IniParser, new_section, key_of, name_of, second, ensure_section,
  find_section, find_entry, upsert_entry, change_section, upsert, entry_at, remove_entry,
}
use jaytwo_library.Ini.Names.{at_index, position}
use jaytwo_library.Ini.Names.Search.{
  search, lookup_lem, search-snoc, search-set, search-erase_at, found_at,
}
use jaytwo_library.Ini.Valid.{
  IsSection, IsValid, written, upsert_new, upsert_old, upsert_entry-IsSection,
  remove_entry-IsSection,
}
use jaytwo_library.Ini.Changes.{
  ensure_new, ensure_old, ensure_section-Ensured, section_at, change_lem, upsert-IsValid,
}

pub find_entry-search :
    (sec : Section) (k : Bytes) → IsSection sec → find_entry sec k ≡ search key_of sec.entries k
unfolding find_entry
find_entry-search sec k h = lookup_lem key_of sec.index sec.entries k h

pub some-not-none {ℓ} : {A : Type ℓ} {y : A} → some y ≢ none
some-not-none e = cc

snoc_cases {ℓ} :
    {A : Type ℓ} (o : Option A) (x : A) (b : Bool)
    → (b ≡ true → o ≡ none)
    → elim o [ some y ↦ some y | none ↦ if b then some x else none ] ≡ (if b then some x else o)
snoc_cases none x b h = refl
snoc_cases (some y) x true h = absurd (some-not-none (h refl))
snoc_cases (some y) x false h = refl

find_entry-upsert :
    (sec : Section) (key value : Bytes) (kind : ValueKind) (literal : Bool) (k : Bytes)
    → IsSection sec
    → find_entry (upsert_entry sec key value kind literal) k
      ≡ (if str_eq k key then some (written key value kind literal) else find_entry sec k)
find_entry-upsert sec key value kind literal k h =
    let w = written key value kind literal in
    let good = upsert_entry-IsSection sec key value kind literal h in
    let before = find_entry-search sec k h in
    find_entry-search (upsert_entry sec key value kind literal) k good
    ∙ elim (Option-cases (sec.index key)) [
      | inl new ↦
          let missing : search key_of sec.entries key ≡ none =
            sym (lookup_lem key_of sec.index sec.entries key h) ∙ ap (at_index sec.entries) new in
          ap (λ s. search key_of s.entries k) (upsert_new sec key value kind literal new)
          ∙ search-snoc key_of sec.entries w k
          ∙ snoc_cases (search key_of sec.entries k) w (str_eq k key)
              (λ e. ap (search key_of sec.entries) ((str_eq_iff k key).0 e) ∙ missing)
          ∙ ap (λ r. if str_eq k key then some w else r) (sym before)
      | inr (i, at) ↦
          let (e, hit, here, named) = found_at key_of sec.entries key i (sym (h.finds key) ∙ at) in
          let over = record e { value = value; kind = kind; string_literal = literal } in
          ap (λ s. search key_of s.entries k) (upsert_old sec key value kind literal i e at here)
          ∙ search-set key_of sec.entries over i k
              (ap (position (map key_of sec.entries)) named ∙ sym (h.finds key) ∙ at)
          ∙ ap
              (λ t.
                if str_eq k t
                then some (written t value kind literal)
                else search key_of sec.entries k)
              named
          ∙ ap (λ r. if str_eq k key then some w else r) (sym before)
    ]

pub find_entry-remove :
    (sec : Section) (key : Bytes) (i : ℕ) (k : Bytes)
    → IsSection sec
    → sec.index key ≡ some i
    → find_entry (remove_entry sec key i) k ≡ (if str_eq k key then none else find_entry sec k)
find_entry-remove sec key i k h at =
    find_entry-search (remove_entry sec key i) k (remove_entry-IsSection sec key i h at)
    ∙ unfold remove_entry in
      search-erase_at key_of sec.entries key i k h.distinct (sym (h.finds key) ∙ at)
      ∙ ap (λ r. if str_eq k key then none else r) (sym (find_entry-search sec k h))

-- What the getters find in what a search of the sections gives.
unfoldable pub entry_in : Option (Bytes × Section) → Bytes → Option Entry
entry_in none k = none
entry_in (some x) k = find_entry x.1 k

entry_second :
    (o : Option (Bytes × Section)) (k : Bytes)
    → elim (second o) [ some sec ↦ find_entry sec k | none ↦ none ] ≡ entry_in o k
unfolding entry_in
entry_second none k = refl
entry_second (some x) k = refl

pub entry_at-search :
    (p : IniParser) (s k : Bytes)
    → IsValid p
    → entry_at p s k ≡ entry_in (search name_of p.sections_ s) k
unfolding entry_at find_section
entry_at-search p s k v =
    entry_second (at_index p.sections_ (p.sec_index_ s)) k
    ∙ ap (λ o. entry_in o k) (lookup_lem name_of p.sec_index_ p.sections_ s v.indexed)

entry_in-new :
    (o : Option (Bytes × Section)) (s : Bytes) (b : Bool) (k : Bytes)
    → entry_in (elim o [ some y ↦ some y | none ↦ if b then some (s, new_section) else none ]) k
      ≡ entry_in o k
unfolding entry_in find_entry
entry_in-new none s true k = refl
entry_in-new none s false k = refl
entry_in-new (some y) s b k = refl

-- A section that is made is empty.
entry_at-ensure :
    (p : IniParser) (name s k : Bytes)
    → IsValid p
    → entry_at (ensure_section p name).0 s k ≡ entry_at p s k
entry_at-ensure p name s k v = elim (Option-cases (p.sec_index_ name)) [
  | inl new ↦
      entry_at-search (ensure_section p name).0 s k (ensure_section-Ensured p name v).0
      ∙ ap (λ q. entry_in (search name_of q.0.sections_ s) k) (ensure_new p name new)
      ∙ ap (λ o. entry_in o k) (search-snoc name_of p.sections_ (name, new_section) s)
      ∙ entry_in-new (search name_of p.sections_ s) name (str_eq s name) k
      ∙ sym (entry_at-search p s k v)
  | inr (i, at) ↦ ap (λ q. entry_at q.0 s k) (ensure_old p name i at)
]

pub entry_in-if :
    (b : Bool) (x : Bytes × Section) (o : Option (Bytes × Section)) (k : Bytes)
    → entry_in (if b then some x else o) k ≡ (if b then find_entry x.1 k else entry_in o k)
unfolding entry_in
entry_in-if true x o k = refl
entry_in-if false x o k = refl

pub entry_at-change :
    (p : IniParser) (name : Bytes) (i : ℕ) (f : Section → Section) (sec : Section) (s k : Bytes)
    → IsValid p
    → IsValid (change_section p i f)
    → p.sec_index_ name ≡ some i
    → get_elem? p.sections_ i ≡ some (name, sec)
    → entry_at (change_section p i f) s k
      ≡ (if str_eq s name then find_entry (f sec) k else entry_at p s k)
entry_at-change p name i f sec s k v good at here =
    entry_at-search (change_section p i f) s k good
    ∙ ap (λ q. entry_in (search name_of q.sections_ s) k) (change_lem p i f name sec here)
    ∙ ap (λ o. entry_in o k)
        (search-set name_of p.sections_ (name, f sec) i s (sym (v.indexed.finds name) ∙ at))
    ∙ entry_in-if (str_eq s name) (name, f sec) (search name_of p.sections_ s) k
    ∙ ap (λ r. if str_eq s name then find_entry (f sec) k else r) (sym (entry_at-search p s k v))

-- The getters find the section that the index finds.
pub entry_at-found :
    (p : IniParser) (name k : Bytes) (sec : Section)
    → find_section p name ≡ some sec
    → entry_at p name k ≡ find_entry sec k
unfolding entry_at
entry_at-found p name k sec found = rw (found, entry_at) refl

pub nested_if {ℓ} :
    {A : Type ℓ} (b c : Bool) (x y z : A)
    → (b ≡ true → y ≡ z)
    → (if b then (if c then x else y) else z) ≡ (if b && c then x else z)
nested_if true true x y z h = refl
nested_if true false x y z h = h refl
nested_if false c x y z h = refl

-- After an upsert in a valid store, the getters find the new entry under its section and key, and
-- under every other section or key what they found before, whether the section and the key were
-- there or not.
pub entry_at-upsert :
    (p : IniParser) (section key value : Bytes) (kind : ValueKind) (literal : Bool) (s k : Bytes)
    → IsValid p
    → entry_at (upsert p section key value kind literal) s k ≡ (
        if str_eq s section && str_eq k key
        then some (written key value kind literal)
        else entry_at p s k)
unfolding upsert
entry_at-upsert p section key value kind literal s k v =
    let q = (ensure_section p section).0 in
    let i = (ensure_section p section).1 in
    let f : Section → Section = λ sec. upsert_entry sec key value kind literal in
    let (good, at) = ensure_section-Ensured p section v in
    let (sec, here, found, h) = section_at q section i good at in
    entry_at-change q section i f sec s k good (upsert-IsValid p section key value kind literal v)
      at here
    ∙ ap (λ r. if str_eq s section then r else entry_at q s k)
        (find_entry-upsert sec key value kind literal k h)
    ∙ nested_if (str_eq s section) (str_eq k key) (some (written key value kind literal))
        (find_entry sec k) (entry_at q s k)
        (λ e. sym (
          ap (λ t. entry_at q t k) ((str_eq_iff s section).0 e)
          ∙ entry_at-found q section k sec found))
    ∙ ap
        (λ r. if str_eq s section && str_eq k key then some (written key value kind literal) else r)
        (entry_at-ensure p section s k v)
