-- ===== src/Ini/Changes.antt =====
-- The sections that an operation makes, changes or removes, and the invariant of the store.
use jaytwo_library.Prelude.{
  ℕ, Bool, [], ◌∷◌, ◌++◌, Bytes, length, get_elem?, set, none, some, ◌≡◌, refl, sym, ap, subst, ◌∙◌,
  inl, inr, All-append, Option-cases,
}
use jaytwo_library.Ini.{
  ValueKind, Section, IniParser, new_section, name_of, ensure_section, upsert_entry, change_section,
  upsert, remove_section, find_section, second,
}
use jaytwo_library.Ini.Names.{at_index, emplace, position, IsIndex}
use jaytwo_library.Ini.Names.Laws.{emplace_self}
use jaytwo_library.Ini.Names.Search.{found_at, names-set}
use jaytwo_library.Ini.Valid.{
  IsSection, IsNamed, IsValid, All-set, All-erase_at, All-get_elem, grown, shrunk,
  upsert_entry-IsSection,
}

pub ensure_new :
    (p : IniParser) (name : Bytes)
    → p.sec_index_ name ≡ none
    → ensure_section p name ≡ (
      record {
        sections_ = p.sections_ ++ (name, new_section) ∷ [];
        sec_index_ = emplace p.sec_index_ name (length p.sections_);
      },
      length p.sections_,
    )
unfolding ensure_section
ensure_new p name new = rw (new, ensure_section) refl

pub ensure_old :
    (p : IniParser) (name : Bytes) (i : ℕ)
    → p.sec_index_ name ≡ some i
    → ensure_section p name ≡ (p, i)
unfolding ensure_section
ensure_old p name i at = rw (at, ensure_section) refl

new_section-IsSection : IsSection new_section
new_section-IsSection = record { distinct = tt; finds = λ n. unfold position in refl }

-- The store is valid, and the section is at the position that comes with it.
abbrev pub Ensured : Bytes → IniParser × ℕ → Type 0
Ensured name (q, i) = IsValid q × (q.sec_index_ name ≡ some i)

pub ensure_section-Ensured :
    (p : IniParser) (name : Bytes) → IsValid p → Ensured name (ensure_section p name)
ensure_section-Ensured p name v = elim (Option-cases (p.sec_index_ name)) [
  | inl new ↦ subst (Ensured name) (sym (ensure_new p name new)) (
    record {
      indexed = grown name_of p.sec_index_ p.sections_ (name, new_section) v.indexed new;
      each =
          All-append IsNamed p.sections_ ((name, new_section) ∷ []) v.each
            (new_section-IsSection, tt);
    },
    emplace_self p.sec_index_ name (length p.sections_) new,
  )
  | inr (i, at) ↦ subst (Ensured name) (sym (ensure_old p name i at)) (v, at)
]

-- The section that an index finds.
pub section_at :
    (p : IniParser) (name : Bytes) (i : ℕ)
    → IsValid p
    → p.sec_index_ name ≡ some i
    → (sec : Section) × (get_elem? p.sections_ i ≡ some (name, sec))
      × (find_section p name ≡ some sec)
      × IsSection sec
unfolding find_section
section_at p name i v at =
    let (x, hit, here, named) =
      found_at name_of p.sections_ name i (sym (v.indexed.finds name) ∙ at) in
    let there : get_elem? p.sections_ i ≡ some (name, x.1) = here ∙ ap (λ n. some (n, x.1)) named in
    (
      x.1,
      there,
      ap second (ap (at_index p.sections_) at ∙ there),
      All-get_elem p.sections_ i (name, x.1) v.each there,
    )

pub change_lem :
    (p : IniParser) (i : ℕ) (f : Section → Section) (name : Bytes) (sec : Section)
    → get_elem? p.sections_ i ≡ some (name, sec)
    → change_section p i f ≡ record p { sections_ = set p.sections_ i (name, f sec) }
unfolding change_section
change_lem p i f name sec here = rw (here, change_section) refl

pub change_section-IsValid :
    (p : IniParser) (name : Bytes) (i : ℕ) (f : Section → Section)
    → IsValid p
    → p.sec_index_ name ≡ some i
    → ((sec : Section) → find_section p name ≡ some sec → IsSection sec → IsSection (f sec))
    → IsValid (change_section p i f)
change_section-IsValid p name i f v at h =
    let (sec, here, found, good) = section_at p name i v at in
    subst IsValid (sym (change_lem p i f name sec here)) (record {
      indexed =
          subst (IsIndex p.sec_index_)
            (sym (names-set name_of p.sections_ (name, f sec) i (sym (v.indexed.finds name) ∙ at)))
            v.indexed;
      each = All-set p.sections_ i (name, f sec) v.each (h sec found good);
    })

-- Setting a value keeps a valid store valid, whether the section and the key were there or not.
pub upsert-IsValid :
    (p : IniParser) (section key value : Bytes) (kind : ValueKind) (literal : Bool)
    → IsValid p
    → IsValid (upsert p section key value kind literal)
unfolding upsert
upsert-IsValid p section key value kind literal v =
    let (good, at) = ensure_section-Ensured p section v in
    change_section-IsValid (ensure_section p section).0 section (ensure_section p section).1
      (λ sec. upsert_entry sec key value kind literal) good at
      (λ sec _ h. upsert_entry-IsSection sec key value kind literal h)

-- Removing a section keeps the store valid, whether the section is there or not.
pub remove_section-IsValid :
    (p : IniParser) (section : Bytes) → IsValid p → IsValid (remove_section p section).0
unfolding remove_section
remove_section-IsValid p section v = elim (Option-cases (p.sec_index_ section)) [
  | inl gone ↦ rw (gone, remove_section) v
  | inr (i, at) ↦
      rw (at, remove_section)
        (record {
          indexed = shrunk name_of p.sec_index_ p.sections_ section i v.indexed at;
          each = All-erase_at p.sections_ i v.each;
        })
]
