-- ===== src/Ini/SectionRemoval.antt =====
-- The removal of a section: what the getters find afterwards, and what is returned.
use jaytwo_library.Prelude.{
  ℕ, Bool, true, false, map, Bytes, Option, none, some, if◌then◌else◌, ◌≡◌, refl, sym, ap, ◌∙◌, inl,
  inr, Option-cases,
}
use jaytwo_library.Text.{str_eq}
use jaytwo_library.Text.Find.{str_eq_iff}
use jaytwo_library.StringBasic.Affix.{is_some}
use jaytwo_library.Ini.{
  Section, IniParser, name_of, find_section, entry_at, remove_section, has_section,
}
use jaytwo_library.Ini.Names.{erase_at, erase_name, reindex_loop}
use jaytwo_library.Ini.Names.Search.{search, search-erase_at}
use jaytwo_library.Ini.Valid.{IsValid}
use jaytwo_library.Ini.Changes.{remove_section-IsValid}
use jaytwo_library.Ini.Store.{entry_in, entry_at-search}
use jaytwo_library.Ini.Removal.{kept_if, missing_section, no_entry}

remove_old :
    (p : IniParser) (section : Bytes) (i : ℕ)
    → p.sec_index_ section ≡ some i
    → remove_section p section ≡ (
      record {
        sections_ = erase_at p.sections_ i;
        sec_index_ =
            reindex_loop (map name_of (erase_at p.sections_ i)) 0 (erase_name p.sec_index_ section);
      },
      true,
    )
unfolding remove_section
remove_old p section i at = rw (at, remove_section) refl

has_old :
    (p : IniParser) (section : Bytes) (i : ℕ)
    → p.sec_index_ section ≡ some i
    → has_section p section ≡ true
unfolding has_section is_some
has_old p section i at = rw (at, has_section) refl

entry_in-none :
    (b : Bool) (o : Option (Bytes × Section)) (k : Bytes)
    → entry_in (if b then none else o) k ≡ (if b then none else entry_in o k)
unfolding entry_in
entry_in-none true o k = refl
entry_in-none false o k = refl

-- What holds of the result of the removal of a section.
pub record SectionRemoved (p : IniParser) (section : Bytes) (r : IniParser × Bool) : Type 0 where
  pub valid : IsValid r.0
  pub told : r.1 ≡ has_section p section
  pub found : (s k : Bytes) → entry_at r.0 s k ≡ (if str_eq s section then none else entry_at p s k)

-- Removing a section of a valid store tells whether it was there, keeps the store valid, and makes
-- the getters find nothing under the section and what they found before under every other.
pub remove_section_lem :
    (p : IniParser) (section : Bytes)
    → IsValid p
    → SectionRemoved p section (remove_section p section)
unfolding remove_section
remove_section_lem p section v = elim (Option-cases (p.sec_index_ section)) [
  | inl gone ↦
      let missing : find_section p section ≡ none = missing_section p section gone in
      rw (gone, remove_section)
        (record {
          valid = v;
          told = unfold has_section is_some in sym (rw (gone, has_section) refl);
          found = λ s k. kept_if (str_eq s section) (entry_at p s k) (λ e.
              ap (λ t. entry_at p t k) ((str_eq_iff s section).0 e) ∙ no_entry p section k missing);
        })
  | inr (i, at) ↦
      let good : IsValid (remove_section p section).0 = remove_section-IsValid p section v in
      let out = (remove_section p section).0 in
      record {
        valid = good;
        told = ap (λ r. r.1) (remove_old p section i at) ∙ sym (has_old p section i at);
        found = λ s k.
            entry_at-search out s k good
            ∙ ap (λ q. entry_in (search name_of q.0.sections_ s) k) (remove_old p section i at)
            ∙ ap (λ o. entry_in o k)
                (search-erase_at name_of p.sections_ section i s v.indexed.distinct
                  (sym (v.indexed.finds section) ∙ at))
            ∙ entry_in-none (str_eq s section) (search name_of p.sections_ s) k
            ∙ ap (λ r. if str_eq s section then none else r) (sym (entry_at-search p s k v));
      }
]
