-- ===== src/Ini/Removal.antt =====
-- The removal of an entry: what the getters find afterwards, and what is returned.
use jaytwo_library.Prelude.{
  ℕ, Bool, true, false, ◌&&◌, Bytes, Option, none, some, if◌then◌else◌, ◌≡◌, ◌≢◌, refl, sym, ap,
  ◌∙◌, inl, inr, Option-cases, Bool-cases,
}
use jaytwo_library.Text.{str_eq}
use jaytwo_library.Text.Find.{str_eq_iff}
use jaytwo_library.StringBasic.Affix.{is_some}
use jaytwo_library.Ini.{
  Section, IniParser, find_section, find_entry, change_section, entry_at, remove_entry, remove, has,
}
use jaytwo_library.Ini.Valid.{IsValid, remove_entry-IsSection, some_inj}
use jaytwo_library.Ini.Changes.{section_at, change_section-IsValid}
use jaytwo_library.Ini.Store.{find_entry-remove, entry_at-change, entry_at-found, nested_if}

-- What holds of the result of a removal: it is valid, tells whether the key was there, and the
-- getters find nothing under the key and what they found before under the others.
pub record Removed (p : IniParser) (section key : Bytes) (r : IniParser × Bool) : Type 0 where
  pub valid : IsValid r.0
  pub told : r.1 ≡ has p section key
  pub found :
      (s k : Bytes)
      → entry_at r.0 s k ≡ (if str_eq s section && str_eq k key then none else entry_at p s k)

false-not-true : false ≢ true
false-not-true e = cc

pub kept_if {ℓ} :
    {A : Type ℓ} (b : Bool) (o : Option A) → (b ≡ true → o ≡ none) → o ≡ (if b then none else o)
kept_if true o h = h refl
kept_if false o h = refl

both : (s a k b : Bytes) → (str_eq s a && str_eq k b) ≡ true → (s ≡ a) × (k ≡ b)
both s a k b e = elim (Bool-cases (str_eq s a)) [
  | inl l ↦ ((str_eq_iff s a).0 l, (str_eq_iff k b).0 (sym (ap (λ t. t && str_eq k b) l) ∙ e))
  | inr r ↦ absurd (false-not-true (sym (ap (λ t. t && str_eq k b) r) ∙ e))
]

-- A key that is not there is not removed.
untouched :
    (p : IniParser) (section key : Bytes)
    → IsValid p
    → entry_at p section key ≡ none
    → has p section key ≡ false
    → Removed p section key (p, false)
untouched p section key v gone lacks = record {
  valid = v;
  told = sym lacks;
  found = λ s k. kept_if (str_eq s section && str_eq k key) (entry_at p s k) (λ e.
      let (same, same') = both s section k key e in
      ap (λ t. entry_at p t k) same ∙ ap (entry_at p section) same' ∙ gone);
}

removed :
    (p : IniParser) (section key : Bytes) (at i : ℕ) (sec : Section)
    → IsValid p
    → p.sec_index_ section ≡ some at
    → find_section p section ≡ some sec
    → sec.index key ≡ some i
    → Removed p section key (change_section p at (λ s. remove_entry s key i), true)
removed p section key at i sec v there found hit =
    let f : Section → Section = λ s. remove_entry s key i in
    let (sec', here, found', h) = section_at p section at v there in
    let same : sec' ≡ sec = some_inj (sym found' ∙ found) in
    let hit' : sec'.index key ≡ some i = ap (λ t. t.index key) same ∙ hit in
    let good : IsValid (change_section p at f) =
      change_section-IsValid p section at f v there (λ t e ht.
        remove_entry-IsSection t key i ht
          (ap (λ u. u.index key) (some_inj (sym e ∙ found)) ∙ hit)) in
    record {
      valid = good;
      told = unfold has is_some in sym (rw (found, hit, has) refl);
      found = λ s k.
          entry_at-change p section at f sec' s k v good there here
          ∙ ap (λ r. if str_eq s section then r else entry_at p s k)
              (find_entry-remove sec' key i k h hit')
          ∙ nested_if (str_eq s section) (str_eq k key) none (find_entry sec' k) (entry_at p s k)
              (λ e. sym (
                ap (λ t. entry_at p t k) ((str_eq_iff s section).0 e)
                ∙ entry_at-found p section k sec' found'));
    }

pub missing_section :
    (p : IniParser) (section : Bytes) → p.sec_index_ section ≡ none → find_section p section ≡ none
unfolding find_section
missing_section p section gone = rw (gone, find_section) refl

pub no_entry :
    (p : IniParser) (section key : Bytes)
    → find_section p section ≡ none
    → entry_at p section key ≡ none
unfolding entry_at
no_entry p section key missing = rw (missing, entry_at) refl

no_key :
    (p : IniParser) (section key : Bytes)
    → find_section p section ≡ none
    → has p section key ≡ false
unfolding has
no_key p section key missing = rw (missing, has) refl

no_entry_in :
    (p : IniParser) (section key : Bytes) (sec : Section)
    → find_section p section ≡ some sec
    → sec.index key ≡ none
    → entry_at p section key ≡ none
unfolding find_entry
no_entry_in p section key sec found lost =
    entry_at-found p section key sec found ∙ rw (lost, find_entry) refl

no_key_in :
    (p : IniParser) (section key : Bytes) (sec : Section)
    → find_section p section ≡ some sec
    → sec.index key ≡ none
    → has p section key ≡ false
unfolding has is_some
no_key_in p section key sec found lost = rw (found, lost, has) refl

-- Removing a key of a valid store tells whether it was there, keeps the store valid, and makes the
-- getters find nothing under the key and what they found before under every other section or key.
pub remove_lem :
    (p : IniParser) (section key : Bytes) → IsValid p → Removed p section key (remove p section key)
unfolding remove
remove_lem p section key v = elim (Option-cases (p.sec_index_ section)) [
  | inl gone ↦
      let missing : find_section p section ≡ none = missing_section p section gone in
      rw (gone, remove)
        (untouched p section key v (no_entry p section key missing) (no_key p section key missing))
  | inr (at, there) ↦
      let (sec, here, found, h) = section_at p section at v there in
      elim (Option-cases (sec.index key)) [
        | inl lost ↦
            rw (there, found, lost, remove)
              (untouched p section key v (no_entry_in p section key sec found lost)
                (no_key_in p section key sec found lost))
        | inr (i, hit) ↦
            rw (there, found, hit, remove) (removed p section key at i sec v there found hit)
      ]
]
