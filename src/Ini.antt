-- ===== src/Ini.antt =====
-- The store of j2_library/src/ini/ini_parser.cpp: sections in the order of insertion, each with its
-- entries in the order of insertion, and an index of names beside either vector. A reference into a
-- vector is the position that it stands for.
pub mod Names
pub mod Escape
pub mod Valid
pub mod Changes
pub mod Store
pub mod Removal
pub mod SectionRemoval
pub mod Getters
mod Tests
use jaytwo_library.Prelude.{
  ℕ, ◌+◌, zero, suc, Bool, true, false, List, [], ◌∷◌, ◌++◌, map, Bytes, codes, length, get_elem?,
  set, Option, none, some, if◌then◌else◌,
}
use jaytwo_library.Text.{str_eq}
use jaytwo_library.StringBasic.Case.{to_lower}
use jaytwo_library.StringBasic.Affix.{is_some}
use jaytwo_library.Ini.Names.{
  Index, empty_index, at_index, emplace, erase_name, reindex_loop, erase_at,
}

pub data ValueKind : Type 0 where
  string : ValueKind
  bool : ValueKind
  int : ValueKind
  double : ValueKind

pub record Entry : Type 0 where
  pub key : Bytes
  pub value : Bytes
  pub kind : ValueKind
  pub string_literal : Bool

pub record Section : Type 0 where
  pub entries : List Entry
  pub index : Index

pub record IniParser : Type 0 where
  pub sections_ : List (Bytes × Section)
  pub sec_index_ : Index

abbrev pub new_parser : IniParser
new_parser = record { sections_ = []; sec_index_ = empty_index }

abbrev pub new_section : Section
new_section = record { entries = []; index = empty_index }

abbrev pub key_of : Entry → Bytes
key_of e = e.key

abbrev pub name_of : Bytes × Section → Bytes
name_of (name, sec) = name

-- The store, and where the section is.
unfoldable pub ensure_section : IniParser → Bytes → IniParser × ℕ
ensure_section p name = elim (p.sec_index_ name) [
  | some i ↦ (p, i)
  | none ↦ (
    record {
      sections_ = p.sections_ ++ (name, new_section) ∷ [];
      sec_index_ = emplace p.sec_index_ name (length p.sections_);
    },
    length p.sections_,
  )
]

abbrev pub second : Option (Bytes × Section) → Option Section
second none = none
second (some (name, sec)) = some sec

unfoldable pub find_section : IniParser → Bytes → Option Section
find_section p name = second (at_index p.sections_ (p.sec_index_ name))

-- `index.find(key)` and `entries[it->second]`.
unfoldable pub find_entry : Section → Bytes → Option Entry
find_entry sec key = at_index sec.entries (sec.index key)

-- What `upsert_string` and `upsert_numeric` do to the section.
unfoldable pub upsert_entry : Section → Bytes → Bytes → ValueKind → Bool → Section
upsert_entry sec key value kind literal = elim (sec.index key) [
  | some i ↦ elim (get_elem? sec.entries i) [
    | some e ↦ record sec {
      entries =
          set sec.entries i (record e { value = value; kind = kind; string_literal = literal });
    }
    | none ↦ sec
  ]
  | none ↦ record {
    entries =
        sec.entries
        ++ record { key = key; value = value; kind = kind; string_literal = literal } ∷ [];
    index = emplace sec.index key (length sec.entries);
  }
]

-- A section is changed where it stands.
unfoldable pub change_section : IniParser → ℕ → (Section → Section) → IniParser
change_section p i f = elim (get_elem? p.sections_ i) [
  | some (name, sec) ↦ record p { sections_ = set p.sections_ i (name, f sec) }
  | none ↦ p
]

unfoldable pub upsert : IniParser → Bytes → Bytes → Bytes → ValueKind → Bool → IniParser
unfolding ensure_section upsert_entry change_section
upsert p section key value kind literal =
    let (q, i) = ensure_section p section in
    change_section q i (λ sec. upsert_entry sec key value kind literal)

unfoldable pub upsert_string : IniParser → Bytes → Bytes → Bytes → Bool → IniParser
unfolding upsert
upsert_string p section key value literal = upsert p section key value string literal

unfoldable pub upsert_numeric : IniParser → Bytes → Bytes → Bytes → ValueKind → IniParser
unfolding upsert
upsert_numeric p section key value kind = upsert p section key value kind false

abbrev pub set_string : IniParser → Bytes → Bytes → Bytes → IniParser
set_string p section key value = upsert_string p section key value false

abbrev pub set_string_literal : IniParser → Bytes → Bytes → Bytes → IniParser
set_string_literal p section key value = upsert_string p section key value true

abbrev pub bool_text : Bool → Bytes
bool_text v = if v then codes "true" else codes "false"

abbrev pub set_bool : IniParser → Bytes → Bytes → Bool → IniParser
set_bool p section key value = upsert_numeric p section key (bool_text value) bool

unfoldable pub parse_bool : Bytes → Option Bool
parse_bool v =
    if str_eq (to_lower v) (codes "true")
    then some true
    else if str_eq (to_lower v) (codes "false")
    then some false
    else none

unfoldable pub has_section : IniParser → Bytes → Bool
unfolding is_some
has_section p section = is_some (p.sec_index_ section)

unfoldable pub has : IniParser → Bytes → Bytes → Bool
unfolding find_section is_some
has p section key = elim (find_section p section) [
  | some sec ↦ is_some (sec.index key)
  | none ↦ false
]

-- How each getter begins: the entry, unless the section or the key is missing.
unfoldable pub entry_at : IniParser → Bytes → Bytes → Option Entry
unfolding find_section find_entry
entry_at p section key = elim (find_section p section) [
  | some sec ↦ find_entry sec key
  | none ↦ none
]

unfoldable pub get_string : IniParser → Bytes → Bytes → Option Bytes
unfolding entry_at
get_string p section key = elim (entry_at p section key) [ some e ↦ some e.value | none ↦ none ]

bool_value : ValueKind → Bytes → Option Bool
unfolding parse_bool
bool_value bool value = some (str_eq value (codes "true"))
bool_value _ value = parse_bool value

unfoldable pub get_bool : IniParser → Bytes → Bytes → Option Bool
unfolding entry_at bool_value
get_bool p section key = elim (entry_at p section key) [
  | some e ↦ bool_value e.kind e.value
  | none ↦ none
]

-- `remove` in the section, where the key is at `i`.
unfoldable pub remove_entry : Section → Bytes → ℕ → Section
remove_entry sec key i =
    let left = erase_at sec.entries i in
    record { entries = left; index = reindex_loop (map key_of left) 0 (erase_name sec.index key) }

-- The store, and whether the key was there.
unfoldable pub remove : IniParser → Bytes → Bytes → IniParser × Bool
unfolding remove_entry change_section find_section
remove p section key = elim (p.sec_index_ section) [
  | none ↦ (p, false)
  | some at ↦ elim (find_section p section) [
    | none ↦ (p, false)
    | some sec ↦ elim (sec.index key) [
      | none ↦ (p, false)
      | some i ↦ (change_section p at (λ s. remove_entry s key i), true)
    ]
  ]
]

unfoldable pub remove_section : IniParser → Bytes → IniParser × Bool
remove_section p section = elim (p.sec_index_ section) [
  | none ↦ (p, false)
  | some i ↦
      let left = erase_at p.sections_ i in
      (
        record {
          sections_ = left;
          sec_index_ = reindex_loop (map name_of left) 0 (erase_name p.sec_index_ section);
        },
        true,
      )
]

abbrev pub section_names : IniParser → List Bytes
section_names p = map name_of p.sections_
