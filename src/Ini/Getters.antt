-- ===== src/Ini/Getters.antt =====
-- The typed getters after the typed setters.
use jaytwo_library.Prelude.{
  Bool, true, false, ◌&&◌, Bytes, Option, none, some, if◌then◌else◌, ◌≡◌, refl, ap, ◌∙◌,
}
use jaytwo_library.Text.{str_eq}
use jaytwo_library.Ini.{
  string, bool, Entry, IniParser, upsert_string, upsert_numeric, set_string, set_bool, bool_text,
  bool_value, entry_at, get_string, get_bool,
}
use jaytwo_library.Ini.Names.Laws.{str_eq_self}
use jaytwo_library.Ini.Valid.{IsValid, written}
use jaytwo_library.Ini.Store.{entry_at-upsert}

value_if :
    (b : Bool) (x : Entry) (o : Option Entry)
    → elim (if b then some x else o) [ some e ↦ some e.value | none ↦ none ]
      ≡ (if b then some x.value else (elim o [ some e ↦ some e.value | none ↦ none ]))
value_if true x o = refl
value_if false x o = refl

-- In a valid store, `set_string` writes the one string under its section and key, and no other:
-- the getter finds the new value there, and elsewhere what it found before.
pub get_string-set_string :
    (p : IniParser) (section key value s k : Bytes)
    → IsValid p
    → get_string (set_string p section key value) s k
      ≡ (if str_eq s section && str_eq k key then some value else get_string p s k)
unfolding get_string upsert_string
get_string-set_string p section key value s k v =
    ap (λ o. elim o [ some e ↦ some e.value | none ↦ none ])
      (entry_at-upsert p section key value string false s k v)
    ∙ value_if (str_eq s section && str_eq k key) (written key value string false) (entry_at p s k)

read_bool : (v : Bool) → bool_value bool (bool_text v) ≡ some v
unfolding bool_value str_eq
read_bool true = refl
read_bool false = refl

-- A Boolean that was set in a valid store is read back.
pub get_bool-set_bool :
    (p : IniParser) (section key : Bytes) (value : Bool)
    → IsValid p
    → get_bool (set_bool p section key value) section key ≡ some value
unfolding get_bool upsert_numeric
get_bool-set_bool p section key value v =
    let self : (str_eq section section && str_eq key key) ≡ true =
      ap (λ b. b && str_eq key key) (str_eq_self section) ∙ str_eq_self key in
    ap (λ o. elim o [ some e ↦ bool_value e.kind e.value | none ↦ none ])
      (entry_at-upsert p section key (bool_text value) bool false section key v
        ∙ ap
            (λ b.
              if b then some (written key (bool_text value) bool false) else entry_at p section key)
            self)
    ∙ read_bool value
