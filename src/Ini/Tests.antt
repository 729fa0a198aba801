-- ===== src/Ini/Tests.antt =====
-- The laws of the INI store and of its escapes at concrete values.
use jaytwo_library.Prelude.{true, false, codes, some, ◌≡◌, refl}
use jaytwo_library.Text.{str_eq}
use jaytwo_library.Ini.{string, IniParser, new_parser, upsert, entry_at, remove, remove_section}
use jaytwo_library.Ini.Names.{position}
use jaytwo_library.Ini.Valid.{IsValid, written}
use jaytwo_library.Ini.Changes.{upsert-IsValid}
use jaytwo_library.Ini.Store.{entry_at-upsert}
use jaytwo_library.Ini.Removal.{Removed, remove_lem}
use jaytwo_library.Ini.SectionRemoval.{SectionRemoved, remove_section_lem}

new_parser-IsValid : IsValid new_parser
new_parser-IsValid = record {
  indexed = record { distinct = tt; finds = λ n. unfold position in refl };
  each = tt;
}

-- Two keys in a section.
abbrev two : IniParser
two =
    upsert (upsert new_parser (codes "net") (codes "host") (codes "a") string false) (codes "net")
      (codes "user") (codes "b") string true

two-IsValid : IsValid two
two-IsValid =
    upsert-IsValid (upsert new_parser (codes "net") (codes "host") (codes "a") string false)
      (codes "net") (codes "user") (codes "b") string true
      (upsert-IsValid new_parser (codes "net") (codes "host") (codes "a") string false
        new_parser-IsValid)

upsert-IsValid_example : IsValid (upsert two (codes "net") (codes "host") (codes "c") string false)
upsert-IsValid_example =
    upsert-IsValid two (codes "net") (codes "host") (codes "c") string false two-IsValid

entry_at-upsert_example :
    entry_at
      (upsert two (codes "net") (codes "host") (codes "c") string false)
      (codes "net")
      (codes "host")
    ≡ some (written (codes "host") (codes "c") string false)
unfolding str_eq
entry_at-upsert_example =
    entry_at-upsert two (codes "net") (codes "host") (codes "c") string false (codes "net")
      (codes "host") two-IsValid

remove_lem_example :
    Removed two (codes "net") (codes "host") (remove two (codes "net") (codes "host"))
remove_lem_example = remove_lem two (codes "net") (codes "host") two-IsValid

remove_section_lem_example : SectionRemoved two (codes "net") (remove_section two (codes "net"))
remove_section_lem_example = remove_section_lem two (codes "net") two-IsValid
