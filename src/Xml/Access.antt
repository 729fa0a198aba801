-- ===== src/Xml/Access.antt =====
-- The access to texts and attributes by a path, and the validator of required paths, in
-- j2_library/src/xml/xml_parser.cpp. The null pointer is `none`; the number parsers of the C++ library
-- are parameters, which return `none` where those throw.
use jaytwo_library.Prelude.{
  ℕ, ◌+◌, Bool, true, false, not, ◌&&◌, ◌||◌, List, [], ◌∷◌, Option, none, some, Bytes, codes, map,
  is_empty, if◌then◌else◌, leb, ◌==◌,
}
use jaytwo_library.Text.{str_eq, has_char}
use jaytwo_library.Xml.{XmlAttribute, XmlNode, head_of, find_attribute, Result, returned, ◌>>=◌}
use jaytwo_library.Xml.Text.{trim_spaces, peek_char}
use jaytwo_library.Xml.Path.{bare_path, xpath_select}

-- At the last slash: what is before it, or nothing, and what is behind it.
unfoldable pub split_last : Bytes → Bytes × Bytes
unfolding has_char
split_last [] = ([], [])
split_last (c ∷ s) =
    let (before, last) = split_last s in
    if has_char s b'/' then (c ∷ before, last) else if c == b'/' then ([], s) else ([], c ∷ s)

-- The name behind an `@`.
abbrev pub attr_name_of : Bytes → Option Bytes
attr_name_of [] = none
attr_name_of (c ∷ name) = if not (c == b'@') || is_empty name then none else some name

-- The first node of a path, or the root for an empty one.
unfoldable pub target_of : XmlNode → Bytes → Result (Option XmlNode)
unfolding xpath_select
target_of root [] = returned (some root)
target_of root (c ∷ path) = xpath_select root (c ∷ path) >>= λ nodes. elim nodes [
  | [] ↦ returned none
  | node ∷ rest ↦ returned (some node)
]

abbrev pub value_of : Option XmlAttribute → Bytes
value_of none = []
value_of (some attr) = attr.value

unfoldable pub get_attr_value_by_path : Option XmlNode → Bytes → Result Bytes
unfolding bare_path split_last trim_spaces target_of find_attribute
get_attr_value_by_path none full_path = returned []
get_attr_value_by_path (some root) full_path =
    let (node_path, attr_part) = split_last (bare_path full_path) in
    elim (attr_name_of (trim_spaces attr_part)) [
      | none ↦ returned []
      | some attr_name ↦ target_of root node_path >>= λ target. elim target [
        | none ↦ returned []
        | some node ↦ returned (value_of (find_attribute node attr_name))
      ]
    ]

unfoldable pub is_attr_path : Bytes → Bool
unfolding bare_path split_last trim_spaces
is_attr_path path = peek_char (trim_spaces (split_last (bare_path path)).1) b'@'

unfoldable pub get_text_by_path : Option XmlNode → Bytes → Result Bytes
unfolding is_attr_path get_attr_value_by_path xpath_select
get_text_by_path none path = returned []
get_text_by_path (some root) path =
    if is_attr_path path
    then get_attr_value_by_path (some root) path
    else (xpath_select root path >>= λ nodes. elim nodes [
      | [] ↦ returned []
      | node ∷ rest ↦ returned (head_of node).text
    ])

abbrev pub unless_empty : Bytes → Option Bytes
unless_empty [] = none
unless_empty (c ∷ s) = some (c ∷ s)

unfoldable pub get_text_opt_by_path : Option XmlNode → Bytes → Result (Option Bytes)
unfolding get_text_by_path
get_text_opt_by_path root path = get_text_by_path root path >>= λ v. returned (unless_empty v)

-- `std::tolower` in the "C" locale.
abbrev pub tolower : ℕ → ℕ
tolower c = if leb b'A' c && leb c b'Z' then c + 32 else c

unfoldable pub bool_of : Bytes → Option Bool
bool_of text =
    let lower = map tolower text in
    if str_eq lower (codes "true")
      || (str_eq lower (codes "1") || (str_eq lower (codes "yes") || str_eq lower (codes "on")))
    then some true
    else if str_eq lower (codes "false")
        || (str_eq lower (codes "0") || (str_eq lower (codes "no") || str_eq lower (codes "off")))
    then some false
    else none

-- What a parser makes of a text that is there.
abbrev pub parsed_by {ℓ} : {A : Type ℓ} → (Bytes → Option A) → Option Bytes → Option A
parsed_by read none = none
parsed_by read (some text) = read text

unfoldable pub get_bool_by_path : Option XmlNode → Bytes → Result (Option Bool)
unfolding get_text_opt_by_path bool_of
get_bool_by_path root path =
    get_text_opt_by_path root path >>= λ text. returned (parsed_by bool_of text)

unfoldable pub get_attr_bool_by_path : Option XmlNode → Bytes → Result (Option Bool)
unfolding get_attr_value_by_path bool_of
get_attr_bool_by_path root full_path = get_attr_value_by_path root full_path >>= λ value.
    returned (parsed_by bool_of (unless_empty value))

module _ {ℓ} {Number : Type ℓ} (read_number : Bytes → Option Number) where
  -- `get_int_by_path` with `std::stoi`, and `get_double_by_path` with `std::stod`.
  unfoldable pub get_number_by_path : Option XmlNode → Bytes → Result (Option Number)
  unfolding get_text_opt_by_path
  get_number_by_path root path =
      get_text_opt_by_path root path >>= λ text. returned (parsed_by read_number text)

  unfoldable pub get_attr_int_by_path : Option XmlNode → Bytes → Result (Option Number)
  unfolding get_attr_value_by_path
  get_attr_int_by_path root full_path = get_attr_value_by_path root full_path >>= λ value.
      returned (parsed_by read_number (unless_empty value))

  -- `parse_unix_epoch_seconds` and `parse_unix_epoch_millis`, with `std::stoll`.
  unfoldable pub parse_unix_epoch : Bytes → Option Number
  unfolding trim_spaces
  parse_unix_epoch text = parsed_by read_number (unless_empty (trim_spaces text))

  -- `get_datetime_from_epoch_sec_by_path` and the one for milliseconds.
  unfoldable pub get_datetime_from_epoch_by_path : Option XmlNode → Bytes → Result (Option Number)
  unfolding get_text_opt_by_path parse_unix_epoch
  get_datetime_from_epoch_by_path root path =
      get_text_opt_by_path root path >>= λ text. returned (parsed_by parse_unix_epoch text)

-- `error_message`, by the place that sets it.
pub data PathFault : Type 0 where
  path_missing path_malformed attribute_missing : Bytes → PathFault

-- The check of one path; `none` is that it is there.
unfoldable pub check_path : XmlNode → Bytes → Result (Option PathFault)
unfolding is_attr_path bare_path split_last trim_spaces target_of find_attribute xpath_select
check_path root path =
    let (node_path, attr_part) = split_last (bare_path path) in
    if is_attr_path path
    then elim (attr_name_of (trim_spaces attr_part)) [
      | none ↦ returned (some (path_malformed path))
      | some attr_name ↦ target_of root node_path >>= λ target. elim target [
        | none ↦ returned (some (path_missing path))
        | some node ↦ elim (find_attribute node attr_name) [
          | none ↦ returned (some (attribute_missing path))
          | some attr ↦ returned none
        ]
      ]
    ]
    else (xpath_select root path >>= λ nodes. elim nodes [
      | [] ↦ returned (some (path_missing path))
      | node ∷ rest ↦ returned none
    ])

-- `required_path_validator::validate`, which stops at the first fault.
unfoldable pub validate : List Bytes → XmlNode → Result (Option PathFault)
unfolding check_path
validate [] root = returned none
validate (path ∷ required_paths) root = check_path root path >>= λ fault. elim fault [
  | some f ↦ returned (some f)
  | none ↦ validate required_paths root
]
