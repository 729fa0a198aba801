-- ===== src/Xml/Tests.antt =====
-- The laws of the XML parser at concrete documents.
use mathlib.Core.List.{Memᴰ}
use jaytwo_library.Prelude.{
  ℕ, some, ◌≡◌, ◌≢◌, ◌↔◌, refl, Bytes, codes, [], ◌∷◌, ◌++◌, true, Bool, not, ◌&&◌, ◌==◌, All, List,
  none, arith,
}
use jaytwo_library.Text.{is_space, str_eq}
use jaytwo_library.StringBasic.Trim.Laws.{IsTrimmed}
use jaytwo_library.Xml.{
  XmlNode, element, no_nodes, more_nodes, names_differ, thrown, returned, out_of_fuel,
  trim_and_discard_empty, preserve,
}
use jaytwo_library.Xml.Text.{is_name_char}
use jaytwo_library.Xml.Parser.{parse}
use jaytwo_library.Xml.Serializer.{serialize_xml}
use jaytwo_library.Xml.Path.{
  XpathStep, parse_xpath, skip_root, step_matches, bare_path, xpath_select,
}
use jaytwo_library.Xml.Access.{validate, get_text_by_path}
use jaytwo_library.Xml.Plain.{IsNamePart, IsName, IsPlain}
use jaytwo_library.Xml.RoundTrip.{parse-serialize_xml}
use jaytwo_library.Xml.Total.{parse_total}
use jaytwo_library.Xml.Reach.{Reaches, xpath_select-Reaches}
use jaytwo_library.Xml.Required.{Finds, validate-get_text}
use jaytwo_library.Xml.Faults.{opened, with_text, parse-end_differs, parse_unclosed}

abbrev item : XmlNode
item =
    element
      (record {
        name = codes "item";
        prefix = [];
        ns_uri = [];
        text = codes "a < b";
        attributes =
            record { name = codes "id"; value = codes "'1' & 2"; prefix = []; ns_uri = [] } ∷ [];
      })
      no_nodes

abbrev document : XmlNode
document =
    element
      (record {
        name = codes "items";
        prefix = [];
        ns_uri = [];
        text = codes "two";
        attributes = [];
      })
      (more_nodes item no_nodes)

round : parse (serialize_xml document true) trim_and_discard_empty ≡ returned document
unfolding parse serialize_xml is_space is_name_char str_eq
round = refl

abbrev good_name : Bytes → Bool
good_name [] = true
good_name (c ∷ s) = (is_name_char c && not (c == b':')) && good_name s

good_part : (c : ℕ) → (is_name_char c && not (c == b':')) ≡ true → IsNamePart c
good_part c h = record { in_name = ground (arith, h); no_colon = ground (arith, h) }

good_parts : (s : Bytes) → good_name s ≡ true → All IsNamePart s
good_parts [] h = tt
good_parts (c ∷ s) h = (good_part c (ground (arith, h)), good_parts s (ground (arith, h)))

item-IsPlain : IsPlain item
unfolding IsPlain is_name_char str_eq is_space
item-IsPlain = (
  record {
    named = good_parts (codes "item") refl;
    no_prefix = refl;
    no_uri = refl;
    trimmed = record { front = refl; back = refl };
    plain_attributes = (
      record {
        named = good_parts (codes "id") refl;
        no_declaration = refl;
        no_prefix = refl;
        no_uri = refl;
      },
      tt,
    );
  },
  tt,
)

document-IsPlain : IsPlain document
unfolding IsPlain is_name_char str_eq is_space
document-IsPlain = (
  record {
    named = good_parts (codes "items") refl;
    no_prefix = refl;
    no_uri = refl;
    trimmed = record { front = refl; back = refl };
    plain_attributes = tt;
  },
  (item-IsPlain, tt),
)

parse-serialize_xml_example :
    parse (serialize_xml document true) trim_and_discard_empty ≡ returned document
parse-serialize_xml_example = parse-serialize_xml document true document-IsPlain

parse_total_example : parse (codes "<a><b>x</b></a") preserve ≢ thrown out_of_fuel
parse_total_example = parse_total (codes "<a><b>x</b></a") preserve

abbrev path_steps : List XpathStep
path_steps =
    record { name = codes "items"; attr_name = []; attr_value = [] }
    ∷ record { name = codes "item"; attr_name = codes "id"; attr_value = codes "7" }
    ∷ []

abbrev item_path : Bytes
item_path = codes "/items/item[@id='7']"

item_path_steps : parse_xpath (bare_path item_path) ≡ returned path_steps
unfolding parse_xpath bare_path is_space
item_path_steps = refl

xpath_select-Reaches_example :
    (nodes : List XmlNode) × (xpath_select document item_path ≡ returned nodes)
    × ((t : XmlNode) → Memᴰ t nodes ↔ Reaches (skip_root document path_steps) document t)
xpath_select-Reaches_example = xpath_select-Reaches document item_path path_steps item_path_steps

abbrev required : List Bytes
required = codes "items/item" ∷ codes "items/item/@id" ∷ []

required_there : validate required document ≡ returned none
unfolding validate is_space str_eq step_matches
required_there = refl

validate-get_text_example :
    (validate required document ≡ returned none)
    ↔ All
        (λ path.
          (value : Bytes) × Finds document path value
          × (get_text_by_path (some document) path ≡ returned value))
        required
validate-get_text_example = validate-get_text required document

a-IsName : IsName (codes "a")
unfolding is_name_char
a-IsName = good_parts (codes "a") refl

b-IsName : IsName (codes "b")
unfolding is_name_char
b-IsName = good_parts (codes "b") refl

a≢b : codes "a" ≢ codes "b"
a≢b e = ground (arith, e)

parse-end_differs_example :
    parse (opened (codes "a") [] (codes "x") (codes "</" ++ (codes "b" ++ (b'>' ∷ [])))) preserve
    ≡ thrown (names_differ (codes "a") (codes "b"))
parse-end_differs_example =
    parse-end_differs (codes "a") (codes "b") [] (codes "x") [] preserve a-IsName b-IsName tt a≢b

x-IsTrimmed : IsTrimmed (codes "x y")
unfolding is_space
x-IsTrimmed = record { front = refl; back = refl }

parse_unclosed_example :
    parse (opened (codes "a") [] (codes "x y") []) trim_and_discard_empty
    ≡ returned (element (with_text (codes "a") [] (codes "x y")) no_nodes)
parse_unclosed_example = parse_unclosed (codes "a") [] (codes "x y") a-IsName tt x-IsTrimmed
