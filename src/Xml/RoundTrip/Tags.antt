-- ===== src/Xml/RoundTrip/Tags.antt =====
-- The start tag and the end tag of a plain node.
use jaytwo_library.Prelude.{
  ℕ, ◌≤◌, suc, true, false, List, [], ◌∷◌, ◌++◌, Bytes, codes, ◌≡◌, refl, arith, All, drop, length,
  length-append,
}
use jaytwo_library.Text.{is_space, equal, drop_while}
use jaytwo_library.Text.Find.{str_eq_iff}
use jaytwo_library.StringBasic.Trim.Laws.{drop_while_dark, drop_while-StartsDark}
use jaytwo_library.Xml.{XmlAttribute, Head, returned}
use jaytwo_library.Xml.Text.{is_name_char, skip_whitespace, peek_char, expect}
use jaytwo_library.Xml.Lexer.{parse_raw_name}
use jaytwo_library.Xml.Parser.{NsMap, parse_attributes, parse_start_tag, parse_end_tag}
use jaytwo_library.Xml.Serializer.{escape_attr, attributes_text}
use jaytwo_library.Xml.Plain.{IsName, IsPlainAttribute}
use jaytwo_library.Xml.RoundTrip.Names.{parse_raw_name_lem, split_qname_plain, name_char_marks}
use jaytwo_library.Xml.RoundTrip.Attributes.{at_end, parse_attributes_lem}

skip_twice : (s : Bytes) → skip_whitespace (skip_whitespace s) ≡ skip_whitespace s
unfolding skip_whitespace
skip_twice s = drop_while_dark (drop_while is_space s) (drop_while-StartsDark s)

parse_attributes_skip :
    (fuel : ℕ) (node : Head) (m : NsMap) (s : Bytes)
    → parse_attributes (suc fuel) node m (skip_whitespace s) ≡ parse_attributes (suc fuel) node m s
unfolding parse_attributes
parse_attributes_skip fuel node m s = rw (skip_twice s) refl

length-attributes_text :
    (listed : List XmlAttribute) → length listed ≤ length (attributes_text listed)
unfolding attributes_text
length-attributes_text [] = omega arith
length-attributes_text (a ∷ listed) =
    let later = escape_attr a.value ++ 34 ∷ attributes_text listed in
    omega (
      arith,
      length-append a.name (b'=' ∷ 34 ∷ later),
      length-append (escape_attr a.value) (34 ∷ attributes_text listed),
      length-attributes_text listed,
    )

tag_name :
    (name : Bytes) (listed : List XmlAttribute) (d : ℕ) (r : Bytes)
    → IsName name
    → is_name_char d ≡ false
    → parse_raw_name (name ++ (attributes_text listed ++ d ∷ r))
      ≡ returned (name, attributes_text listed ++ d ∷ r)
unfolding attributes_text is_name_char
tag_name name [] d r h e = parse_raw_name_lem name d r h e
tag_name name (a ∷ listed) d r h e =
    parse_raw_name_lem name 32 (drop 1 (attributes_text (a ∷ listed) ++ d ∷ r)) h refl

no_slash : (name r : Bytes) → IsName name → peek_char (name ++ r) b'/' ≡ false
no_slash [] r h = absurd h
no_slash (c ∷ s) r (hc, hs) = let e = name_char_marks c hc.in_name in ground (arith, e)

abbrev pub started : Bytes → List XmlAttribute → Head
started name listed = record {
  name = name;
  prefix = [];
  ns_uri = [];
  text = [];
  attributes = listed;
}

pub parse_start_tag_lem :
    (name : Bytes) (listed : List XmlAttribute) (d : ℕ) (r : Bytes)
    → IsName name
    → All IsPlainAttribute listed
    → is_name_char d ≡ false
    → at_end (skip_whitespace (d ∷ r)) ≡ true
    → parse_start_tag [] (b'<' ∷ (name ++ (attributes_text listed ++ d ∷ r)))
      ≡ returned ((started name listed, []), skip_whitespace (d ∷ r))
unfolding parse_start_tag
parse_start_tag_lem name listed d r h ha e f =
    let s = attributes_text listed ++ d ∷ r in
    let rounds = length-attributes_text listed in
    let longer = length-append (attributes_text listed) (d ∷ r) in
    rw
      (
        no_slash name s h,
        tag_name name listed d r h e,
        split_qname_plain name h,
        parse_attributes_skip (length s) (started name []) [] s,
        parse_attributes_lem (suc (length s)) (started name []) [] listed (d ∷ r) ha f
            (omega arith),
      )
      refl

pub parse_end_tag_lem :
    (name r : Bytes)
    → IsName name
    → parse_end_tag name (codes "</" ++ (name ++ (b'>' ∷ r))) ≡ returned r
unfolding parse_end_tag expect is_name_char skip_whitespace is_space equal
parse_end_tag_lem name r h =
    rw
      (
        parse_raw_name_lem name b'>' r h refl,
        split_qname_plain name h,
        (str_eq_iff name name).1 refl,
      )
      refl
