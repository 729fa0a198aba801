-- ===== src/Xml/Parser.antt =====
-- `xml_parser::parse` of j2_library/src/xml/xml_parser.cpp. The map of the namespaces is a list in
-- which a later entry stands in front.
use jaytwo_library.Prelude.{
  ℕ, zero, suc, Bool, true, false, not, ◌||◌, List, [], ◌∷◌, ◌++◌, Option, none, some, Bytes, codes,
  length, drop, is_empty, if◌then◌else◌, ◌==◌,
}
use jaytwo_library.Text.{is_space, str_eq, equal}
use jaytwo_library.Xml.{
  TextPolicy, trim_and_discard_empty, preserve, collapse_whitespace_only, Head, XmlNode, element,
  Nodes, no_nodes, push_node, tag_open, equals_missing, start_missing, end_misplaced,
  greater_missing, end_greater_missing, names_differ, empty_text, root_missing, out_of_fuel, Result,
  thrown, returned, ◌>>=◌, ◌>>◌, throw_if,
}
use jaytwo_library.Xml.Text.{
  trim_spaces, skip_whitespace, peek_char, starts_with, expect, decode_entities,
}
use jaytwo_library.Xml.Lexer.{
  parse_raw_name, split_qname, parse_attribute_value, read_text, parse_cdata,
  skip_processing_instruction, skip_comment, skip_optional_xml_declaration_and_misc,
}

abbrev pub NsMap : Type 0
NsMap = List (Bytes × Bytes)

abbrev pub ns_find : NsMap → Bytes → Option Bytes
ns_find [] prefix = none
ns_find ((p, uri) ∷ m) prefix =
    let later = ns_find m prefix in if str_eq p prefix then some uri else later

-- The URI of a prefix, or the empty text.
abbrev pub uri_of : NsMap → Bytes → Bytes
uri_of m prefix = elim (ns_find m prefix) [ some uri ↦ uri | none ↦ [] ]

-- One attribute or namespace declaration, once it is read.
unfoldable pub add_attribute : Head → NsMap → Bytes → Bytes → Head × NsMap
unfolding split_qname
add_attribute node m raw_name value =
    let (prefix, local) = split_qname raw_name in
    if str_eq raw_name (codes "xmlns")
    then (node, ([], value) ∷ m)
    else if equal (codes "xmlns:") raw_name
    then (node, (drop 6 raw_name, value) ∷ m)
    else (
      record node {
        attributes =
            node.attributes
            ++ (record {
              name = local;
              value = value;
              prefix = prefix;
              ns_uri = if is_empty prefix then [] else uri_of m prefix;
            })
              ∷ [];
      },
      m,
    )

-- Name, `=` and value of an attribute.
unfoldable pub parse_attribute : Bytes → Result ((Bytes × Bytes) × Bytes)
unfolding parse_raw_name skip_whitespace parse_attribute_value
parse_attribute s = do
  (raw_name, s1) ← parse_raw_name s
  let s2 = skip_whitespace s1
  throw_if (not (peek_char s2 b'=')) equals_missing
  (value, s3) ← parse_attribute_value (drop 1 s2)
  returned ((raw_name, value), s3)

-- The loop up to `/` or `>`, with the rounds left: each takes a char at least.
unfoldable pub parse_attributes : ℕ → Head → NsMap → Bytes → Result ((Head × NsMap) × Bytes)
unfolding skip_whitespace parse_attribute add_attribute
parse_attributes zero node m s = thrown out_of_fuel
parse_attributes (suc fuel) node m s =
    let here = skip_whitespace s in
    let another = parse_attribute here >>= λ q.
    let (node', m') = add_attribute node m q.0.0 q.0.1 in parse_attributes fuel node' m' q.1 in
    if is_empty here
    then thrown tag_open
    else if peek_char here b'/' || peek_char here b'>'
    then returned ((node, m), here)
    else another

-- With a blank behind text that is there.
abbrev pub add_text : Head → Bytes → Head
add_text node t = record node { text = (if is_empty node.text then t else node.text ++ (32 ∷ t)) }

unfoldable pub all_space : Bytes → Bool
all_space [] = true
all_space (c ∷ s) = let rest = all_space s in if not (is_space c) then false else rest

abbrev pub trimmed_text : Head → Bytes → Head
trimmed_text node raw =
    if is_empty (trim_spaces raw) then node else add_text node (decode_entities (trim_spaces raw))

unfoldable pub flush_text_buffer : TextPolicy → Bytes → Head → Head
unfolding trim_spaces decode_entities all_space
flush_text_buffer policy [] node = node
flush_text_buffer trim_and_discard_empty (c ∷ raw) node = trimmed_text node (c ∷ raw)
flush_text_buffer preserve (c ∷ raw) node = record node {
  text = node.text ++ decode_entities (c ∷ raw);
}
flush_text_buffer collapse_whitespace_only (c ∷ raw) node =
    if all_space (c ∷ raw)
    then record node { text = node.text ++ 32 ∷ [] }
    else trimmed_text node (c ∷ raw)

-- The branches at a `<` inside an element.
pub data Markup : Type 0 where
  end_tag comment instruction cdata child : Markup

unfoldable pub markup_at : Bytes → Markup
unfolding starts_with
markup_at s =
    if starts_with s (codes "</")
    then end_tag
    else if starts_with s (codes "<!--")
    then comment
    else if starts_with s (codes "<?")
    then instruction
    else if starts_with s (codes "<![CDATA[")
    then cdata
    else child

-- The end tag, which must have the element's local name.
unfoldable pub parse_end_tag : Bytes → Bytes → Result Bytes
unfolding expect parse_raw_name split_qname skip_whitespace
parse_end_tag name s = do
  s1 ← expect (codes "</") s
  (end_raw, s2) ← parse_raw_name s1
  let s3 = skip_whitespace s2
  throw_if (not (peek_char s3 b'>')) end_greater_missing
  throw_if (not (str_eq (split_qname end_raw).1 name)) (names_differ name (split_qname end_raw).1)
  returned (drop 1 s3)

-- The start of a node, from its name on.
abbrev pub start_head : Bytes → Head
start_head raw_name = record {
  name = (split_qname raw_name).1;
  prefix = (split_qname raw_name).0;
  ns_uri = [];
  text = [];
  attributes = [];
}

-- A start tag up to `/>` or `>`: the node, the namespaces, and the text from there on.
unfoldable pub parse_start_tag : NsMap → Bytes → Result ((Head × NsMap) × Bytes)
unfolding parse_raw_name split_qname skip_whitespace parse_attributes
parse_start_tag m s = do
  throw_if (not (peek_char s b'<')) start_missing
  let s1 = drop 1 s
  throw_if (peek_char s1 b'/') end_misplaced
  (raw_name, s2) ← parse_raw_name s1
  q ← parse_attributes (suc (length s2)) (start_head raw_name) m (skip_whitespace s2)
  let node = record q.0.0 { ns_uri = uri_of q.0.1 q.0.0.prefix }
  returned ((node, q.0.1), q.1)

-- The recursion, with fuel: a call of the one takes a char at least before it calls the other.
unfoldable mutual
  unfolding parse_start_tag expect markup_at parse_end_tag skip_comment skip_processing_instruction
      parse_cdata read_text flush_text_buffer

  pub parse_element : ℕ → TextPolicy → NsMap → Bytes → Result (XmlNode × Bytes)
  parse_element zero policy m s = thrown out_of_fuel
  parse_element (suc fuel) policy m s = parse_start_tag m s >>= λ q.
      let body = parse_content fuel policy q.0.1 q.0.0 no_nodes [] (drop 1 q.1) in
      if starts_with q.1 (codes "/>")
      then returned (element q.0.0 no_nodes, drop 2 q.1)
      else if not (peek_char q.1 b'>')
      then thrown greater_missing
      else body

  -- The loop over the content, with the node, its children and the text buffer so far.
  pub parse_content :
      ℕ → TextPolicy → NsMap → Head → Nodes → Bytes → Bytes → Result (XmlNode × Bytes)
  parse_content zero policy m node kids buffer s = thrown out_of_fuel
  parse_content (suc fuel) policy m node kids buffer [] =
      returned (element (flush_text_buffer policy buffer node) kids, [])
  parse_content (suc fuel) policy m node kids buffer (c ∷ s) = elim (c == b'<') [
    | false ↦
        let (t, rest) = read_text (c ∷ s) in
        parse_content fuel policy m node kids (buffer ++ t) rest
    | true ↦
        let flushed = flush_text_buffer policy buffer node in
        elim (markup_at (c ∷ s)) [
          | end_tag ↦
              parse_end_tag flushed.name (c ∷ s) >>= λ rest. returned (element flushed kids, rest)
          | comment ↦ skip_comment (c ∷ s) >>= parse_content fuel policy m flushed kids []
          | instruction ↦
              skip_processing_instruction (c ∷ s) >>= parse_content fuel policy m flushed kids []
          | cdata ↦ parse_cdata (c ∷ s) >>= λ q.
              parse_content fuel policy m (add_text flushed q.0) kids [] q.1
          | child ↦ parse_element fuel policy m (c ∷ s) >>= λ q.
              parse_content fuel policy m flushed (push_node kids q.0) [] q.1
        ]
  ]

-- `parse` returns the root; what stands behind it is not looked at.
unfoldable pub parse : Bytes → TextPolicy → Result XmlNode
unfolding skip_whitespace skip_optional_xml_declaration_and_misc parse_element
parse xml policy = do
  throw_if (is_empty xml) empty_text
  s ← skip_optional_xml_declaration_and_misc (skip_whitespace xml)
  let here = skip_whitespace s
  throw_if (not (peek_char here b'<')) root_missing
  (root, rest) ← parse_element (suc (length here)) policy [] here
  returned root
