-- ===== src/Xml/Sax.antt =====
-- `traverse_sax` and `print_xml_tree` of j2_library/src/xml/xml_parser.cpp. A handler's methods change
-- its state; what is printed is a text.
use jaytwo_library.Prelude.{
  ℕ, ◌+◌, ◌*◌, not, ◌&&◌, List, [], ◌∷◌, ◌++◌, Bytes, codes, is_empty, replicate, if◌then◌else◌,
}
use jaytwo_library.Xml.Text.{trim_spaces}
use jaytwo_library.Xml.{head_of, XmlAttribute, XmlNode, element, Nodes, no_nodes, more_nodes}
use jaytwo_library.Xml.Serializer.{has_children}

pub record SaxHandler {ℓ} (S : Type ℓ) : Type ℓ where
  pub on_start_element : XmlNode → S → S
  pub on_end_element : XmlNode → S → S
  pub on_text : Bytes → S → S

unfoldable mutual
  pub traverse_sax {ℓ} : {S : Type ℓ} → SaxHandler S → XmlNode → S → S
  traverse_sax handler (element node kids) s =
      let started = handler.on_start_element (element node kids) s in
      handler.on_end_element (element node kids) (
        traverse_all handler kids
          (if is_empty node.text then started else handler.on_text node.text started))

  pub traverse_all {ℓ} : {S : Type ℓ} → SaxHandler S → Nodes → S → S
  traverse_all handler no_nodes s = s
  traverse_all handler (more_nodes n kids) s = traverse_all handler kids (traverse_sax handler n s)

-- A name with its prefix.
abbrev pub qualified : Bytes → Bytes → Bytes
qualified prefix name = (if is_empty prefix then [] else prefix ++ b':' ∷ []) ++ name

-- `debug_sax_handler`, with what it prints as the state.
unfoldable pub debug_start_element : XmlNode → Bytes → Bytes
debug_start_element node s =
    s ++ (codes "[SAX] START: " ++ (qualified (head_of node).prefix (head_of node).name ++ 10 ∷ []))

unfoldable pub debug_end_element : XmlNode → Bytes → Bytes
debug_end_element node s =
    s ++ (codes "[SAX] END  : " ++ (qualified (head_of node).prefix (head_of node).name ++ 10 ∷ []))

unfoldable pub debug_text : Bytes → Bytes → Bytes
unfolding trim_spaces
debug_text text s =
    if is_empty (trim_spaces text)
    then s
    else s ++ (codes "[SAX] TEXT : " ++ (trim_spaces text ++ 10 ∷ []))

unfoldable pub debug_sax_handler : SaxHandler Bytes
unfolding debug_start_element debug_end_element debug_text
debug_sax_handler = record {
  on_start_element = debug_start_element;
  on_end_element = debug_end_element;
  on_text = debug_text;
}

unfoldable pub printed_attributes : List XmlAttribute → Bytes
printed_attributes [] = []
printed_attributes (a ∷ rest) =
    32 ∷ (qualified a.prefix a.name ++ (b'=' ∷ 34 ∷ (a.value ++ (34 ∷ printed_attributes rest))))

-- `print_xml_tree`, without the console.
unfoldable mutual
  unfolding printed_attributes

  pub printed_tree : XmlNode → ℕ → Bytes
  printed_tree (element node kids) indent =
      let inner = printed_trees kids (indent + 1) in
      let indent_str = replicate (indent * 2) 32 in
      indent_str
      ++ (b'<'
          ∷ (qualified node.prefix node.name
              ++ (printed_attributes node.attributes
                  ++ (if not (has_children kids) && is_empty node.text
                      then codes " />" ++ 10 ∷ []
                      else b'>'
                        ∷ (node.text
                            ++ ((if has_children kids then 10 ∷ (inner ++ indent_str) else [])
                                ++ (codes "</"
                                    ++ (qualified node.prefix node.name ++ (b'>' ∷ 10 ∷ [])))))))))

  pub printed_trees : Nodes → ℕ → Bytes
  printed_trees no_nodes indent = []
  printed_trees (more_nodes n kids) indent = printed_tree n indent ++ printed_trees kids indent
