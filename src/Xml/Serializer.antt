-- ===== src/Xml/Serializer.antt =====
-- `serialize_xml` of j2_library/src/xml/xml.cpp.
use jaytwo_library.Prelude.{
  ℕ, ◌+◌, Bool, true, false, not, ◌&&◌, List, [], ◌∷◌, ◌++◌, Bytes, codes, is_empty, replicate,
  if◌then◌else◌, ◌==◌,
}
use jaytwo_library.Xml.{XmlAttribute, XmlNode, element, Nodes, no_nodes, more_nodes}

abbrev pub text_char : ℕ → Bytes
text_char c =
    if c == b'&'
    then codes "&amp;"
    else if c == b'<'
    then codes "&lt;"
    else if c == b'>'
    then codes "&gt;"
    else c ∷ []

abbrev pub attr_char : ℕ → Bytes
attr_char c = if c == 34 then codes "&quot;" else if c == 39 then codes "&apos;" else text_char c

unfoldable pub escape_text : Bytes → Bytes
escape_text [] = []
escape_text (c ∷ s) = text_char c ++ escape_text s

unfoldable pub escape_attr : Bytes → Bytes
escape_attr [] = []
escape_attr (c ∷ s) = attr_char c ++ escape_attr s

-- ` name="value"` for each attribute; the prefix is not written.
unfoldable pub attributes_text : List XmlAttribute → Bytes
unfolding escape_attr
attributes_text [] = []
attributes_text (a ∷ rest) =
    32 ∷ (a.name ++ (b'=' ∷ 34 ∷ (escape_attr a.value ++ (34 ∷ attributes_text rest))))

abbrev pub has_children : Nodes → Bool
has_children no_nodes = false
has_children (more_nodes n kids) = true

abbrev pub spaces : ℕ → Bytes
spaces indent = replicate indent 32

unfoldable mutual
  unfolding escape_text attributes_text

  pub serialize_node : XmlNode → ℕ → Bytes
  serialize_node (element node kids) indent =
      let inner = serialize_nodes kids (indent + 2) in
      spaces indent
      ++ (b'<'
          ∷ (node.name
              ++ (attributes_text node.attributes
                  ++ (if not (has_children kids) && is_empty node.text
                      then codes " />" ++ 10 ∷ []
                      else b'>'
                        ∷ (escape_text node.text
                            ++ ((if has_children kids then 10 ∷ (inner ++ spaces indent) else [])
                                ++ (codes "</" ++ (node.name ++ (b'>' ∷ 10 ∷ [])))))))))

  pub serialize_nodes : Nodes → ℕ → Bytes
  serialize_nodes no_nodes indent = []
  serialize_nodes (more_nodes n kids) indent =
      serialize_node n indent ++ serialize_nodes kids indent

abbrev pub declaration : Bytes
declaration = codes "<?xml version=\"1.0\" encoding=\"UTF-8\"?>" ++ 10 ∷ []

unfoldable pub serialize_xml : XmlNode → Bool → Bytes
unfolding serialize_node
serialize_xml node include_declaration =
    (if include_declaration then declaration else []) ++ serialize_node node 0
