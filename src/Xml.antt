-- ===== src/Xml.antt =====
-- The XML classes of j2_library/include/j2_library/xml/xml_parser.hpp and the errors that
-- j2_library/src/xml/xml_parser.cpp throws. A node is what it has itself and its children; a pointer
-- to a node is the node, as nothing here changes a tree that is built.
pub mod Text
pub mod Lexer
pub mod Parser
pub mod Serializer
pub mod Escape
pub mod Path
pub mod Access
pub mod Sax
pub mod Iso
pub mod Encoding
pub mod Plain
pub mod RoundTrip
pub mod Reach
pub mod Total
pub mod Required
pub mod Faults
mod Tests
use jaytwo_library.Prelude.{
  Bytes, Bool, true, false, List, [], ◌∷◌, Option, none, some, if◌then◌else◌,
}
use jaytwo_library.Text.{str_eq}

pub data TextPolicy : Type 0 where
  trim_and_discard_empty preserve collapse_whitespace_only : TextPolicy

pub record XmlAttribute : Type 0 where
  pub name : Bytes
  pub value : Bytes
  pub prefix : Bytes
  pub ns_uri : Bytes

-- `xml_node` without its children.
pub record Head : Type 0 where
  pub name : Bytes
  pub prefix : Bytes
  pub ns_uri : Bytes
  pub text : Bytes
  pub attributes : List XmlAttribute

mutual
  pub data XmlNode : Type 0 where
    element : Head → Nodes → XmlNode

  pub data Nodes : Type 0 where
    no_nodes : Nodes
    more_nodes : XmlNode → Nodes → Nodes

abbrev pub head_of : XmlNode → Head
head_of (element h kids) = h

abbrev pub kids_of : XmlNode → Nodes
kids_of (element h kids) = kids

abbrev pub children_of : Nodes → List XmlNode
children_of no_nodes = []
children_of (more_nodes n kids) = n ∷ children_of kids

-- `children.push_back`.
abbrev pub push_node : Nodes → XmlNode → Nodes
push_node no_nodes n = more_nodes n no_nodes
push_node (more_nodes m kids) n = more_nodes m (push_node kids n)

abbrev pub first_named : List XmlNode → Bytes → Option XmlNode
first_named [] child_name = none
first_named (c ∷ rest) child_name =
    let later = first_named rest child_name in
    if str_eq (head_of c).name child_name then some c else later

unfoldable pub find_child : XmlNode → Bytes → Option XmlNode
find_child node child_name = first_named (children_of (kids_of node)) child_name

-- The first attribute of the name.
abbrev pub attribute_in : List XmlAttribute → Bytes → Option XmlAttribute
attribute_in [] attr_name = none
attribute_in (a ∷ rest) attr_name =
    let later = attribute_in rest attr_name in if str_eq a.name attr_name then some a else later

unfoldable pub find_attribute : XmlNode → Bytes → Option XmlAttribute
find_attribute node attr_name = attribute_in (head_of node).attributes attr_name

-- A `runtime_error`, by the place that throws it, and `out_of_fuel`, which has no counterpart.
pub data XmlError : Type 0 where
  unexpected_token : Bytes → XmlError
  name_ended bad_name_start : XmlError
  value_missing value_unquoted value_open : XmlError
  cdata_open instruction_open comment_open : XmlError
  tag_open equals_missing : XmlError
  start_missing end_misplaced greater_missing end_greater_missing : XmlError
  names_differ : Bytes → Bytes → XmlError
  empty_text root_missing : XmlError
  bracket_open bad_condition condition_equals condition_quote condition_open : XmlError
  bad_encoding : Bytes → XmlError
  file_missing file_not_regular read_failed convert_failed : Bytes → XmlError
  out_of_fuel : XmlError

pub data Result {ℓ} (Value : Type ℓ) : Type ℓ where
  thrown : XmlError → Result Value
  returned : Value → Result Value

infixl 5 ◌>>=◌ ◌>>◌
abbrev pub ◌>>=◌ {ℓ κ} :
    {Value : Type ℓ} {Next : Type κ} → Result Value → (Value → Result Next) → Result Next
thrown error >>= next = thrown error
returned value >>= next = next value

abbrev pub ◌>>◌ {ℓ} : {Next : Type ℓ} → Result (Unit {0}) → Result Next → Result Next
check >> next = check >>= λ passed. next

abbrev pub throw_if : Bool → XmlError → Result (Unit {0})
throw_if true error = thrown error
throw_if false error = returned tt
