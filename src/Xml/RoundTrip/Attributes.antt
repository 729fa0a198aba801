-- ===== src/Xml/RoundTrip/Attributes.antt =====
-- The attributes of a plain node are read as they were printed.
use jaytwo_library.Prelude.{
  ℕ, ◌<◌, zero, suc, Bool, true, false, ◌||◌, List, [], ◌∷◌, ◌++◌, Bytes, ◌==◌, ◌≡◌, refl, sym, ap,
  ◌∙◌, arith, All, length, is_empty, append_assoc, append-nil,
}
use jaytwo_library.Text.{is_space, drop_while}
use jaytwo_library.Xml.{XmlAttribute, Head, returned}
use jaytwo_library.Xml.Text.{is_name_char, skip_whitespace, peek_char}
use jaytwo_library.Xml.Lexer.{parse_attribute_value}
use jaytwo_library.Xml.Parser.{NsMap, add_attribute, parse_attribute, parse_attributes}
use jaytwo_library.Xml.Serializer.{escape_attr, attributes_text}
use jaytwo_library.Xml.Escape.{read_until_stop, escape_attr-All, decode_entities-escape}
use jaytwo_library.Xml.Plain.{IsName, IsPlainAttribute}
use jaytwo_library.Xml.RoundTrip.Names.{
  parse_raw_name_lem, split_qname_plain, no_xmlns_prefix, name_char_marks, skip_name,
}

skip_blank : (s : Bytes) → skip_whitespace (32 ∷ s) ≡ skip_whitespace s
unfolding skip_whitespace is_space drop_while
skip_blank s = refl

value_lem : (v r : Bytes) → parse_attribute_value (34 ∷ (escape_attr v ++ 34 ∷ r)) ≡ returned (v, r)
unfolding parse_attribute_value skip_whitespace is_space
value_lem v r =
    rw (read_until_stop (λ c. c == 34) (escape_attr v) 34 r (escape_attr-All v) refl)
      (ap (λ x. returned (x, r)) (decode_entities-escape v).1)

-- One attribute as it is printed, with the text behind it.
abbrev printed : Bytes → Bytes → Bytes → Bytes
printed name value r = name ++ (b'=' ∷ 34 ∷ (escape_attr value ++ 34 ∷ r))

attribute_lem :
    (name value r : Bytes)
    → IsName name
    → parse_attribute (printed name value r) ≡ returned ((name, value), r)
unfolding parse_attribute skip_whitespace is_space is_name_char
attribute_lem name value r h =
    rw (parse_raw_name_lem name b'=' (34 ∷ (escape_attr value ++ 34 ∷ r)) h refl, value_lem value r)
      refl

abbrev pub with_attributes : Head → List XmlAttribute → Head
with_attributes node more = record node { attributes = node.attributes ++ more }

plain_attribute :
    (a : XmlAttribute)
    → IsPlainAttribute a
    → record { name = a.name; value = a.value; prefix = []; ns_uri = [] } ≡ a
plain_attribute a h = λ i. record {
  name = a.name;
  value = a.value;
  prefix = sym h.no_prefix i;
  ns_uri = sym h.no_uri i;
}

add_lem :
    (node : Head) (m : NsMap) (a : XmlAttribute)
    → IsPlainAttribute a
    → add_attribute node m a.name a.value ≡ (with_attributes node (a ∷ []), m)
unfolding add_attribute
add_lem node m a h =
    rw (split_qname_plain a.name h.named, h.no_declaration, no_xmlns_prefix a.name h.named)
      (ap (λ x. (with_attributes node (x ∷ []), m)) (plain_attribute a h))

-- What is at the end of a tag.
abbrev pub at_end : Bytes → Bool
at_end s = peek_char s b'/' || peek_char s b'>'

end_there : (s : Bytes) → at_end s ≡ true → is_empty s ≡ false
end_there [] h = sym h
end_there (c ∷ s) h = refl

end_lem :
    (fuel : ℕ) (node : Head) (m : NsMap) (s : Bytes)
    → at_end (skip_whitespace s) ≡ true
    → parse_attributes (suc fuel) node m s ≡ returned ((node, m), skip_whitespace s)
unfolding parse_attributes
end_lem fuel node m s h = rw (end_there (skip_whitespace s) h, h) refl

name_front :
    (name r : Bytes) → IsName name → (is_empty (name ++ r) ≡ false) × (at_end (name ++ r) ≡ false)
name_front [] r h = absurd h
name_front (c ∷ s) r (hc, hs) = (refl, name_char_marks c hc.in_name)

step_lem :
    (fuel : ℕ) (node : Head) (m : NsMap) (a : XmlAttribute) (r : Bytes)
    → IsPlainAttribute a
    → parse_attributes (suc fuel) node m (32 ∷ printed a.name a.value r)
      ≡ parse_attributes fuel (with_attributes node (a ∷ [])) m r
unfolding parse_attributes
step_lem fuel node m a r h =
    let rest = b'=' ∷ 34 ∷ (escape_attr a.value ++ 34 ∷ r) in
    let skip = skip_blank (a.name ++ rest) ∙ skip_name a.name rest h.named in
    let (some_text, no_end) = name_front a.name rest h.named in
    rw (skip, some_text, no_end, attribute_lem a.name a.value r h.named, add_lem node m a h) refl

shape :
    (name value later r : Bytes)
    → (32 ∷ (name ++ (b'=' ∷ 34 ∷ (value ++ (34 ∷ later))))) ++ r
      ≡ 32 ∷ (name ++ (b'=' ∷ 34 ∷ (value ++ (34 ∷ (later ++ r)))))
shape name value later r = simp append_assoc

-- All attributes, with enough rounds: one for each, and one at the end.
pub parse_attributes_lem :
    (fuel : ℕ) (node : Head) (m : NsMap) (listed : List XmlAttribute) (r : Bytes)
    → All IsPlainAttribute listed
    → at_end (skip_whitespace r) ≡ true
    → length listed < fuel
    → parse_attributes fuel node m (attributes_text listed ++ r)
      ≡ returned ((with_attributes node listed, m), skip_whitespace r)
unfolding attributes_text
parse_attributes_lem zero node m listed r h e lt = absurd (omega (arith, lt))
parse_attributes_lem (suc fuel) node m [] r h e lt =
    rw (append-nil node.attributes) (end_lem fuel node m r e)
parse_attributes_lem (suc fuel) node m (a ∷ listed) r (ha, h) e lt =
    ap (parse_attributes (suc fuel) node m)
      (shape a.name (escape_attr a.value) (attributes_text listed) r)
    ∙ step_lem fuel node m a (attributes_text listed ++ r) ha
    ∙ parse_attributes_lem fuel (with_attributes node (a ∷ [])) m listed r h e (omega (arith, lt))
    ∙ ap (λ x. returned ((record node { attributes = x }, m), skip_whitespace r))
        (append_assoc node.attributes (a ∷ []) listed)
