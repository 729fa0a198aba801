-- ===== src/Xml/RoundTrip/Steps.antt =====
-- The branches of the parser's loop on what is printed for a plain node.
use jaytwo_library.Prelude.{
  ℕ, suc, true, false, List, [], ◌∷◌, ◌++◌, Bytes, codes, ◌==◌, ◌≡◌, refl, ap, ◌∙◌, arith, All,
  is_empty, if◌then◌else◌,
}
use jaytwo_library.Text.{is_space, equal, drop_while}
use jaytwo_library.StringBasic.Trim.Laws.{IsBlank, IsTrimmed}
use jaytwo_library.Xml.{
  TextPolicy, trim_and_discard_empty, XmlAttribute, Head, XmlNode, element, Nodes, no_nodes,
  push_node, returned, ◌>>=◌,
}
use jaytwo_library.Xml.Text.{
  is_name_char, skip_whitespace, starts_with, trim_spaces, decode_entities,
}
use jaytwo_library.Xml.Lexer.{read_text}
use jaytwo_library.Xml.Parser.{
  NsMap, add_text, trimmed_text, flush_text_buffer, child, markup_at, parse_element, parse_content,
}
use jaytwo_library.Xml.Serializer.{escape_text, attributes_text}
use jaytwo_library.Xml.Escape.{
  read_until_stop, decode_entities-escape, trim_spaces-escape_text, trim_spaces_blank,
}
use jaytwo_library.Xml.Plain.{IsName, IsPlain, IsPlainAttribute}
use jaytwo_library.Xml.RoundTrip.Tags.{started, parse_start_tag_lem, parse_end_tag_lem}
use jaytwo_library.Xml.RoundTrip.Layout.{tag}

-- A text that is there and has no `<`.
abbrev pub IsChunk : Bytes → Type 0
IsChunk [] = ⊥
IsChunk (c ∷ b) = All (λ d. (d == b'<') ≡ false) (c ∷ b)

pub read_step :
    (fuel : ℕ) (policy : TextPolicy) (m : NsMap) (node : Head) (kids : Nodes) (b s : Bytes)
    → IsChunk b
    → parse_content (suc fuel) policy m node kids [] (b ++ b'<' ∷ s)
      ≡ parse_content fuel policy m node kids b (b'<' ∷ s)
unfolding parse_content read_text
read_step fuel policy m node kids [] s h = absurd h
read_step fuel policy m node kids (c ∷ b) s h =
    rw (h.0, read_until_stop (λ d. d == b'<') (c ∷ b) b'<' s h refl, parse_content) refl

pub read_tag :
    (fuel : ℕ) (policy : TextPolicy) (m : NsMap) (node : Head) (kids : Nodes) (b : Bytes)
    (n : XmlNode) (indent : ℕ) (r : Bytes)
    → IsChunk b
    → parse_content (suc fuel) policy m node kids [] (b ++ tag n indent r)
      ≡ parse_content fuel policy m node kids b (tag n indent r)
unfolding tag
read_tag fuel policy m node kids b (element h inner) indent r hb =
    read_step fuel policy m node kids b _ hb

pub end_step :
    (fuel : ℕ) (policy : TextPolicy) (m : NsMap) (node : Head) (kids : Nodes) (buffer r : Bytes)
    (after : Head)
    → flush_text_buffer policy buffer node ≡ after
    → IsName after.name
    → parse_content (suc fuel) policy m node kids buffer (codes "</" ++ (after.name ++ b'>' ∷ r))
      ≡ returned (element after kids, r)
unfolding parse_content markup_at starts_with equal
end_step fuel policy m node kids buffer r after e h = rw (e, parse_end_tag_lem after.name r h) refl

no_markup : (c : ℕ) (s : Bytes) → is_name_char c ≡ true → markup_at (b'<' ∷ c ∷ s) ≡ child
unfolding markup_at starts_with equal is_name_char
no_markup c s h = ground (arith, h)

child_front : (name s : Bytes) → IsName name → markup_at (b'<' ∷ (name ++ s)) ≡ child
child_front [] s h = absurd h
child_front (c ∷ name) s (hc, hs) = no_markup c (name ++ s) hc.in_name

child_at :
    (fuel : ℕ) (policy : TextPolicy) (m : NsMap) (node : Head) (kids : Nodes)
    (buffer name s : Bytes)
    → IsName name
    → parse_content (suc fuel) policy m node kids buffer (b'<' ∷ (name ++ s)) ≡ (
        parse_element fuel policy m (b'<' ∷ (name ++ s)) >>= λ q.
        parse_content fuel policy m
          (flush_text_buffer policy buffer node)
          (push_node kids q.0)
          []
          q.1)
unfolding parse_content
child_at fuel policy m node kids buffer name s h = rw (child_front name s h, parse_content) refl

pub child_step :
    (fuel : ℕ) (policy : TextPolicy) (m : NsMap) (node : Head) (kids : Nodes) (buffer : Bytes)
    (n : XmlNode) (indent : ℕ) (r : Bytes)
    → IsPlain n
    → parse_content (suc fuel) policy m node kids buffer (tag n indent r) ≡ (
        parse_element fuel policy m (tag n indent r) >>= λ q.
        parse_content fuel policy m
          (flush_text_buffer policy buffer node)
          (push_node kids q.0)
          []
          q.1)
unfolding tag IsPlain
child_step fuel policy m node kids buffer (element h inner) indent r (hp, hs) =
    child_at fuel policy m node kids buffer h.name _ hp.named

pub bare_element :
    (fuel : ℕ) (policy : TextPolicy) (name : Bytes) (listed : List XmlAttribute) (r : Bytes)
    → IsName name
    → All IsPlainAttribute listed
    → parse_element
        (suc fuel)
        policy
        []
        (b'<' ∷ (name ++ (attributes_text listed ++ 32 ∷ b'/' ∷ b'>' ∷ r)))
      ≡ returned (element (started name listed) no_nodes, r)
unfolding parse_element starts_with equal skip_whitespace is_space is_name_char
bare_element fuel policy name listed r h ha =
    rw (parse_start_tag_lem name listed 32 (b'/' ∷ b'>' ∷ r) h ha refl refl) refl

pub open_element :
    (fuel : ℕ) (policy : TextPolicy) (name : Bytes) (listed : List XmlAttribute) (s : Bytes)
    → IsName name
    → All IsPlainAttribute listed
    → parse_element (suc fuel) policy [] (b'<' ∷ (name ++ (attributes_text listed ++ b'>' ∷ s)))
      ≡ parse_content fuel policy [] (started name listed) no_nodes [] s
unfolding parse_element starts_with equal skip_whitespace is_space is_name_char
open_element fuel policy name listed s h ha =
    rw (parse_start_tag_lem name listed b'>' s h ha refl refl) refl

flush_trim :
    (raw : Bytes) (node : Head)
    → flush_text_buffer trim_and_discard_empty raw node ≡ trimmed_text node raw
unfolding flush_text_buffer trim_spaces drop_while
flush_trim [] node = refl
flush_trim (c ∷ raw) node = refl

pub flush_blank :
    (b : Bytes) (node : Head) → IsBlank b → flush_text_buffer trim_and_discard_empty b node ≡ node
flush_blank b node h = flush_trim b node ∙ rw (trim_spaces_blank b h) refl

escape_text_there : (c : ℕ) (s : Bytes) → is_empty (escape_text (c ∷ s)) ≡ false
unfolding escape_text
escape_text_there c s = ground arith

text_left :
    (name : Bytes) (listed : List XmlAttribute) (text : Bytes)
    → (if is_empty (escape_text text)
        then started name listed
        else add_text (started name listed) (decode_entities (escape_text text)))
      ≡ record { name = name; prefix = []; ns_uri = []; text = text; attributes = listed }
unfolding escape_text
text_left name listed [] = refl
text_left name listed (c ∷ text) = rw (escape_text_there c text) (
    ap (λ x. record { name = name; prefix = []; ns_uri = []; text = x; attributes = listed })
      (decode_entities-escape (c ∷ text)).0)

-- The text that a flush leaves in a node without one.
pub flush_lem :
    (name : Bytes) (listed : List XmlAttribute) (text b : Bytes)
    → IsTrimmed text
    → IsBlank b
    → flush_text_buffer trim_and_discard_empty (escape_text text ++ b) (started name listed)
      ≡ record { name = name; prefix = []; ns_uri = []; text = text; attributes = listed }
flush_lem name listed text b h hb =
    flush_trim (escape_text text ++ b) (started name listed)
    ∙ rw (trim_spaces-escape_text text b h hb) (text_left name listed text)
