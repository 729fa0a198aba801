-- ===== src/Xml/Faults.antt =====
-- End tags that do not fit, and elements that are never closed.
use jaytwo_library.Prelude.{
  ℕ, ◌+◌, ◌≤◌, zero, suc, Bool-cases, inl, inr, false, List, [], ◌∷◌, ◌++◌, Bytes, codes, ◌==◌, ◌≡◌,
  ◌≢◌, refl, sym, ap, ◌∙◌, arith, All, length, length-append, is_empty, append-nil,
}
use jaytwo_library.Text.{is_space, equal, str_eq}
use jaytwo_library.Text.Find.{str_eq_iff}
use jaytwo_library.StringBasic.Trim.Laws.{IsTrimmed}
use jaytwo_library.Xml.{
  TextPolicy, trim_and_discard_empty, preserve, collapse_whitespace_only, XmlAttribute, Head,
  element, Nodes, no_nodes, names_differ, thrown, returned, ◌>>=◌,
}
use jaytwo_library.Xml.Text.{trim_spaces, skip_whitespace, starts_with, expect, is_name_char}
use jaytwo_library.Xml.Lexer.{read_text, skip_optional_xml_declaration_and_misc}
use jaytwo_library.Xml.Parser.{
  all_space, trimmed_text, flush_text_buffer, markup_at, parse_end_tag, parse_content, parse,
}
use jaytwo_library.Xml.Serializer.{escape_text, attributes_text}
use jaytwo_library.Xml.Plain.{IsName, IsPlainAttribute}
use jaytwo_library.Xml.RoundTrip.{skip_name, parse_at}
use jaytwo_library.Xml.RoundTrip.Names.{read_until_end, parse_raw_name_lem, split_qname_plain}
use jaytwo_library.Xml.RoundTrip.Tags.{started}
use jaytwo_library.Xml.RoundTrip.Steps.{IsChunk, read_step, open_element, flush_lem}
use jaytwo_library.Xml.RoundTrip.Chunks.{front_text-IsChunk}

differing : (name other : Bytes) → name ≢ other → str_eq other name ≡ false
differing name other h = elim (Bool-cases (str_eq other name)) [
  | inl e ↦ absurd (h (sym ((str_eq_iff other name).0 e)))
  | inr e ↦ e
]

end_tag_differs :
    (name other r : Bytes)
    → IsName other
    → name ≢ other
    → parse_end_tag name (codes "</" ++ (other ++ (b'>' ∷ r))) ≡ thrown (names_differ name other)
unfolding parse_end_tag expect is_name_char skip_whitespace is_space equal
end_tag_differs name other r h ne =
    rw (parse_raw_name_lem other b'>' r h refl, split_qname_plain other h, differing name other ne)
      refl

-- The element's name and attributes, a text that is there, and what is behind it.
abbrev pub opened : Bytes → List XmlAttribute → Bytes → Bytes → Bytes
opened name listed text r =
    b'<' ∷ (name ++ (attributes_text listed ++ b'>' ∷ (escape_text text ++ r)))

abbrev pub with_text : Bytes → List XmlAttribute → Bytes → Head
with_text name listed text = record {
  name = name;
  prefix = [];
  ns_uri = [];
  text = text;
  attributes = listed;
}

parse-opened :
    (name : Bytes) (listed : List XmlAttribute) (text r : Bytes) (policy : TextPolicy)
    → IsName name
    → All IsPlainAttribute listed
    → (parse (opened name listed text r) policy ≡ (
        parse_content
          (length (opened name listed text r))
          policy
          []
          (started name listed)
          no_nodes
          []
          (escape_text text ++ r)
        >>= λ q. returned q.0))
unfolding skip_whitespace is_space skip_optional_xml_declaration_and_misc
parse-opened name listed text r policy h ha =
    let inside = escape_text text ++ r in
    let xml = opened name listed text r in
    let start = attributes_text listed ++ b'>' ∷ inside in
    parse_at xml xml policy refl (skip_name (length xml) name start h).0 refl refl
    ∙ ap (λ x. x >>= λ q. returned q.0) (open_element (length xml) policy name listed inside h ha)

opened_long :
    (name : Bytes) (listed : List XmlAttribute) (text r : Bytes)
    → length r + 2 ≤ length (opened name listed text r)
opened_long name listed text r =
    let inside = escape_text text ++ r in
    omega (
      arith,
      length-append name (attributes_text listed ++ b'>' ∷ inside),
      length-append (attributes_text listed) (b'>' ∷ inside),
      length-append (escape_text text) r,
    )

trimmed-name : (node : Head) (raw : Bytes) → (trimmed_text node raw).name ≡ node.name
trimmed-name node raw = elim (Bool-cases (is_empty (trim_spaces raw))) [
  | inl e ↦ rw e refl
  | inr e ↦ rw e refl
]

-- A flush changes no name.
flush-name :
    (policy : TextPolicy) (buffer : Bytes) (node : Head)
    → (flush_text_buffer policy buffer node).name ≡ node.name
unfolding flush_text_buffer
flush-name policy [] node = refl
flush-name trim_and_discard_empty (c ∷ raw) node = trimmed-name node (c ∷ raw)
flush-name preserve (c ∷ raw) node = refl
flush-name collapse_whitespace_only (c ∷ raw) node = elim (Bool-cases (all_space (c ∷ raw))) [
  | inl e ↦ rw e refl
  | inr e ↦ rw e (trimmed-name node (c ∷ raw))
]

differs_step :
    (fuel : ℕ) (policy : TextPolicy) (node : Head) (kids : Nodes) (buffer other r : Bytes)
    → 1 ≤ fuel
    → IsName other
    → node.name ≢ other
    → parse_content fuel policy [] node kids buffer (codes "</" ++ (other ++ (b'>' ∷ r)))
      ≡ thrown (names_differ node.name other)
unfolding parse_content markup_at starts_with equal
differs_step zero policy node kids buffer other r lt h ne = absurd (omega (arith, lt))
differs_step (suc fuel) policy node kids buffer other r lt h ne =
    rw (flush-name policy buffer node, end_tag_differs node.name other r h ne) refl

differs_content :
    (fuel : ℕ) (policy : TextPolicy) (node : Head) (kids : Nodes) (text other r : Bytes)
    → 2 ≤ fuel
    → IsName other
    → node.name ≢ other
    → parse_content fuel policy [] node kids []
        (escape_text text ++ (codes "</" ++ (other ++ (b'>' ∷ r))))
      ≡ thrown (names_differ node.name other)
unfolding escape_text
differs_content zero policy node kids text other r lt h ne = absurd (omega (arith, lt))
differs_content (suc fuel) policy node kids [] other r lt h ne =
    differs_step (suc fuel) policy node kids [] other r (omega (arith, lt)) h ne
differs_content (suc fuel) policy node kids (c ∷ text) other r lt h ne =
    read_step fuel policy [] node kids (escape_text (c ∷ text)) (b'/' ∷ (other ++ (b'>' ∷ r)))
      (front_text-IsChunk (c ∷ text) no_nodes 0 refl)
    ∙ differs_step fuel policy node kids (escape_text (c ∷ text)) other r (omega (arith, lt)) h ne

-- An element with a text whose end tag has another name than its start tag is refused, with both
-- names, under every policy and whatever follows. Both names are of name chars and have no colon: of a
-- prefixed name the code compares the local part alone.
pub parse-end_differs :
    (name other : Bytes) (listed : List XmlAttribute) (text r : Bytes) (policy : TextPolicy)
    → IsName name
    → IsName other
    → All IsPlainAttribute listed
    → name ≢ other
    → parse (opened name listed text (codes "</" ++ (other ++ (b'>' ∷ r)))) policy
      ≡ thrown (names_differ name other)
parse-end_differs name other listed text r policy h h' ha ne =
    let back = codes "</" ++ (other ++ (b'>' ∷ r)) in
    let fuel = length (opened name listed text back) in
    parse-opened name listed text back policy h ha
    ∙ ap (λ x. x >>= λ q. returned q.0)
        (differs_content fuel policy (started name listed) no_nodes text other r
          (omega (arith, opened_long name listed text back)) h' ne)

read_all : (b : Bytes) → All (λ d. (d == b'<') ≡ false) b → read_text b ≡ (b, [])
unfolding read_text
read_all b h = read_until_end (λ d. d == b'<') b h

read_end :
    (fuel : ℕ) (policy : TextPolicy) (node : Head) (kids : Nodes) (b : Bytes)
    → IsChunk b
    → parse_content (suc (suc fuel)) policy [] node kids [] b
      ≡ returned (element (flush_text_buffer policy b node) kids, [])
unfolding parse_content
read_end fuel policy node kids [] hb = absurd hb
read_end fuel policy node kids (c ∷ b) hb = rw (hb.0, read_all (c ∷ b) hb, parse_content) refl

unclosed_content :
    (fuel : ℕ) (name : Bytes) (listed : List XmlAttribute) (text : Bytes)
    → 2 ≤ fuel
    → IsTrimmed text
    → parse_content fuel trim_and_discard_empty []
        (started name listed)
        no_nodes
        []
        (escape_text text)
      ≡ returned (element (with_text name listed text) no_nodes, [])
unfolding parse_content escape_text
unclosed_content zero name listed text lt h = absurd (omega (arith, lt))
unclosed_content (suc zero) name listed text lt h = absurd (omega (arith, lt))
unclosed_content (suc (suc fuel)) name listed [] lt h = refl
unclosed_content (suc (suc fuel)) name listed (c ∷ text) lt h =
    read_end fuel trim_and_discard_empty (started name listed) no_nodes (escape_text (c ∷ text))
      (front_text-IsChunk (c ∷ text) no_nodes 0 refl)
    ∙ ap
        (λ x.
          returned (
            element (flush_text_buffer trim_and_discard_empty x (started name listed)) no_nodes,
            [],
          ))
        (sym (append-nil (escape_text (c ∷ text))))
    ∙ ap (λ x. returned (element x no_nodes, [])) (flush_lem name listed (c ∷ text) [] h tt)

-- Under the policy `trim_and_discard_empty` an element without an end tag is accepted at the end of the
-- input, with its attributes and its trimmed text, as if it were closed. Names have no colon.
pub parse_unclosed :
    (name : Bytes) (listed : List XmlAttribute) (text : Bytes)
    → IsName name
    → All IsPlainAttribute listed
    → IsTrimmed text
    → parse (opened name listed text []) trim_and_discard_empty
      ≡ returned (element (with_text name listed text) no_nodes)
parse_unclosed name listed text h ha ht =
    let fuel = length (opened name listed text []) in
    parse-opened name listed text [] trim_and_discard_empty h ha
    ∙ ap
        (λ x.
          parse_content fuel trim_and_discard_empty [] (started name listed) no_nodes [] x >>= λ q.
          returned q.0)
        (append-nil (escape_text text))
    ∙ ap (λ x. x >>= λ q. returned q.0)
        (unclosed_content fuel name listed text (omega (arith, opened_long name listed text [])) ht)
