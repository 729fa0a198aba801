-- ===== src/Xml/RoundTrip.antt =====
-- A plain tree that is printed is parsed to itself.
pub mod Names
pub mod Attributes
pub mod Tags
pub mod Layout
pub mod Steps
pub mod Chunks
pub mod Content
use jaytwo_library.Prelude.{
  ℕ, ◌+◌, drop, zero, suc, Bool, true, false, not, List, [], ◌∷◌, ◌++◌, Bytes, codes, ◌≡◌, refl,
  sym, ap, ◌∙◌, arith, append-nil, length, is_empty, ◌==◌, ltb, leb, All, length-append,
}
use jaytwo_library.Text.{is_space, equal, drop_while}
use jaytwo_library.Xml.{
  TextPolicy, trim_and_discard_empty, XmlNode, element, Result, thrown, returned, ◌>>=◌, ◌>>◌,
  throw_if,
}
use jaytwo_library.Xml.Text.{skip_whitespace, is_name_char, peek_char, starts_with, expect, scan_to}
use jaytwo_library.Xml.Lexer.{
  skip_misc, skip_processing_instruction, skip_optional_xml_declaration_and_misc,
}
use jaytwo_library.Xml.Parser.{parse_element, parse}
use jaytwo_library.Xml.Serializer.{declaration, serialize_node, serialize_xml}
use jaytwo_library.Xml.Plain.{IsName, IsPlain}
use jaytwo_library.Xml.RoundTrip.Layout.{tag, serialize_node-tag}
use jaytwo_library.Xml.RoundTrip.Content.{parse_element-tag}

printed_root : (n : XmlNode) → serialize_node n 0 ≡ tag n 0 (10 ∷ [])
printed_root n = sym (append-nil (serialize_node n 0)) ∙ serialize_node-tag n 0 []

name_marks : (c : ℕ) → is_name_char c ≡ true → ((b'?' == c) ≡ false) × ((b'!' == c) ≡ false)
unfolding is_name_char
name_marks c h = (ground (arith, h), ground (arith, h))

-- The root is where skipping ends.
pub skip_name :
    (fuel : ℕ) (name r : Bytes)
    → IsName name
    → (skip_misc (suc fuel) (b'<' ∷ (name ++ r)) ≡ returned (b'<' ∷ (name ++ r)))
      × (skip_misc (suc fuel) (10 ∷ b'<' ∷ (name ++ r)) ≡ returned (b'<' ∷ (name ++ r)))
unfolding skip_misc skip_whitespace is_space starts_with equal
skip_name fuel [] r h = absurd h
skip_name fuel (c ∷ name) r (hc, hs) =
    let (no_instruction, no_comment) = name_marks c hc.in_name in
    (rw (no_instruction, no_comment) refl, rw (no_instruction, no_comment) refl)

skip_root :
    (fuel : ℕ) (n : XmlNode) (r : Bytes)
    → IsPlain n
    → (skip_misc (suc fuel) (tag n 0 r) ≡ returned (tag n 0 r))
      × (skip_misc (suc fuel) (10 ∷ tag n 0 r) ≡ returned (tag n 0 r))
      × (skip_whitespace (tag n 0 r) ≡ tag n 0 r)
      × (peek_char (tag n 0 r) b'<' ≡ true)
unfolding tag IsPlain skip_whitespace is_space
skip_root fuel (element h kids) r (hp, hs) =
    let (first, second) = skip_name fuel h.name _ hp.named in (first, second, refl, refl)

-- An instruction without `?` is scanned to its end.
scan_lem :
    (a s : Bytes)
    → All (λ c. (b'?' == c) ≡ false) a
    → scan_to (codes "?>") 1 (a ++ b'?' ∷ b'>' ∷ s) ≡ (a, b'?' ∷ b'>' ∷ s)
unfolding scan_to starts_with equal
scan_lem [] s h = ground arith
scan_lem (c ∷ a) s (hc, h) =
    let many : ltb 1 (length (c ∷ (a ++ b'?' ∷ b'>' ∷ s))) ≡ true =
      let size = length-append a (b'?' ∷ b'>' ∷ s) in ground arith in
    rw (scan_lem a s h, many, hc) refl

instruction_lem :
    (a s : Bytes)
    → All (λ c. (b'?' == c) ≡ false) a
    → skip_processing_instruction (codes "<?" ++ (a ++ b'?' ∷ b'>' ∷ s)) ≡ returned s
unfolding skip_processing_instruction expect starts_with equal
instruction_lem a s h =
    let left : leb (length (b'?' ∷ b'>' ∷ s)) 1 ≡ false = ground arith in
    rw (scan_lem a s h, left) refl

-- What stands in the declaration.
abbrev inside : Bytes
inside = codes "xml version=\"1.0\" encoding=\"UTF-8\""

inside-All : All (λ c. (b'?' == c) ≡ false) inside
inside-All = ground arith

-- The declaration is skipped as a processing instruction.
skip_declaration :
    (fuel : ℕ) (s : Bytes) → skip_misc (suc fuel) (declaration ++ s) ≡ skip_misc fuel (10 ∷ s)
unfolding skip_misc skip_whitespace is_space starts_with equal
skip_declaration fuel s = rw (instruction_lem inside (10 ∷ s) inside-All) refl

root_there : (n : XmlNode) → is_empty (tag n 0 (10 ∷ [])) ≡ false
unfolding tag
root_there (element h kids) = refl

-- The root is parsed once what may stand before it is skipped.
pub parse_at :
    (xml root : Bytes) (policy : TextPolicy)
    → is_empty xml ≡ false
    → skip_optional_xml_declaration_and_misc (skip_whitespace xml) ≡ returned root
    → skip_whitespace root ≡ root
    → peek_char root b'<' ≡ true
    → parse xml policy ≡ (parse_element (suc (length root)) policy [] root >>= λ q. returned q.0)
unfolding parse
parse_at xml root policy some_text skipped same starts = rw (some_text, skipped, same, starts) refl

parse_root :
    (xml : Bytes) (n : XmlNode)
    → IsPlain n
    → is_empty xml ≡ false
    → skip_optional_xml_declaration_and_misc (skip_whitespace xml) ≡ returned (tag n 0 (10 ∷ []))
    → parse xml trim_and_discard_empty ≡ returned n
parse_root xml n h some_text skipped =
    let root = tag n 0 (10 ∷ []) in
    let (_, _, same, starts) = skip_root 0 n (10 ∷ []) h in
    parse_at xml root trim_and_discard_empty some_text skipped same starts
    ∙ ap (λ x. x >>= λ q. returned q.0)
        (parse_element-tag n 0 (10 ∷ []) (suc (length root)) h (omega arith))

-- A plain tree that is printed, with the declaration or without, is parsed to itself, when texts
-- are trimmed.
pub parse-serialize_xml :
    (node : XmlNode) (include_declaration : Bool)
    → IsPlain node
    → parse (serialize_xml node include_declaration) trim_and_discard_empty ≡ returned node
unfolding serialize_xml skip_optional_xml_declaration_and_misc skip_whitespace is_space
parse-serialize_xml node false h =
    let root = tag node 0 (10 ∷ []) in
    let (first, _, same, _) = skip_root (length root) node (10 ∷ []) h in
    rw (printed_root node) (
      parse_root root node h (root_there node)
        (ap skip_optional_xml_declaration_and_misc same ∙ first))
parse-serialize_xml node true h =
    let xml = declaration ++ tag node 0 (10 ∷ []) in
    let (_, second, _, _) = skip_root (length (drop 1 xml)) node (10 ∷ []) h in
    rw (printed_root node)
      (parse_root xml node h refl (skip_declaration (length xml) (tag node 0 (10 ∷ [])) ∙ second))
