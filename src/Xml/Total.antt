-- ===== src/Xml/Total.antt =====
-- The parser is total: its fuel is enough for every text.
pub mod Tokens
pub mod Tags
use jaytwo_library.Prelude.{
  ℕ, ◌+◌, ◌≤◌, ◌<◌, zero, suc, Bool, Bool-cases, true, false, not, List, [], ◌∷◌, ◌++◌, Bytes,
  codes, ◌==◌, ◌≡◌, ◌≢◌, ◌⊎◌, refl, sym, ap, ◌∙◌, inl, inr, arith, length, length-drop, drop,
  is_empty, if◌then◌else◌, subst,
}
use jaytwo_library.Xml.{
  TextPolicy, Head, XmlNode, element, Nodes, no_nodes, push_node, XmlError, Result, thrown,
  returned, ◌>>=◌, ◌>>◌, throw_if, out_of_fuel, greater_missing, empty_text, root_missing,
}
use jaytwo_library.Xml.Text.{skip_whitespace, peek_char, starts_with, read_until}
use jaytwo_library.Xml.Lexer.{
  read_text, parse_cdata, skip_misc, skip_processing_instruction, skip_comment,
  skip_optional_xml_declaration_and_misc,
}
use jaytwo_library.Xml.Parser.{
  NsMap, add_text, flush_text_buffer, Markup, end_tag, comment, instruction, cdata, child,
  markup_at, parse_start_tag, parse_end_tag, parse_element, parse_content, parse,
}
use jaytwo_library.Xml.Total.Tokens.{
  is_fuel, Yields, Shorter, bind-Yields, weaken-Yields, then-Yields, if-Yields,
  skip_whitespace_short, read_until_short, parse_cdata-Yields, skip_comment-Yields,
  skip_processing_instruction-Yields,
}
use jaytwo_library.Xml.Total.Tags.{
  drop_peek, skip_misc-Yields, parse_start_tag-Yields, parse_end_tag-Yields,
}

-- The text that is left is not longer.
abbrev Ends : Bytes → XmlNode × Bytes → Type 0
Ends s q = length q.1 ≤ length s

read_text_short :
    (c : ℕ) (s : Bytes) → (c == b'<') ≡ false → length (read_text (c ∷ s)).1 ≤ length s
unfolding read_text read_until
read_text_short c s e = rw e (read_until_short (λ d. d == b'<') s)

markup_cases :
    (k : Markup)
    → (k ≡ end_tag) ⊎ ((k ≡ comment) ⊎ ((k ≡ instruction) ⊎ ((k ≡ cdata) ⊎ (k ≡ child))))
markup_cases end_tag = inl refl
markup_cases comment = inr (inl refl)
markup_cases instruction = inr (inr (inl refl))
markup_cases cdata = inr (inr (inr (inl refl)))
markup_cases child = inr (inr (inr (inr refl)))

-- A round of the loop, when what it calls yields.
text_round :
    (fuel : ℕ) (policy : TextPolicy) (m : NsMap) (node : Head) (kids : Nodes) (buffer : Bytes)
    (c : ℕ) (s : Bytes)
    → (c == b'<') ≡ false
    → ((b' s' : Bytes)
        → length s' ≤ length s
        → Yields (Ends (c ∷ s)) (parse_content fuel policy m node kids b' s'))
    → Yields (Ends (c ∷ s)) (parse_content (suc fuel) policy m node kids buffer (c ∷ s))
unfolding parse_content
text_round fuel policy m node kids buffer c s e next =
    rw (e, parse_content)
      (next (buffer ++ (read_text (c ∷ s)).0) (read_text (c ∷ s)).1 (read_text_short c s e))

markup_round :
    (fuel : ℕ) (policy : TextPolicy) (m : NsMap) (node : Head) (kids : Nodes) (buffer : Bytes)
    (c : ℕ) (s : Bytes)
    → (c == b'<') ≡ true
    → ((node' : Head) (kids' : Nodes) (s' : Bytes)
        → length s' ≤ length s
        → Yields (Ends (c ∷ s)) (parse_content fuel policy m node' kids' [] s'))
    → Yields (Shorter (c ∷ s)) (parse_element fuel policy m (c ∷ s))
    → Yields (Ends (c ∷ s)) (parse_content (suc fuel) policy m node kids buffer (c ∷ s))
unfolding parse_content
markup_round fuel policy m node kids buffer c s e next inner =
    let flushed = flush_text_buffer policy buffer node in
    let Left : Bytes → Type 0 = λ r. length r < length (c ∷ s) in
    elim (markup_cases (markup_at (c ∷ s))) [
      | inl f ↦
          rw (e, f, parse_content)
            (bind-Yields Left (Ends (c ∷ s)) (parse_end_tag flushed.name (c ∷ s)) _
              (parse_end_tag-Yields flushed.name (c ∷ s)) (λ r h. omega (arith, h)))
      | inr (inl f) ↦
          rw (e, f, parse_content)
            (bind-Yields Left (Ends (c ∷ s)) (skip_comment (c ∷ s)) _ (skip_comment-Yields (c ∷ s))
              (λ r h. next flushed kids r (omega (arith, h))))
      | inr (inr (inl f)) ↦
          rw (e, f, parse_content)
            (bind-Yields Left (Ends (c ∷ s)) (skip_processing_instruction (c ∷ s)) _
              (skip_processing_instruction-Yields (c ∷ s))
              (λ r h. next flushed kids r (omega (arith, h))))
      | inr (inr (inr (inl f))) ↦
          rw (e, f, parse_content)
            (bind-Yields (Shorter (c ∷ s)) (Ends (c ∷ s)) (parse_cdata (c ∷ s)) _
              (parse_cdata-Yields (c ∷ s))
              (λ q h. next (add_text flushed q.0) kids q.1 (omega (arith, h))))
      | inr (inr (inr (inr f))) ↦
          rw (e, f, parse_content)
            (bind-Yields (Shorter (c ∷ s)) (Ends (c ∷ s)) (parse_element fuel policy m (c ∷ s)) _
              inner (λ q h. next flushed (push_node kids q.0) q.1 (omega (arith, h))))
    ]

element_round :
    (fuel : ℕ) (policy : TextPolicy) (m : NsMap) (s : Bytes)
    → ((m' : NsMap) (node : Head) (s' : Bytes)
        → length s' + 3 ≤ length s
        → Yields (Ends s') (parse_content fuel policy m' node no_nodes [] s'))
    → Yields (Shorter s) (parse_element (suc fuel) policy m s)
unfolding parse_element
element_round fuel policy m s next =
    let start : (Head × NsMap) × Bytes → Type 0 = λ q. length q.1 + 2 ≤ length s in
    bind-Yields start (Shorter s) (parse_start_tag m s) _ (parse_start_tag-Yields m s) (λ q h.
      if-Yields (Shorter s) (starts_with q.1 (codes "/>")) _ _
        (λ e. omega (arith, h, length-drop 2 q.1))
        (λ e.
          if-Yields (Shorter s) (not (peek_char q.1 b'>')) _ _ (λ f. refl)
            (λ f.
              let less = drop_peek q.1 b'>' f in
              weaken-Yields (Ends (drop 1 q.1)) (Shorter s)
                (parse_content fuel policy q.0.1 q.0.0 no_nodes [] (drop 1 q.1))
                (next q.0.1 q.0.0 (drop 1 q.1) (omega (arith, h, less)))
                (λ p k. omega (arith, h, k, less)))))

mutual
  unfolding parse_content

  pub parse_element-Yields :
      (fuel : ℕ) (policy : TextPolicy) (m : NsMap) (s : Bytes)
      → length s < fuel
      → Yields (Shorter s) (parse_element fuel policy m s)
  parse_element-Yields zero policy m s lt = absurd (omega (arith, lt))
  parse_element-Yields (suc fuel) policy m s lt = element_round fuel policy m s (λ m' node s' h.
      parse_content-Yields fuel policy m' node no_nodes [] s' (omega (arith, lt, h)))

  parse_content-Yields :
      (fuel : ℕ) (policy : TextPolicy) (m : NsMap) (node : Head) (kids : Nodes) (buffer s : Bytes)
      → length s + 2 ≤ fuel
      → Yields (Ends s) (parse_content fuel policy m node kids buffer s)
  parse_content-Yields zero policy m node kids buffer s lt = absurd (omega (arith, lt))
  parse_content-Yields (suc fuel) policy m node kids buffer [] lt = omega arith
  parse_content-Yields (suc fuel) policy m node kids buffer (c ∷ s) lt =
      elim (Bool-cases (c == b'<')) [
        | inr e ↦ text_round fuel policy m node kids buffer c s e (λ b' s' h.
            weaken-Yields (Ends s') (Ends (c ∷ s)) (parse_content fuel policy m node kids b' s')
              (parse_content-Yields fuel policy m node kids b' s' (omega (arith, lt, h)))
              (λ q k. omega (arith, h, k)))
        | inl e ↦
            markup_round fuel policy m node kids buffer c s e
              (λ node' kids' s' h.
                weaken-Yields (Ends s') (Ends (c ∷ s))
                  (parse_content fuel policy m node' kids' [] s')
                  (parse_content-Yields fuel policy m node' kids' [] s' (omega (arith, lt, h)))
                  (λ q k. omega (arith, h, k)))
              (parse_element-Yields fuel policy m (c ∷ s) (omega (arith, lt)))
      ]

parse-Yields : (xml : Bytes) (policy : TextPolicy) → Yields (λ root. Unit {0}) (parse xml policy)
unfolding parse skip_optional_xml_declaration_and_misc
parse-Yields xml policy =
    let first = skip_whitespace xml in
    then-Yields (λ root. Unit {0}) (is_empty xml) empty_text _ refl
      (λ e.
        bind-Yields (λ s. length s ≤ length first) (λ root. Unit {0})
          (skip_misc (suc (length first)) first) _
          (skip_misc-Yields (suc (length first)) first (omega arith))
          (λ s h.
            let here = skip_whitespace s in
            then-Yields (λ root. Unit {0}) (not (peek_char here b'<')) root_missing _ refl
              (λ f.
                bind-Yields (Shorter here) (λ root. Unit {0})
                  (parse_element (suc (length here)) policy [] here) _
                  (parse_element-Yields (suc (length here)) policy [] here (omega arith))
                  (λ q k. tt))))

no_fuel : (r : Result XmlNode) → Yields (λ root. Unit {0}) r → r ≢ thrown out_of_fuel
no_fuel r h e = let lit = subst (Yields (λ root. Unit {0})) e h in cc

-- Whatever the text and the policy, `parse` ends with a node or with an error of the source: the
-- fuel is never used up.
pub parse_total : (xml : Bytes) (policy : TextPolicy) → parse xml policy ≢ thrown out_of_fuel
parse_total xml policy = no_fuel (parse xml policy) (parse-Yields xml policy)
