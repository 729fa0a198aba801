-- ===== src/Xml/Total/Tags.antt =====
-- Attributes and tags take chars off the text, with a round for each char.
use jaytwo_library.Prelude.{
  ℕ, ◌+◌, ◌≤◌, ◌<◌, zero, suc, false, not, ◌||◌, [], ◌∷◌, Bytes, codes, ◌≡◌, refl, arith, length,
  drop, is_empty,
}
use jaytwo_library.Text.{str_eq}
use jaytwo_library.Xml.{Head, equals_missing, start_missing, end_misplaced, end_greater_missing}
use jaytwo_library.Xml.Text.{skip_whitespace, peek_char, starts_with, expect}
use jaytwo_library.Xml.Lexer.{
  parse_raw_name, split_qname, parse_attribute_value, skip_misc, skip_processing_instruction,
  skip_comment,
}
use jaytwo_library.Xml.Parser.{
  NsMap, add_attribute, parse_attribute, parse_attributes, start_head, parse_start_tag,
  parse_end_tag,
}
use jaytwo_library.Xml.Total.Tokens.{
  Yields, Shorter, bind-Yields, weaken-Yields, then-Yields, if-Yields, skip_whitespace_short,
  expect-Yields, parse_raw_name-Yields, parse_attribute_value-Yields, skip_comment-Yields,
  skip_processing_instruction-Yields,
}

drop_one : (s : Bytes) → length (drop 1 s) ≤ length s
drop_one [] = omega arith
drop_one (c ∷ s) = omega arith

pub drop_peek : (s : Bytes) (c : ℕ) → not (peek_char s c) ≡ false → length (drop 1 s) + 1 ≡ length s
drop_peek [] c e = cc
drop_peek (d ∷ s) c e = omega arith

parse_attribute-Yields : (s : Bytes) → Yields (Shorter s) (parse_attribute s)
unfolding parse_attribute
parse_attribute-Yields s =
    bind-Yields (Shorter s) (Shorter s) (parse_raw_name s) _ (parse_raw_name-Yields s)
      (λ (raw_name, s1) h1.
        let s2 = skip_whitespace s1 in
        then-Yields (Shorter s) (not (peek_char s2 b'=')) equals_missing _ refl (λ e.
          bind-Yields (Shorter (drop 1 s2)) (Shorter s) (parse_attribute_value (drop 1 s2)) _
            (parse_attribute_value-Yields (drop 1 s2))
            (λ (value, s3) h3. omega (arith, h1, h3, drop_one s2, skip_whitespace_short s1))))

pub parse_attributes-Yields :
    (fuel : ℕ) (node : Head) (m : NsMap) (s : Bytes)
    → length s < fuel
    → Yields (λ q. length q.1 ≤ length s) (parse_attributes fuel node m s)
unfolding parse_attributes
parse_attributes-Yields zero node m s lt = absurd (omega (arith, lt))
parse_attributes-Yields (suc fuel) node m s lt =
    let here = skip_whitespace s in
    let short = skip_whitespace_short s in
    let Ends : (Head × NsMap) × Bytes → Type 0 = λ q. length q.1 ≤ length s in
    if-Yields Ends (is_empty here) _ _ (λ e. refl)
      (λ e.
        if-Yields Ends (peek_char here b'/' || peek_char here b'>') _ _ (λ f. short)
          (λ f.
            bind-Yields (Shorter here) Ends (parse_attribute here) _ (parse_attribute-Yields here)
              (λ q h.
                let added = add_attribute node m q.0.0 q.0.1 in
                weaken-Yields (λ p. length p.1 ≤ length q.1) Ends
                  (parse_attributes fuel added.0 added.1 q.1)
                  (parse_attributes-Yields fuel added.0 added.1 q.1 (omega (arith, h, short, lt)))
                  (λ p k. omega (arith, h, k, short)))))

pub skip_misc-Yields :
    (fuel : ℕ) (s : Bytes) → length s < fuel → Yields (λ r. length r ≤ length s) (skip_misc fuel s)
unfolding skip_misc
skip_misc-Yields zero s lt = absurd (omega (arith, lt))
skip_misc-Yields (suc fuel) s lt =
    let here = skip_whitespace s in
    let short = skip_whitespace_short s in
    let Ends : Bytes → Type 0 = λ r. length r ≤ length s in
    let on : (r : Bytes) → length r < length here → Yields Ends (skip_misc fuel r) = λ r h.
      weaken-Yields (λ p. length p ≤ length r) Ends (skip_misc fuel r)
        (skip_misc-Yields fuel r (omega (arith, h, short, lt)))
        (λ p k. omega (arith, h, k, short)) in
    if-Yields Ends (not (peek_char here b'<')) _ _ (λ e. short)
      (λ e.
        if-Yields Ends (starts_with here (codes "<?")) _ _
          (λ f.
            bind-Yields (λ r. length r < length here) Ends (skip_processing_instruction here)
              (skip_misc fuel) (skip_processing_instruction-Yields here) on)
          (λ f.
            if-Yields Ends (starts_with here (codes "<!--")) _ _
              (λ g.
                bind-Yields (λ r. length r < length here) Ends (skip_comment here) (skip_misc fuel)
                  (skip_comment-Yields here) on)
              (λ g. short)))

-- A start tag takes `<` and a name, and leaves the end of the tag.
pub parse_start_tag-Yields :
    (m : NsMap) (s : Bytes) → Yields (λ q. length q.1 + 2 ≤ length s) (parse_start_tag m s)
unfolding parse_start_tag
parse_start_tag-Yields m s =
    let Ends : (Head × NsMap) × Bytes → Type 0 = λ q. length q.1 + 2 ≤ length s in
    then-Yields Ends (not (peek_char s b'<')) start_missing _ refl (λ e.
      then-Yields Ends (peek_char (drop 1 s) b'/') end_misplaced _ refl (λ f.
        bind-Yields (Shorter (drop 1 s)) Ends (parse_raw_name (drop 1 s)) _
          (parse_raw_name-Yields (drop 1 s))
          (λ (raw_name, s2) h2.
            let here = skip_whitespace s2 in
            bind-Yields (λ q. length q.1 ≤ length here) Ends
              (parse_attributes (suc (length s2)) (start_head raw_name) m here) _
              (parse_attributes-Yields (suc (length s2)) (start_head raw_name) m here
                (omega (arith, skip_whitespace_short s2)))
              (λ q h. omega (arith, h, h2, skip_whitespace_short s2, drop_peek s b'<' e)))))

pub parse_end_tag-Yields :
    (name s : Bytes) → Yields (λ r. length r < length s) (parse_end_tag name s)
unfolding parse_end_tag
parse_end_tag-Yields name s =
    let Ends : Bytes → Type 0 = λ r. length r < length s in
    bind-Yields (λ r. length r + 2 ≤ length s) Ends (expect (codes "</") s) _
      (expect-Yields (codes "</") s)
      (λ s1 h1.
        bind-Yields (Shorter s1) Ends (parse_raw_name s1) _ (parse_raw_name-Yields s1)
          (λ (end_raw, s2) h2.
            let s3 = skip_whitespace s2 in
            then-Yields Ends (not (peek_char s3 b'>')) end_greater_missing _ refl (λ e.
              then-Yields Ends (not (str_eq (split_qname end_raw).1 name)) _ _ refl
                (λ f. omega (arith, h1, h2, skip_whitespace_short s2, drop_one s3)))))
