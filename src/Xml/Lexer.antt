-- ===== src/Xml/Lexer.antt =====
-- The tokens of `xml_parser` in j2_library/src/xml/xml_parser.cpp: names, attribute values, text, CDATA,
-- comments and processing instructions. Each returns what it read with the text behind it.
use jaytwo_library.Prelude.{
  ℕ, ◌-◌, zero, suc, not, ◌&&◌, [], ◌∷◌, Bytes, codes, length, drop, is_empty, if◌then◌else◌, leb,
  ◌==◌,
}
use jaytwo_library.Xml.{
  Result, thrown, returned, ◌>>=◌, XmlError, name_ended, bad_name_start, value_missing,
  value_unquoted, value_open, cdata_open, instruction_open, comment_open, out_of_fuel,
}
use jaytwo_library.Xml.Text.{
  skip_whitespace, peek_char, starts_with, expect, read_until, scan_to, decode_entities,
  is_name_char,
}

unfoldable pub parse_raw_name : Bytes → Result (Bytes × Bytes)
unfolding read_until
parse_raw_name [] = thrown name_ended
parse_raw_name (c ∷ s) =
    if not (is_name_char c)
    then thrown bad_name_start
    else let (name, rest) = read_until (λ d. not (is_name_char d)) s in returned (c ∷ name, rest)

-- Prefix and local name.
unfoldable pub split_qname : Bytes → Bytes × Bytes
unfolding read_until
split_qname raw_name =
    let (before, rest) = read_until (λ c. c == b':') raw_name in
    if is_empty rest then ([], raw_name) else (before, drop 1 rest)

-- A value, from its opening quote on.
abbrev pub quoted_value : Bytes → Result (Bytes × Bytes)
quoted_value [] = thrown value_missing
quoted_value (quote ∷ s) =
    let (value, rest) = read_until (λ c. c == quote) s in
    if not (quote == 34) && not (quote == 39)
    then thrown value_unquoted
    else if is_empty rest
    then thrown value_open
    else returned (decode_entities value, drop 1 rest)

unfoldable pub parse_attribute_value : Bytes → Result (Bytes × Bytes)
unfolding skip_whitespace
parse_attribute_value s = quoted_value (skip_whitespace s)

unfoldable pub read_text : Bytes → Bytes × Bytes
unfolding read_until
read_text s = read_until (λ c. c == b'<') s

-- What stands between an opening token, which `s` is behind, and a closing one.
abbrev pub enclosed : Bytes → XmlError → Bytes → Result (Bytes × Bytes)
enclosed close error s =
    let margin = length close - 1 in
    let (value, rest) = scan_to close margin s in
    if leb (length rest) margin
    then thrown error
    else expect close rest >>= λ left. returned (value, left)

unfoldable pub parse_cdata : Bytes → Result (Bytes × Bytes)
unfolding expect scan_to
parse_cdata s = expect (codes "<![CDATA[") s >>= enclosed (codes "]]>") cdata_open

unfoldable pub skip_processing_instruction : Bytes → Result Bytes
unfolding expect scan_to
skip_processing_instruction s =
    expect (codes "<?") s >>= enclosed (codes "?>") instruction_open >>= λ q. returned q.1

unfoldable pub skip_comment : Bytes → Result Bytes
unfolding expect scan_to
skip_comment s =
    expect (codes "<!--") s >>= enclosed (codes "-->") comment_open >>= λ q. returned q.1

-- The loop over what may stand before the root, with the rounds left.
unfoldable pub skip_misc : ℕ → Bytes → Result Bytes
unfolding skip_whitespace skip_processing_instruction skip_comment
skip_misc zero s = thrown out_of_fuel
skip_misc (suc fuel) s =
    let here = skip_whitespace s in
    let after_instruction = skip_processing_instruction here >>= skip_misc fuel in
    let after_comment = skip_comment here >>= skip_misc fuel in
    if not (peek_char here b'<')
    then returned here
    else if starts_with here (codes "<?")
    then after_instruction
    else if starts_with here (codes "<!--")
    then after_comment
    else returned here

unfoldable pub skip_optional_xml_declaration_and_misc : Bytes → Result Bytes
unfolding skip_misc
skip_optional_xml_declaration_and_misc s = skip_misc (suc (length s)) s
