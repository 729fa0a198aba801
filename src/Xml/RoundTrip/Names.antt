-- ===== src/Xml/RoundTrip/Names.antt =====
-- A name is read up to the char behind it, and is not taken apart.
use jaytwo_library.Prelude.{
  ℕ, Bool, true, false, not, ◌||◌, [], ◌∷◌, ◌++◌, Bytes, codes, ◌==◌, ◌≡◌, refl, ap, arith, All,
}
use jaytwo_library.Text.{is_space, equal}
use jaytwo_library.StringBasic.Trim.Laws.{drop_while_dark}
use jaytwo_library.Xml.{returned}
use jaytwo_library.Xml.Text.{is_name_char, read_until, skip_whitespace}
use jaytwo_library.Xml.Lexer.{parse_raw_name, split_qname}
use jaytwo_library.Xml.Escape.{read_until_stop}
use jaytwo_library.Xml.Plain.{IsNamePart, IsName}

parts-All : (s : Bytes) → All IsNamePart s → All (λ c. not (is_name_char c) ≡ false) s
parts-All [] h = tt
parts-All (c ∷ s) (hc, hs) = (ap not hc.in_name, parts-All s hs)

pub parse_raw_name_lem :
    (name : Bytes) (d : ℕ) (r : Bytes)
    → IsName name
    → is_name_char d ≡ false
    → parse_raw_name (name ++ d ∷ r) ≡ returned (name, d ∷ r)
unfolding parse_raw_name
parse_raw_name_lem [] d r h e = absurd h
parse_raw_name_lem (c ∷ s) d r (hc, hs) e =
    rw (hc.in_name, read_until_stop (λ x. not (is_name_char x)) s d r (parts-All s hs) (ap not e))
      refl

pub read_until_end :
    (stop : ℕ → Bool) (s : Bytes) → All (λ c. stop c ≡ false) s → read_until stop s ≡ (s, [])
unfolding read_until
read_until_end stop [] h = refl
read_until_end stop (c ∷ s) (hc, h) = let rest = read_until_end stop s h in rw (hc, rest) refl

colons-All : (s : Bytes) → All IsNamePart s → All (λ c. (c == b':') ≡ false) s
colons-All [] h = tt
colons-All (c ∷ s) (hc, hs) = (hc.no_colon, colons-All s hs)

name_parts : (name : Bytes) → IsName name → All IsNamePart name
name_parts [] h = absurd h
name_parts (c ∷ s) h = h

pub split_qname_plain : (name : Bytes) → IsName name → split_qname name ≡ ([], name)
unfolding split_qname
split_qname_plain name h =
    rw (read_until_end (λ c. c == b':') name (colons-All name (name_parts name h))) refl

-- A text with `:` at its end is at no name's front.
no_colon_prefix : (p s : Bytes) → All IsNamePart s → equal (p ++ b':' ∷ []) s ≡ false
unfolding equal
no_colon_prefix [] [] h = refl
no_colon_prefix [] (c ∷ s) (hc, hs) = let e = hc.no_colon in ground (arith, e)
no_colon_prefix (d ∷ p) [] h = refl
no_colon_prefix (d ∷ p) (c ∷ s) (hc, hs) = let e = no_colon_prefix p s hs in ground (arith, e)

pub no_xmlns_prefix : (name : Bytes) → IsName name → equal (codes "xmlns:") name ≡ false
no_xmlns_prefix name h = no_colon_prefix (codes "xmlns") name (name_parts name h)

pub name_char_dark : (c : ℕ) → is_name_char c ≡ true → is_space c ≡ false
unfolding is_name_char is_space
name_char_dark c h = ground (arith, h)

pub name_char_marks : (c : ℕ) → is_name_char c ≡ true → ((c == b'/') || (c == b'>')) ≡ false
unfolding is_name_char
name_char_marks c h = ground (arith, h)

pub skip_name : (name r : Bytes) → IsName name → skip_whitespace (name ++ r) ≡ name ++ r
unfolding skip_whitespace
skip_name [] r h = absurd h
skip_name (c ∷ s) r (hc, hs) = drop_while_dark (c ∷ (s ++ r)) (name_char_dark c hc.in_name)
