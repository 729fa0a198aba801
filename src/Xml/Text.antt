-- ===== src/Xml/Text.antt =====
-- White space and entities of j2_library/src/xml/xml_parser.cpp, and the searches of the parser. The
-- parser's position is the text from there on.
use jaytwo_library.Prelude.{
  ℕ, zero, suc, Bool, false, not, ◌&&◌, ◌||◌, [], ◌∷◌, Option, none, some, Bytes, codes, length,
  drop, reverse, if◌then◌else◌, ltb, leb, ◌==◌,
}
use jaytwo_library.Text.{is_space, equal, drop_while}
use jaytwo_library.Xml.{Result, thrown, returned, unexpected_token}

-- The end is searched over the reversed text.
unfoldable pub trim_spaces : Bytes → Bytes
unfolding drop_while
trim_spaces s = reverse (drop_while is_space (reverse (drop_while is_space s)))

unfoldable pub skip_whitespace : Bytes → Bytes
unfolding drop_while
skip_whitespace s = drop_while is_space s

abbrev pub peek_char : Bytes → ℕ → Bool
peek_char [] c = false
peek_char (d ∷ s) c = d == c

-- `starts_with` and `expect` of the parser.
unfoldable pub starts_with : Bytes → Bytes → Bool
unfolding equal
starts_with s tok = equal tok s

unfoldable pub expect : Bytes → Bytes → Result Bytes
unfolding starts_with
expect tok s =
    if starts_with s tok then returned (drop (length tok) s) else thrown (unexpected_token tok)

-- Up to the first char that passes the test: what is before it, and the text from it on.
unfoldable pub read_until : (ℕ → Bool) → Bytes → Bytes × Bytes
read_until stop [] = ([], [])
read_until stop (c ∷ s) =
    let (before, rest) = read_until stop s in if stop c then ([], c ∷ s) else (c ∷ before, rest)

-- Up to the token, while more than `margin` chars are left.
unfoldable pub scan_to : Bytes → ℕ → Bytes → Bytes × Bytes
unfolding starts_with
scan_to tok margin [] = ([], [])
scan_to tok margin (c ∷ s) =
    let (before, rest) = scan_to tok margin s in
    if ltb margin (length (c ∷ s)) && not (starts_with (c ∷ s) tok)
    then (c ∷ before, rest)
    else ([], c ∷ s)

-- The char that an entity stands for, and its length.
unfoldable pub entity_at : Bytes → Option (ℕ × ℕ)
unfolding equal
entity_at s =
    if equal (codes "&lt;") s
    then some (b'<', 4)
    else if equal (codes "&gt;") s
    then some (b'>', 4)
    else if equal (codes "&amp;") s
    then some (b'&', 5)
    else if equal (codes "&quot;") s
    then some (34, 6)
    else if equal (codes "&apos;") s
    then some (39, 6)
    else none

-- The loop, with the rounds left: each takes a char at least.
unfoldable pub decode_loop : ℕ → Bytes → Bytes
unfolding entity_at
decode_loop zero s = []
decode_loop (suc fuel) [] = []
decode_loop (suc fuel) (c ∷ s) = elim (entity_at (c ∷ s)) [
  | some (d, n) ↦ d ∷ decode_loop fuel (drop n (c ∷ s))
  | none ↦ c ∷ decode_loop fuel s
]

unfoldable pub decode_entities : Bytes → Bytes
unfolding decode_loop
decode_entities s = decode_loop (length s) s

-- `std::isalnum` in the "C" locale.
abbrev pub is_alnum : ℕ → Bool
is_alnum c =
    (leb b'0' c && leb c b'9') || ((leb b'A' c && leb c b'Z') || (leb b'a' c && leb c b'z'))

unfoldable pub is_name_char : ℕ → Bool
is_name_char c = is_alnum c || (c == b'_' || (c == b'-' || (c == b':' || c == b'.')))
