-- ===== src/Xml/Encoding/Detect.antt =====
-- `detect_xml_encoding` of j2_library/src/xml/xml_parser.cpp. A position in the declaration is the text
-- from there on.
use jaytwo_library.Prelude.{
  ℕ, ◌+◌, ◌-◌, min, ◌&&◌, ◌||◌, [], ◌∷◌, Option, none, some, Bytes, codes, map, length, take, drop,
  is_empty, if◌then◌else◌, leb, ◌==◌,
}
use jaytwo_library.Text.{find_first}
use jaytwo_library.Xml.Text.{read_until}

infixl 5 ◌>>=◌
abbrev ◌>>=◌ {ℓ κ} :
    {Found : Type ℓ} {Next : Type κ} → Option Found → (Found → Option Next) → Option Next
none >>= next = none
some found >>= next = next found

-- `std::toupper` in the "C" locale.
abbrev pub toupper : ℕ → ℕ
toupper c = if leb b'a' c && leb c b'z' then c - 32 else c

-- What stands between a quote and its like.
abbrev pub in_quotes : Bytes → Option Bytes
in_quotes [] = none
in_quotes (quote ∷ s) =
    let (value, rest) = read_until (λ c. c == quote) s in if is_empty rest then none else some value

-- The declaration, which ends at `?>`, or after 256 chars.
unfoldable pub declaration_at : ℕ → Bytes → Bytes
unfolding find_first
declaration_at pos raw_xml =
    let from = drop pos raw_xml in
    elim (find_first (codes "?>") from) [
      | some size ↦ take size from
      | none ↦ take (min (length raw_xml) (pos + 256) - pos) from
    ]

unfoldable pub declared_encoding : Bytes → Option Bytes
unfolding find_first read_until declaration_at
declared_encoding raw_xml = do
  pos ← find_first (codes "<?xml") raw_xml
  let decl = declaration_at pos raw_xml
  enc_pos ← find_first (codes "encoding") decl
  let named = drop enc_pos decl
  eq_pos ← find_first (codes "=") named
  in_quotes (read_until (λ c. c == 34 || c == 39) (drop (eq_pos + 1) named)).1

unfoldable pub detect_xml_encoding : Bytes → Bytes
unfolding declared_encoding
detect_xml_encoding raw_xml = elim (declared_encoding raw_xml) [
  | none ↦ codes "UTF-8"
  | some encoding ↦ map toupper encoding
]
