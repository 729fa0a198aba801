-- ===== src/StringBasic/Tests.antt =====
-- The laws of the string functions at concrete texts.
use jaytwo_library.Prelude.{true, false, [], Bytes, codes, ◌≡◌, ◌↔◌, arith}
use jaytwo_library.Text.Pieces.{pieces, glue}
use jaytwo_library.StringBasic.Wildcard.{wildcard_match, c_str}
use jaytwo_library.StringBasic.Wildcard.Spec.{Matches}
use jaytwo_library.StringBasic.Wildcard.Laws.{wildcard_match_iff, wildcard_star_text}
use jaytwo_library.StringBasic.Replace.{replace, replace-pieces}
use jaytwo_library.StringBasic.Split.{split, join}
use jaytwo_library.StringBasic.Split.Laws.{join-split}

abbrev fields : Bytes
fields = codes "a,,b"

abbrev padded : Bytes
padded = codes " ab\t"

wildcard_match_iff_example :
    (wildcard_match (codes "note.txt") (codes "*.t?t") ≡ true)
    ↔ Matches (codes "*.t?t") (codes "note.txt")
unfolding c_str
wildcard_match_iff_example = wildcard_match_iff (codes "note.txt") (codes "*.t?t") (
  λ e. omega (arith, e),
  (
    λ e. omega (arith, e),
    (
      λ e. omega (arith, e),
      (
        λ e. omega (arith, e),
        (
          λ e. omega (arith, e),
          (λ e. omega (arith, e), (λ e. omega (arith, e), (λ e. omega (arith, e), tt))),
        ),
      ),
    ),
  ),
)

wildcard_star_text_example :
    (wildcard_match (codes "*b") (codes "*") ≡ false) × Matches (codes "*") (codes "*b")
unfolding c_str
wildcard_star_text_example = wildcard_star_text 98 [] (λ e. omega (arith, e))

replace-pieces_example :
    replace fields (codes ",") (codes "::") ≡ glue (pieces 5 (codes ",") fields) (codes "::")
replace-pieces_example = replace-pieces fields 44 [] (codes "::")

join-split_example : join (split fields (codes ",") true) (codes ",") ≡ fields
join-split_example = join-split fields (codes ",")
