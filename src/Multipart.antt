-- ===== src/Multipart.antt =====
-- `multipart_downloader` of j2_library/src/network/downloader/multipart_downloader.cpp: the headers, the
-- loop over the parts of the body, and the files that are written. The transfer by curl, the joining of
-- paths and the operations on files are parameters; a position in the body is the text from there on.
pub mod Parts
pub mod Sound
pub mod Total
mod Tests
use jaytwo_library.Prelude.{
  ℕ, ◌+◌, ◌-◌, zero, suc, Bool, true, false, not, ◌&&◌, List, [], ◌∷◌, ◌++◌, reverse, map, Option,
  none, some, Bytes, codes, length, drop, take, is_empty, if◌then◌else◌, ◌==◌, leb,
}
use jaytwo_library.Text.{is_space, equal, find_first, drop_while}

-- `trim` and `::tolower` in the "C" locale.
unfoldable pub trim : Bytes → Bytes
unfolding drop_while is_space
trim s = reverse (drop_while is_space (reverse (drop_while is_space s)))

abbrev pub tolower : ℕ → ℕ
tolower c = if leb b'A' c && leb c b'Z' then c + 32 else c

-- What `std::getline` reads, one line after the other.
abbrev pub before_line : ℕ → List Bytes → List Bytes
before_line c [] = (c ∷ []) ∷ []
before_line c (line ∷ lines) = (c ∷ line) ∷ lines

unfoldable pub getlines : Bytes → List Bytes
getlines [] = []
getlines (c ∷ s) = let rest = getlines s in if c == 10 then [] ∷ rest else before_line c rest

-- `pop_back` of a carriage return at the end.
abbrev pub strip_cr : Bytes → Bytes
strip_cr [] = []
strip_cr (c ∷ []) = if c == 13 then [] else c ∷ []
strip_cr (c ∷ d ∷ s) = c ∷ strip_cr (d ∷ s)

-- A value in quotes loses them.
abbrev pub without_quotes : Bytes → Bytes
without_quotes [] = []
without_quotes (c ∷ s) =
    if equal (34 ∷ []) (c ∷ s) && equal (34 ∷ []) (reverse (c ∷ s))
    then take (length s - 1) s
    else c ∷ s

-- The value behind a token of a line, which is searched without regard to case.
unfoldable pub value_behind : Bytes → Bytes → Option Bytes
unfolding trim find_first
value_behind tok line = elim (find_first tok (map tolower line)) [
  | none ↦ none
  | some pos ↦ some (without_quotes (trim (drop (pos + length tok) line)))
]

abbrev pub is_header : Bytes → Bytes → Bool
is_header name line = equal name (map tolower line)

abbrev pub boundary_in : List Bytes → Option Bytes
boundary_in [] = none
boundary_in (raw ∷ lines) =
    let line = strip_cr raw in
    let later = boundary_in lines in
    if is_header (codes "content-type:") line
    then elim (value_behind (codes "boundary=") line) [
      | some boundary ↦ some boundary
      | none ↦ later
    ]
    else later

unfoldable pub extract_boundary_from_headers : Bytes → Option Bytes
unfolding getlines value_behind
extract_boundary_from_headers headers = boundary_in (getlines headers)

-- The first such line decides; an empty name is none.
abbrev pub some_name : Option Bytes → Option Bytes
some_name none = none
some_name (some []) = none
some_name (some (c ∷ name)) = some (c ∷ name)

abbrev pub filename_in : List Bytes → Option Bytes
filename_in [] = none
filename_in (raw ∷ lines) =
    let line = strip_cr raw in
    let later = filename_in lines in
    if is_header (codes "content-disposition:") line
    then some_name (value_behind (codes "filename=") line)
    else later

unfoldable pub extract_filename_from_content_disposition : Bytes → Option Bytes
unfolding getlines value_behind
extract_filename_from_content_disposition header_block = filename_in (getlines header_block)
