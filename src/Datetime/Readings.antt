-- ===== src/Datetime/Readings.antt =====
-- What a text tells of a date and a time by a format, apart from the parser: the tokens of the format
-- stand for decimal numbers of as many digits, and every other char for itself.
use jaytwo_library.Prelude.{ℕ, ◌+◌, ◌*◌, ◌<◌, [], ◌∷◌, ◌++◌, List, Bytes, codes, length, ◌≡◌, ◌≢◌}
use jaytwo_library.Datetime.{Tm, Field, yyyy, mo, dd, hh, mi, ss, sss}

-- The chars of a number and the number.
pub data Decimal : Bytes → ℕ → Type 0 where
  no_digits : Decimal [] 0
  digit : {s : Bytes} {v d : ℕ} → Decimal s v → d < 10 → Decimal (s ++ (b'0' + d) ∷ []) (v * 10 + d)

abbrev pub spelling : Field → Bytes
spelling yyyy = codes "YYYY"
spelling mo = codes "MM"
spelling dd = codes "DD"
spelling hh = codes "hh"
spelling mi = codes "mm"
spelling ss = codes "ss"
spelling sss = codes "SSS"

-- The numbers that a text gives for the tokens of a format, the last one first and before those that
-- were given earlier.
pub data Spells : Bytes → Bytes → List (Field × ℕ) → List (Field × ℕ) → Type 0 where
  finished : {all : List (Field × ℕ)} → Spells [] [] all all
  token :
      {format text digits : Bytes} {f : Field} {v : ℕ} {earlier all : List (Field × ℕ)}
      → Decimal digits v
      → length digits ≡ length (spelling f)
      → Spells format text ((f, v) ∷ earlier) all
      → Spells (spelling f ++ format) (digits ++ text) earlier all
  itself :
      {format text : Bytes} {c : ℕ} {earlier all : List (Field × ℕ)}
      → ((f : Field) (behind : Bytes) → c ∷ format ≢ spelling f ++ behind)
      → Spells format text earlier all
      → Spells (c ∷ format) (c ∷ text) earlier all

-- The last number that is given for a field.
pub data Latest (f : Field) (v : ℕ) : List (Field × ℕ) → Type 0 where
  newest : {given : List (Field × ℕ)} → Latest f v ((f, v) ∷ given)
  older :
      {g : Field} {w : ℕ} {given : List (Field × ℕ)}
      → f ≢ g
      → Latest f v given
      → Latest f v ((g, w) ∷ given)

-- The text gives all of the date and the time by the format.
pub record Tells (format text : Bytes) (tm : Tm) : Type 0 where
  pub given : List (Field × ℕ)
  pub spelled : Spells format text [] given
  pub year : Latest yyyy tm.year given
  pub month : Latest mo tm.month given
  pub day : Latest dd tm.day given
  pub hour : Latest hh tm.hour given
  pub minute : Latest mi tm.minute given
  pub second : Latest ss tm.second given
