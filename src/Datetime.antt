-- ===== src/Datetime.antt =====
-- The dates and times of j2_library/src/datetime/datetime_util.cpp: digits, tokens, the test of a date
-- and the formatter. A parser is given the text from `pos` on, and returns what is left.
pub mod Strict
pub mod Iso
pub mod Digits
pub mod Loops
pub mod Checked
pub mod Gregorian
pub mod Readings
pub mod Tokens
pub mod Sound
pub mod Agree
mod Tests
use jaytwo_library.Prelude.{
  ℕ, ◌+◌, ◌-◌, ◌*◌, ◌/◌, ◌%◌, zero, suc, Bool, true, false, not, ◌&&◌, ◌||◌, List, [], ◌∷◌, ◌++◌,
  Option, none, some, Bytes, codes, length, drop, if◌then◌else◌, ltb, leb, ◌==◌,
}
use jaytwo_library.Text.{is_digit}

-- A `std::tm` as its numbers in the calendar: the source's `tm_year` is the year less 1900, and its
-- `tm_mon` the month less 1. The day of the week and of the year are not kept.
pub record Tm : Type 0 where
  pub year : ℕ
  pub month : ℕ
  pub day : ℕ
  pub hour : ℕ
  pub minute : ℕ
  pub second : ℕ

-- The digits, with the number that they make so far.
unfoldable pub digits_loop : ℕ → Bytes → ℕ → Option (ℕ × Bytes)
unfolding is_digit
digits_loop zero s v = some (v, s)
digits_loop (suc n) [] v = none
digits_loop (suc n) (c ∷ s) v =
    let rest = digits_loop n s (v * 10 + (c - b'0')) in if not (is_digit c) then none else rest

unfoldable pub read_ndigits : Bytes → ℕ → Option (ℕ × Bytes)
unfolding digits_loop
read_ndigits s ndig = if ltb (length s) ndig then none else digits_loop ndig s 0

-- `match_token` and `fmt_match`, which are the same code.
unfoldable pub match_token : Bytes → Bytes → Bool
match_token fmt [] = true
match_token [] (t ∷ tok) = false
match_token (c ∷ fmt) (t ∷ tok) = let rest = match_token fmt tok in if c == t then rest else false

unfoldable pub is_leap : ℕ → Bool
is_leap y = (y % 4 == 0 && not (y % 100 == 0)) || y % 400 == 0

abbrev pub mdays : ℕ → ℕ
mdays m = if m == 2 then 28 else if m == 4 || (m == 6 || (m == 9 || m == 11)) then 30 else 31

unfoldable pub valid_ymd : ℕ → ℕ → ℕ → Bool
unfolding is_leap
valid_ymd y m d =
    let dim = if m == 2 && is_leap y then 29 else mdays m in
    if ltb m 1 || ltb 12 m then false else leb 1 d && leb d dim

-- The digits that are put before those in `buf`.
unfoldable pub buffer_loop : ℕ → ℕ → Bytes → Bytes
buffer_loop zero v buf = buf
buffer_loop (suc width) v buf = buffer_loop width (v / 10) ((b'0' + v % 10) ∷ buf)

unfoldable pub append_ndigits : Bytes → ℕ → ℕ → Bytes
unfolding buffer_loop
append_ndigits out value width = out ++ buffer_loop width value []

pub data Field : Type 0 where
  yyyy mo dd hh mi ss sss : Field

abbrev pub width_of : Field → ℕ
width_of yyyy = 4
width_of mo = 2
width_of dd = 2
width_of hh = 2
width_of mi = 2
width_of ss = 2
width_of sss = 3

abbrev pub value_of : Tm → Field → ℕ
value_of tm yyyy = tm.year
value_of tm mo = tm.month
value_of tm dd = tm.day
value_of tm hh = tm.hour
value_of tm mi = tm.minute
value_of tm ss = tm.second
value_of tm sss = 0

-- The tests on the tokens of a date and a time, in their order.
unfoldable pub token_at : Bytes → Option Field
unfolding match_token
token_at fmt =
    if match_token fmt (codes "YYYY")
    then some yyyy
    else if match_token fmt (codes "MM")
    then some mo
    else if match_token fmt (codes "DD")
    then some dd
    else if match_token fmt (codes "hh")
    then some hh
    else if match_token fmt (codes "mm")
    then some mi
    else if match_token fmt (codes "ss")
    then some ss
    else none

-- The loop over the format, from a position on; each round takes a char at least.
unfoldable pub format_loop : ℕ → Bytes → Tm → Bytes → Bytes
unfolding token_at append_ndigits
format_loop zero fmt tm out = out
format_loop (suc fuel) [] tm out = out
format_loop (suc fuel) (c ∷ fmt) tm out = elim (token_at (c ∷ fmt)) [
  | some f ↦
      format_loop fuel (drop (width_of f) (c ∷ fmt)) tm
        (append_ndigits out (value_of tm f) (width_of f))
  | none ↦ format_loop fuel fmt tm (out ++ c ∷ [])
]

-- `format_from_tm_core`, which `format_datetime` of a `tm` calls.
unfoldable pub format_datetime : Tm → Bytes → Bytes
unfolding format_loop
format_datetime tm format = format_loop (length format) format tm []
