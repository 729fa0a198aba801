-- ===== src/Xml/Iso.antt =====
-- `parse_iso8601_datetime` and `get_datetime_by_path` of j2_library/src/xml/xml_parser.cpp. The number
-- parsers `std::stoi` and `std::stoll` (of digits) and `std::mktime` are parameters. A time is the
-- seconds of `mktime` and the nanoseconds of the fraction. The zone that may follow is skipped by the
-- source and has no part in the result.
use jaytwo_library.Prelude.{
  ℕ, ◌-◌, ◌*◌, ◌^◌, not, ◌||◌, Option, none, some, Bytes, length, drop, take, is_empty,
  if◌then◌else◌, ltb,
}
use jaytwo_library.Text.{is_digit, substr}
use jaytwo_library.Datetime.Strict.{ℤ, pos}
use jaytwo_library.Xml.{XmlNode, Result, returned, ◌>>=◌}
use jaytwo_library.Xml.Text.{trim_spaces, peek_char, read_until}
use jaytwo_library.Xml.Access.{parsed_by, get_text_opt_by_path}

-- The fields of `std::tm`; the year is counted from 0 and the month from 1.
pub record IsoTm : Type 0 where
  pub year : ℤ
  pub month : ℤ
  pub day : ℤ
  pub hour : ℤ
  pub minute : ℤ
  pub second : ℤ

infixl 5 ◌>>?◌
abbrev ◌>>?◌ {ℓ κ} :
    {Found : Type ℓ} {Next : Type κ} → Option Found → (Found → Option Next) → Option Next
none >>? next = none
some found >>? next = next found

-- A fraction of more than nine digits is cut.
abbrev pub nanoseconds : (Bytes → Option ℕ) → Bytes → ℕ
nanoseconds stoll digits =
    let kept = take 9 digits in
    if is_empty digits
    then 0
    else elim (stoll kept) [ some value ↦ value * 10 ^ (9 - length kept) | none ↦ 0 ]

unfoldable pub fraction_of : (Bytes → Option ℕ) → Bytes → ℕ
unfolding read_until is_digit
fraction_of stoll s =
    if peek_char s b'.'
    then nanoseconds stoll (read_until (λ c. not (is_digit c)) (drop 1 s)).0
    else 0

module _ (stoi : Bytes → Option ℤ) (stoll : Bytes → Option ℕ) (mktime : IsoTm → Option ℤ) where
  -- The time of day, from behind the `T` on.
  unfoldable pub time_of_day : IsoTm → Bytes → Option (ℤ × ℕ)
  unfolding fraction_of
  time_of_day date s =
      if ltb (length s) 8
      then none
      else if not (peek_char (drop 2 s) b':') || not (peek_char (drop 5 s) b':')
      then none
      else (stoi (substr s 0 2) >>? λ hour. stoi (substr s 3 2) >>? λ minute.
          stoi (substr s 6 2) >>? λ second.
          mktime (record date { hour = hour; minute = minute; second = second }) >>? λ time.
          some (time, fraction_of stoll (drop 8 s)))

  -- The date, and midnight where nothing follows it.
  unfoldable pub date_and_time : Bytes → Option (ℤ × ℕ)
  unfolding time_of_day
  date_and_time s = stoi (substr s 0 4) >>? λ year. stoi (substr s 5 2) >>? λ month.
      stoi (substr s 8 2) >>? λ day.
      let date : IsoTm = record {
        year = year;
        month = month;
        day = day;
        hour = pos 0;
        minute = pos 0;
        second = pos 0;
      } in
      let rest = drop 10 s in
      if is_empty rest
      then (mktime date >>? λ time. some (time, 0))
      else if peek_char rest b'T' || (peek_char rest b't' || peek_char rest 32)
      then time_of_day date (drop 1 rest)
      else none

  unfoldable pub parse_iso8601_datetime : Bytes → Option (ℤ × ℕ)
  unfolding trim_spaces date_and_time
  parse_iso8601_datetime text =
      let s = trim_spaces text in
      if ltb (length s) 10
      then none
      else if not (peek_char (drop 4 s) b'-') || not (peek_char (drop 7 s) b'-')
      then none
      else date_and_time s

  unfoldable pub get_datetime_by_path : Option XmlNode → Bytes → Result (Option (ℤ × ℕ))
  unfolding get_text_opt_by_path parse_iso8601_datetime
  get_datetime_by_path root path =
      get_text_opt_by_path root path >>= λ text. returned (parsed_by parse_iso8601_datetime text)
