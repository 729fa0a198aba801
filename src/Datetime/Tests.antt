-- ===== src/Datetime/Tests.antt =====
-- The laws of dates at a leap day.
use jaytwo_library.Prelude.{
  ℕ, ◌+◌, ◌-◌, ◌*◌, ◌/◌, ◌%◌, suc, true, false, Bytes, codes, length, some, none, if◌then◌else◌,
  leb, ◌≡◌, refl, arith,
}
use jaytwo_library.Datetime.{Tm, format_datetime, valid_ymd}
use jaytwo_library.Datetime.Loops.{Fits, without_ms, reading_after}
use jaytwo_library.Datetime.Strict.{
  ℤ, pos, negsuc, sub_ℕ, utc, Calendar, Broken, broken_of, ParseResult, ok, complete, in_ms,
  parse_strict_datetime,
}
use jaytwo_library.Datetime.Checked.{IsDate, reading_of, parse_strict_datetime-format_datetime}
use jaytwo_library.Datetime.Readings.{Tells}
use jaytwo_library.Datetime.Sound.{IsMoment, parse_strict_datetime_sound}
use jaytwo_library.Datetime.Iso.{parse_iso8601_datetime}
use jaytwo_library.Datetime.Agree.{
  iso_date, iso_moment, parse_iso8601-format_datetime, date_alone_early,
}

abbrev positive : ℤ → ℕ
positive (pos n) = n
positive (negsuc n) = 0

abbrev negative : ℤ → ℕ
negative (pos n) = 0
negative (negsuc n) = suc n

-- The days since 1970-01-01, by years that begin in March.
abbrev days_of : Broken → ℕ
days_of b =
    let y = if leb b.month 2 then b.year - 1 else b.year in
    y * 365 + y / 4 - y / 100 + y / 400 + ((b.month + 9) % 12 * 153 + 2) / 5 + b.day - 719469

abbrev seconds_of : Broken → ℤ
seconds_of b =
    sub_ℕ (days_of b * 86400 + positive b.hour * 3600 + positive b.minute * 60 + b.second)
      (negative b.hour * 3600 + negative b.minute * 60)

abbrev leap_day : Tm
leap_day = record { year = 2024; month = 2; day = 29; hour = 12; minute = 34; second = 56 }

-- A calendar in which both zones are UTC.
abbrev calendar : Calendar
calendar = record {
  to_time = λ tz b. some (seconds_of b);
  now_in_zone = λ tz. leap_day;
  today_at = λ off. leap_day;
}

leap_day-IsDate : IsDate leap_day
unfolding valid_ymd
leap_day-IsDate = record {
  date = refl;
  hour = omega arith;
  minute = omega arith;
  second = omega arith;
}

leap_day-Fits : Fits leap_day
leap_day-Fits = record {
  year = omega arith;
  month = omega arith;
  day = omega arith;
  hour = omega arith;
  minute = omega arith;
  second = omega arith;
}

abbrev slashes : Bytes
slashes = codes "YYYY/MM/DD hh:mm:ss"

slashes_plain : without_ms (length slashes) slashes ≡ true
unfolding without_ms
slashes_plain = refl

slashes-complete : complete (reading_of slashes leap_day).present ≡ true
unfolding reading_after
slashes-complete = refl

parse_strict_datetime-format_datetime_example :
    (r : ParseResult) × (parse_strict_datetime calendar
        (format_datetime leap_day slashes)
        slashes
        utc
      ≡ ok r)
    × (r.epoch ≡ pos 1709210096)
parse_strict_datetime-format_datetime_example =
    parse_strict_datetime-format_datetime calendar leap_day slashes utc (pos 1709210096)
      leap_day-IsDate (omega arith) slashes_plain slashes-complete refl

abbrev read_result : ParseResult
read_result = record {
  epoch = pos 1709210096;
  millisecond = 0;
  epoch_ms = pos 1709210096000;
  broken = none;
  present = record {
    has_year = true;
    has_month = true;
    has_day = true;
    has_hour = true;
    has_minute = true;
    has_second = true;
    has_millisecond = false;
  };
}

text_read :
    parse_strict_datetime calendar (codes "2024/02/29 12:34:56") slashes utc ≡ ok read_result
unfolding parse_strict_datetime valid_ymd in_ms
text_read = refl

parse_strict_datetime_sound_example :
    (tm : Tm) × IsMoment tm
    × Tells slashes (codes "2024/02/29 12:34:56") tm
    × (calendar.to_time utc (broken_of tm) ≡ some read_result.epoch)
parse_strict_datetime_sound_example =
    parse_strict_datetime_sound calendar (codes "2024/02/29 12:34:56") slashes utc read_result
      text_read

parse_iso8601-format_datetime_example :
    (r : ParseResult) × (parse_iso8601_datetime calendar (format_datetime leap_day iso_moment) utc
      ≡ ok r)
    × (r.epoch ≡ pos 1709210096)
    × (r.epoch_ms ≡ in_ms (pos 1709210096) 0)
parse_iso8601-format_datetime_example =
    parse_iso8601-format_datetime calendar leap_day utc (pos 1709210096) leap_day-Fits refl

-- The day begins at 1709164800.
date_alone_early_example :
    (r : ParseResult) × (parse_iso8601_datetime calendar (format_datetime leap_day iso_date) utc
      ≡ ok r)
    × (r.epoch ≡ pos 1709161140)
date_alone_early_example =
    date_alone_early calendar leap_day utc (pos 1709161140) leap_day-Fits refl
