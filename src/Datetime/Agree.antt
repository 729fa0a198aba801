-- ===== src/Datetime/Agree.antt =====
-- The ISO 8601 parser on what the formatter writes.
use jaytwo_library.Prelude.{[], ◌∷◌, ◌++◌, some, Bytes, codes, ◌≡◌, refl}
use jaytwo_library.Datetime.{
  Tm, buffer_loop, append_ndigits, token_at, match_token, format_loop, format_datetime,
}
use jaytwo_library.Datetime.Digits.{read_two, read_four}
use jaytwo_library.Datetime.Loops.{Fits}
use jaytwo_library.Datetime.Strict.{
  ℤ, negsuc, Zone, Calendar, Broken, broken_of, ok, ParseResult, in_ms, nothing_present,
}
use jaytwo_library.Datetime.Iso.{
  parse_moment, parse_fraction, parse_zone, broken_from, convert_moment, parse_iso8601_datetime,
}
use jaytwo_library.Datetime.Iso.Parts.{parse_date_extended, parse_time_extended, parse_tz_offset}

abbrev pub iso_date : Bytes
iso_date = codes "YYYY-MM-DD"

abbrev pub iso_moment : Bytes
iso_moment = codes "YYYY-MM-DDThh:mm:ss"

abbrev date_text : Tm → Bytes → Bytes
date_text tm s =
    buffer_loop 4 tm.year []
    ++ (b'-' ∷ (buffer_loop 2 tm.month [] ++ (b'-' ∷ (buffer_loop 2 tm.day [] ++ s))))

abbrev time_text : Tm → Bytes
time_text tm =
    buffer_loop 2 tm.hour []
    ++ (b':' ∷ (buffer_loop 2 tm.minute [] ++ (b':' ∷ (buffer_loop 2 tm.second [] ++ []))))

format-date : (tm : Tm) → format_datetime tm iso_date ≡ date_text tm []
unfolding format_datetime format_loop append_ndigits token_at match_token buffer_loop
format-date tm = refl

format-moment : (tm : Tm) → format_datetime tm iso_moment ≡ date_text tm (b'T' ∷ time_text tm)
unfolding format_datetime format_loop append_ndigits token_at match_token buffer_loop
format-moment tm = refl

date_read :
    (tm : Tm) (s : Bytes)
    → Fits tm
    → parse_date_extended (date_text tm s) ≡ some ((tm.year, tm.month, tm.day), s)
unfolding parse_date_extended
date_read tm s h =
    rw
      (
        read_four tm.year
            (b'-' ∷ (buffer_loop 2 tm.month [] ++ (b'-' ∷ (buffer_loop 2 tm.day [] ++ s)))) h.year,
        read_two tm.month (b'-' ∷ (buffer_loop 2 tm.day [] ++ s)) h.month,
        read_two tm.day s h.day,
      )
      refl

time_read :
    (tm : Tm)
    → Fits tm
    → parse_time_extended (time_text tm) ≡ some ((tm.hour, tm.minute, some tm.second), [])
unfolding parse_time_extended
time_read tm h =
    rw
      (
        read_two tm.hour
            (b':' ∷ (buffer_loop 2 tm.minute [] ++ (b':' ∷ (buffer_loop 2 tm.second [] ++ []))))
            h.hour,
        read_two tm.minute (b':' ∷ (buffer_loop 2 tm.second [] ++ [])) h.minute,
        read_two tm.second [] h.second,
      )
      refl

-- The result for a text with no fraction and no offset.
abbrev result_at : Broken → ℤ → ParseResult
result_at b t = record {
  epoch = t;
  millisecond = 0;
  epoch_ms = in_ms t 0;
  broken = some b;
  present = nothing_present;
}

-- Hour and minute are -1.
abbrev pub date_alone : Tm → Broken
date_alone tm = record {
  year = tm.year;
  month = tm.month;
  day = tm.day;
  hour = negsuc 0;
  minute = negsuc 0;
  second = 0;
}

-- What the formatter writes as YYYY-MM-DDThh:mm:ss, the ISO 8601 parser reads back: it returns the time
-- of the date, which it does not check, so also for a month 13 or an hour 99 if the C library can convert
-- them. The year has four digits at most, and the other numbers two.
pub parse_iso8601-format_datetime :
    (lib : Calendar) (tm : Tm) (fallback : Zone) (t : ℤ)
    → Fits tm
    → lib.to_time fallback (broken_of tm) ≡ some t
    → (r : ParseResult) × (parse_iso8601_datetime lib (format_datetime tm iso_moment) fallback
        ≡ ok r)
      × (r.epoch ≡ t)
      × (r.epoch_ms ≡ in_ms t 0)
unfolding parse_iso8601_datetime parse_moment parse_fraction parse_zone parse_tz_offset
    convert_moment broken_from
parse_iso8601-format_datetime lib tm fallback t h time = (
  result_at (broken_of tm) t,
  rw (format-moment tm, parse_moment, date_read tm (b'T' ∷ time_text tm) h, time_read tm h, time)
      refl,
  refl,
  refl,
)

-- A text with a date alone, as the formatter writes it by YYYY-MM-DD, is taken for the time at which hour
-- and minute are -1: an hour and a minute before the day begins.
pub date_alone_early :
    (lib : Calendar) (tm : Tm) (fallback : Zone) (t : ℤ)
    → Fits tm
    → lib.to_time fallback (date_alone tm) ≡ some t
    → (r : ParseResult) × (parse_iso8601_datetime lib (format_datetime tm iso_date) fallback ≡ ok r)
      × (r.epoch ≡ t)
unfolding parse_iso8601_datetime parse_moment parse_fraction parse_zone parse_tz_offset
    convert_moment broken_from
date_alone_early lib tm fallback t h time = (
  result_at (date_alone tm) t,
  rw (format-date tm, parse_moment, date_read tm [] h, time) refl,
  refl,
)
