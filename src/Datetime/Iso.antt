-- ===== src/Datetime/Iso.antt =====
-- The ISO 8601 parser of j2_library/src/datetime/datetime_string.cpp, and `parse_datetime_auto`.
pub mod Parts
use jaytwo_library.Prelude.{
  ℕ, ◌+◌, ◌-◌, zero, suc, Bool, true, false, not, ◌&&◌, ◌||◌, List, [], ◌∷◌, Option, none, some,
  Bytes, codes, is_empty, drop, if◌then◌else◌,
}
use jaytwo_library.Text.{str_eq}
use jaytwo_library.Datetime.{Tm}
use jaytwo_library.Datetime.Strict.{
  ℤ, pos, negsuc, sub_ℕ, Zone, utc, Calendar, Broken, Result, ok, err, ◌>>=◌, ◌>>◌, raise_if,
  or_raise, ParseResult, in_ms, nothing_present, parse_strict_datetime,
}
use jaytwo_library.Datetime.Iso.Parts.{
  next_is, parse_date_extended, parse_time_extended, parse_fraction_ms, parse_tz_offset,
}

-- What is read: the date or none, and the time or none.
pub record Parsed : Type 0 where
  pub date : Option (ℕ × ℕ × ℕ)
  pub time : Option (ℕ × ℕ × Option ℕ)
  pub ms : ℕ
  pub tz : Option ℤ

-- Date and time, or one of them.
unfoldable pub parse_moment : Bytes → Result (Parsed × Bytes)
unfolding parse_date_extended parse_time_extended
parse_moment str = elim (parse_date_extended str) [
  | some (d, p) ↦
      if next_is b'T' p || (next_is b't' p || next_is b' ' p)
      then (or_raise (parse_time_extended (drop 1 p)) (codes "Time format error") >>= λ q.
          ok (record { date = some d; time = some q.0; ms = 0; tz = none }, q.1))
      else ok (record { date = some d; time = none; ms = 0; tz = none }, p)
  | none ↦ or_raise (parse_time_extended str) (codes "Not in ISO-8601 format") >>= λ q.
      ok (record { date = none; time = some q.0; ms = 0; tz = none }, q.1)
]

-- The fraction, after a time.
unfoldable pub parse_fraction : Parsed × Bytes → Result (Parsed × Bytes)
unfolding parse_fraction_ms
parse_fraction (r, p) = elim r.time [
  | none ↦ ok (r, p)
  | some t ↦
      if next_is b'.' p
      then (or_raise (parse_fraction_ms p) (codes "Fractional ms seconds format error") >>= λ q.
          ok (record r { ms = q.0 }, q.1))
      else ok (r, p)
]

-- The offset, where one can be read.
unfoldable pub parse_zone : Parsed × Bytes → Parsed × Bytes
unfolding parse_tz_offset
parse_zone (r, p) = elim (parse_tz_offset p) [
  | none ↦ (r, p)
  | some (off, rest) ↦ (record r { tz = some off }, rest)
]

-- The date, which is today's where none is given.
abbrev pub date_of : Calendar → Zone → Parsed → ℕ × ℕ × ℕ
date_of lib fallback r = elim r.date [
  | some d ↦ d
  | none ↦ elim r.tz [
    | some off ↦ let t = lib.today_at off in (t.year, t.month, t.day)
    | none ↦ let t = lib.now_in_zone fallback in (t.year, t.month, t.day)
  ]
]

-- An hour and a minute that are not given stay -1; the seconds are set to 0.
unfoldable pub broken_from : ℕ × ℕ × ℕ → Option (ℕ × ℕ × Option ℕ) → Broken
broken_from (y, m, d) none = record {
  year = y;
  month = m;
  day = d;
  hour = negsuc 0;
  minute = negsuc 0;
  second = 0;
}
broken_from (y, m, d) (some (h, mi, sec)) = record {
  year = y;
  month = m;
  day = d;
  hour = pos h;
  minute = pos mi;
  second = elim sec [ some s ↦ s | none ↦ 0 ];
}

-- `t - offset`.
unfoldable pub sub_offset : ℤ → ℤ → ℤ
sub_offset (pos n) (pos k) = sub_ℕ n k
sub_offset (pos n) (negsuc k) = pos (n + (k + 1))
sub_offset (negsuc n) (pos k) = negsuc (n + k)
sub_offset (negsuc n) (negsuc k) = sub_ℕ (k + 1) (n + 1)

abbrev pub time_in : Calendar → Zone → Option ℤ → Broken → Result ℤ
time_in lib fallback none b = or_raise (lib.to_time fallback b) (codes "Time conversion failure")
time_in lib fallback (some off) b =
    or_raise (lib.to_time utc b) (codes "UTC conversion failed (timegem/_mkgmtime)") >>= λ t.
    ok (sub_offset t off)

unfoldable pub convert_moment : Calendar → Zone → Parsed → Result ParseResult
unfolding broken_from sub_offset in_ms
convert_moment lib fallback r =
    let b = broken_from (date_of lib fallback r) r.time in
    time_in lib fallback r.tz b >>= λ t. ok (record {
      epoch = t;
      millisecond = r.ms;
      epoch_ms = in_ms t r.ms;
      broken = some b;
      present = nothing_present;
    })

-- `parse_iso8601_strict`, and `parse_iso8601_datetime`, which calls it.
unfoldable pub parse_iso8601_datetime : Calendar → Bytes → Zone → Result ParseResult
unfolding parse_moment parse_fraction parse_zone convert_moment
parse_iso8601_datetime lib str fallback = parse_moment str >>= λ a. parse_fraction a >>= λ b.
    raise_if (not (is_empty (parse_zone b).1)) (codes "Extra input characters exist")
    >> convert_moment lib fallback (parse_zone b).0

unfoldable pub parse_datetime_auto : Calendar → Bytes → Bytes → Zone → Result ParseResult
unfolding parse_iso8601_datetime parse_strict_datetime
parse_datetime_auto lib text format_or_literal tzmode =
    if str_eq format_or_literal (codes "ISO8601")
    then parse_iso8601_datetime lib text tzmode
    else parse_strict_datetime lib text format_or_literal tzmode

-- The time point, in milliseconds.
unfoldable pub parse_datetime_timepoint : Calendar → Bytes → Bytes → Zone → Option ℤ
unfolding parse_datetime_auto
parse_datetime_timepoint lib text format_or_literal tzmode =
    elim (parse_datetime_auto lib text format_or_literal tzmode) [
      | ok r ↦ some r.epoch_ms
      | err e ↦ none
    ]
