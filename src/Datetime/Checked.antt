-- ===== src/Datetime/Checked.antt =====
-- The checks of the parser by a format, and that it reads what the formatter writes.
use jaytwo_library.Prelude.{
  ℕ, ◌<◌, zero, suc, Bool, true, false, not, ◌||◌, [], ◌∷◌, Option, some, none, Bytes, is_empty,
  length, drop, ltb, ◌≡◌, ◌≢◌, inl, inr, refl, sym, ap, subst, ◌∙◌, arith, append-nil, Option-cases,
}
use jaytwo_library.Datetime.{
  Tm, Field, yyyy, mo, dd, hh, mi, ss, sss, width_of, value_of, token_at, valid_ymd, format_loop,
  format_datetime,
}
use jaytwo_library.Datetime.Loops.{Fits, without_ms, reading_after, parse_loop-format_loop}
use jaytwo_library.Datetime.Strict.{
  ℤ, Zone, Calendar, broken_of, Reading, set_field, Result, ok, err, ◌>>=◌, ◌>>◌, raise_if,
  or_raise, complete, check_ranges, ParseResult, start, result_of, finish, parse_loop, parse_impl,
  parse_strict_datetime,
}

-- A date of the calendar, and a time of the day.
pub record IsDate (tm : Tm) : Type 0 where
  pub date : valid_ymd tm.year tm.month tm.day ≡ true
  pub hour : tm.hour < 24
  pub minute : tm.minute < 60
  pub second : tm.second < 60

pub bind_ok {ℓ κ} :
    {A : Type ℓ} {B : Type κ} (m : Result A) (f : A → Result B) (b : B)
    → (m >>= f) ≡ ok b
    → (a : A) × (m ≡ ok a) × (f a ≡ ok b)
bind_ok (ok a) f b e = (a, refl, e)
bind_ok (err x) f b e = absurd (err-not-ok e)
  where
    err-not-ok : err x ≢ ok b
    err-not-ok q = cc

raise_if_ok {ℓ} :
    {B : Type ℓ} (t : Bool) (x : Bytes) (k : Result B) (b : B)
    → (raise_if t x >> k) ≡ ok b
    → (t ≡ false) × (k ≡ ok b)
raise_if_ok true x k b e = absurd (err-not-ok e)
  where
    err-not-ok : err x ≢ ok b
    err-not-ok q = cc
raise_if_ok false x k b e = (refl, e)

pub or_raise_ok {ℓ} :
    {A : Type ℓ} (o : Option A) (x : Bytes) (a : A) → or_raise o x ≡ ok a → o ≡ some a
or_raise_ok (some a') x a e = cc
or_raise_ok none x a e = absurd cc

-- A complete reading that passes the checks is a date.
check_ranges-IsDate :
    (r : Reading) → complete r.present ≡ true → check_ranges r ≡ ok tt → IsDate r.tm
unfolding check_ranges
check_ranges-IsDate r c e = record {
  date = ground arith;
  hour = ground arith;
  minute = ground arith;
  second = ground arith;
}

IsDate-check_ranges : (r : Reading) → IsDate r.tm → check_ranges r ≡ ok tt
unfolding check_ranges
IsDate-check_ranges r h =
    let d = h.date in
    let a = h.hour in
    let b = h.minute in
    let c = h.second in
    let month : ltb r.tm.month 1 || ltb 12 r.tm.month ≡ false = unfold valid_ymd in ground arith in
    let date : not (valid_ymd r.tm.year r.tm.month r.tm.day) ≡ false = ap not d in
    let hour : ltb 23 r.tm.hour ≡ false = ground arith in
    let minute : ltb 59 r.tm.minute ≡ false = ground arith in
    let second : ltb 59 r.tm.second ≡ false = ground arith in
    rw (month, date, hour, minute, second) (ground arith)

all_read : (left : Bytes) → not (is_empty left) ≡ false → left ≡ []
all_read [] h = refl
all_read (c ∷ left) h = cc

-- What `finish` accepts.
pub finish_ok :
    (lib : Calendar) (tzmode : Zone) (r : Reading) (left : Bytes) (result : ParseResult)
    → finish lib tzmode none (r, left) ≡ ok result
    → (left ≡ [])
      × (complete r.present ≡ true)
      × IsDate r.tm
      × (lib.to_time tzmode (broken_of r.tm) ≡ some result.epoch)
unfolding finish
finish_ok lib tzmode r left result e =
    let all : complete r.present ≡ true = ground arith in
    let checked : check_ranges r ≡ ok tt = ground arith in
    (all_read left (ground arith), all, check_ranges-IsDate r all checked, ground arith)

-- A reading that agrees with `tm` wherever it says that it has read something.
record Agrees (r : Reading) (tm : Tm) : Type 0 where
  year : r.present.has_year ≡ true → r.tm.year ≡ tm.year
  month : r.present.has_month ≡ true → r.tm.month ≡ tm.month
  day : r.present.has_day ≡ true → r.tm.day ≡ tm.day
  hour : r.present.has_hour ≡ true → r.tm.hour ≡ tm.hour
  minute : r.present.has_minute ≡ true → r.tm.minute ≡ tm.minute
  second : r.present.has_second ≡ true → r.tm.second ≡ tm.second

set_field-Agrees :
    (r : Reading) (f : Field) (tm : Tm) → Agrees r tm → Agrees (set_field r f (value_of tm f)) tm
set_field-Agrees r yyyy tm h = record {
  year = λ e. refl;
  month = h.month;
  day = h.day;
  hour = h.hour;
  minute = h.minute;
  second = h.second;
}
set_field-Agrees r mo tm h = record {
  year = h.year;
  month = λ e. refl;
  day = h.day;
  hour = h.hour;
  minute = h.minute;
  second = h.second;
}
set_field-Agrees r dd tm h = record {
  year = h.year;
  month = h.month;
  day = λ e. refl;
  hour = h.hour;
  minute = h.minute;
  second = h.second;
}
set_field-Agrees r hh tm h = record {
  year = h.year;
  month = h.month;
  day = h.day;
  hour = λ e. refl;
  minute = h.minute;
  second = h.second;
}
set_field-Agrees r mi tm h = record {
  year = h.year;
  month = h.month;
  day = h.day;
  hour = h.hour;
  minute = λ e. refl;
  second = h.second;
}
set_field-Agrees r ss tm h = record {
  year = h.year;
  month = h.month;
  day = h.day;
  hour = h.hour;
  minute = h.minute;
  second = λ e. refl;
}
set_field-Agrees r sss tm h = record {
  year = h.year;
  month = h.month;
  day = h.day;
  hour = h.hour;
  minute = h.minute;
  second = h.second;
}

reading_after-Agrees :
    (fuel : ℕ) (fmt : Bytes) (tm : Tm) (r : Reading)
    → Agrees r tm
    → Agrees (reading_after fuel fmt tm r) tm
unfolding reading_after
reading_after-Agrees zero fmt tm r h = h
reading_after-Agrees (suc fuel) [] tm r h = h
reading_after-Agrees (suc fuel) (c ∷ fmt) tm r h = elim (Option-cases (token_at (c ∷ fmt))) [
  | inl e ↦
      subst (λ q. Agrees q tm) (sym (rw (e, reading_after) refl))
        (reading_after-Agrees fuel fmt tm r h)
  | inr (f, e) ↦
      subst (λ q. Agrees q tm) (sym (rw (e, reading_after) refl))
        (reading_after-Agrees fuel (drop (width_of f) (c ∷ fmt)) tm (set_field r f (value_of tm f))
          (set_field-Agrees r f tm h))
]

-- Nothing is read yet.
start-Agrees : (tm : Tm) → Agrees (start none) tm
start-Agrees tm = record {
  year = λ e. absurd cc;
  month = λ e. absurd cc;
  day = λ e. absurd cc;
  hour = λ e. absurd cc;
  minute = λ e. absurd cc;
  second = λ e. absurd cc;
}

-- All tokens were there.
complete-Agrees : (r : Reading) (tm : Tm) → Agrees r tm → complete r.present ≡ true → r.tm ≡ tm
complete-Agrees r tm h c =
    let p = r.present in
    let year = h.year (ground arith) in
    let month = h.month (ground arith) in
    let day = h.day (ground arith) in
    let hour = h.hour (ground arith) in
    let minute = h.minute (ground arith) in let second = h.second (ground arith) in ground arith

IsDate-Fits : (tm : Tm) → IsDate tm → tm.year < 10000 → Fits tm
unfolding valid_ymd
IsDate-Fits tm h year =
    let d = h.date in
    let a = h.hour in
    let b = h.minute in
    let c = h.second in
    record {
      year = year;
      month = ground arith;
      day = ground arith;
      hour = omega arith;
      minute = omega arith;
      second = omega arith;
    }

finish-complete :
    (lib : Calendar) (tzmode : Zone) (r : Reading) (t : ℤ)
    → complete r.present ≡ true
    → check_ranges r ≡ ok tt
    → lib.to_time tzmode (broken_of r.tm) ≡ some t
    → finish lib tzmode none (r, []) ≡ ok (result_of none r t)
unfolding finish
finish-complete lib tzmode r t c checked time = rw (c, checked, time) refl

-- What is read back from a date that was written.
abbrev pub reading_of : Bytes → Tm → Reading
reading_of format tm = reading_after (length format) format tm (start none)

-- A date that is written by a format is read back by the same format: the parser returns its time. The
-- format has all of year, month, day, hour, minute and second, and no milliseconds; the year has four
-- digits at most, and the C library can convert the date.
pub parse_strict_datetime-format_datetime :
    (lib : Calendar) (tm : Tm) (format : Bytes) (tzmode : Zone) (t : ℤ)
    → IsDate tm
    → tm.year < 10000
    → without_ms (length format) format ≡ true
    → complete (reading_of format tm).present ≡ true
    → lib.to_time tzmode (broken_of tm) ≡ some t
    → (r : ParseResult) × (parse_strict_datetime lib (format_datetime tm format) format tzmode
        ≡ ok r)
      × (r.epoch ≡ t)
unfolding parse_strict_datetime parse_impl format_datetime
parse_strict_datetime-format_datetime lib tm format tzmode t valid year none_ms all time =
    let r = reading_of format tm in
    let same : r.tm ≡ tm =
      complete-Agrees r tm
        (reading_after-Agrees (length format) format tm (start none) (start-Agrees tm)) all in
    let read =
      ap (λ s. parse_loop (length format) format s (start none))
        (sym (append-nil (format_loop (length format) format tm [])))
      ∙ parse_loop-format_loop (length format) format tm [] (start none) (IsDate-Fits tm valid year)
          none_ms in
    let done =
      finish-complete lib tzmode r t all (IsDate-check_ranges r (subst IsDate (sym same) valid))
        (ap (λ q. lib.to_time tzmode (broken_of q)) same ∙ time) in
    (result_of none r t, ap (λ q. q >>= finish lib tzmode none) read ∙ done, refl)
