-- ===== src/Datetime/Strict.antt =====
-- The parser by a format of j2_library/src/datetime/datetime_string.cpp. What the C library does with
-- the calendar is a parameter. A time is a number of seconds since 1970, which may be negative; an error
-- is the text of the field `error`.
use jaytwo_library.Prelude.{
  ℕ, ◌+◌, ◌-◌, ◌*◌, zero, suc, Bool, true, false, not, ◌&&◌, ◌||◌, [], ◌∷◌, Option, none, some,
  Bytes, codes, length, drop, is_empty, if◌then◌else◌, ltb, leb, ◌==◌,
}
use jaytwo_library.Datetime.{
  Tm, Field, yyyy, mo, dd, hh, mi, ss, sss, width_of, read_ndigits, match_token, token_at,
  valid_ymd,
}

-- `negsuc n` is -(n + 1).
pub data ℤ : Type 0 where
  pos : ℕ → ℤ
  negsuc : ℕ → ℤ

abbrev pub sub_ℕ : ℕ → ℕ → ℤ
sub_ℕ a b = if leb b a then pos (a - b) else negsuc (b - a - 1)

pub data Zone : Type 0 where
  utc local_time : Zone

-- The `tm` that is converted: in the other parser an hour or a minute that is not given is -1.
pub record Broken : Type 0 where
  pub year : ℕ
  pub month : ℕ
  pub day : ℕ
  pub hour : ℤ
  pub minute : ℤ
  pub second : ℕ

abbrev pub broken_of : Tm → Broken
broken_of t = record {
  year = t.year;
  month = t.month;
  day = t.day;
  hour = pos t.hour;
  minute = pos t.minute;
  second = t.second;
}

-- The C library: the time of a date in a zone, the present date in a zone, and today's date at an
-- offset from UTC.
pub record Calendar : Type 0 where
  pub to_time : Zone → Broken → Option ℤ
  pub now_in_zone : Zone → Tm
  pub today_at : ℤ → Tm

-- `r.error` is set, or the value is there.
pub data Result {ℓ} (Value : Type ℓ) : Type ℓ where
  err : Bytes → Result Value
  ok : Value → Result Value

infixl 5 ◌>>=◌ ◌>>◌
abbrev pub ◌>>=◌ {ℓ κ} :
    {Value : Type ℓ} {Next : Type κ} → Result Value → (Value → Result Next) → Result Next
err error >>= next = err error
ok value >>= next = next value

abbrev pub ◌>>◌ {ℓ} : {Next : Type ℓ} → Result (Unit {0}) → Result Next → Result Next
check >> next = check >>= λ passed. next

abbrev pub raise_if : Bool → Bytes → Result (Unit {0})
raise_if true e = err e
raise_if false e = ok tt

abbrev pub or_raise {ℓ} : {A : Type ℓ} → Option A → Bytes → Result A
or_raise (some a) e = ok a
or_raise none e = err e

pub record Present : Type 0 where
  pub has_year : Bool
  pub has_month : Bool
  pub has_day : Bool
  pub has_hour : Bool
  pub has_minute : Bool
  pub has_second : Bool
  pub has_millisecond : Bool

abbrev pub nothing_present : Present
nothing_present = record {
  has_year = false;
  has_month = false;
  has_day = false;
  has_hour = false;
  has_minute = false;
  has_second = false;
  has_millisecond = false;
}

-- What is read so far: `Y` to `s`, `ms` and `r.present`.
pub record Reading : Type 0 where
  pub tm : Tm
  pub ms : ℕ
  pub present : Present

abbrev pub set_field : Reading → Field → ℕ → Reading
set_field r yyyy v = record {
  tm = record r.tm { year = v };
  ms = r.ms;
  present = record r.present { has_year = true };
}
set_field r mo v = record {
  tm = record r.tm { month = v };
  ms = r.ms;
  present = record r.present { has_month = true };
}
set_field r dd v = record {
  tm = record r.tm { day = v };
  ms = r.ms;
  present = record r.present { has_day = true };
}
set_field r hh v = record {
  tm = record r.tm { hour = v };
  ms = r.ms;
  present = record r.present { has_hour = true };
}
set_field r mi v = record {
  tm = record r.tm { minute = v };
  ms = r.ms;
  present = record r.present { has_minute = true };
}
set_field r ss v = record {
  tm = record r.tm { second = v };
  ms = r.ms;
  present = record r.present { has_second = true };
}
set_field r sss v = record {
  tm = r.tm;
  ms = v;
  present = record r.present { has_millisecond = true };
}

abbrev pub field_error : Field → Bytes
field_error yyyy = codes "YYYY Error"
field_error mo = codes "MM Error"
field_error dd = codes "DD Error"
field_error hh = codes "hh Error"
field_error mi = codes "mm Error"
field_error ss = codes "ss Error"
field_error sss = codes "SSS Error"

-- The tests of the parser: those of the formatter, and then the one for the milliseconds.
unfoldable pub parse_token : Bytes → Option Field
unfolding token_at match_token
parse_token fmt = elim (token_at fmt) [
  | some f ↦ some f
  | none ↦ if match_token fmt (codes "SSS") then some sss else none
]

-- A char that is no token.
abbrev pub literal : ℕ → Bytes → Result Bytes
literal c [] = err (codes "Literally inconsistent")
literal c (d ∷ s) = if c == d then ok s else err (codes "Literally inconsistent")

-- The loop over the format: what is read, and what is left of the text.
unfoldable pub parse_loop : ℕ → Bytes → Bytes → Reading → Result (Reading × Bytes)
unfolding parse_token read_ndigits
parse_loop zero fmt s r = ok (r, s)
parse_loop (suc fuel) [] s r = ok (r, s)
parse_loop (suc fuel) (c ∷ fmt) s r = elim (parse_token (c ∷ fmt)) [
  | some f ↦ or_raise (read_ndigits s (width_of f)) (field_error f) >>= λ q.
      parse_loop fuel (drop (width_of f) (c ∷ fmt)) q.1 (set_field r f q.0)
  | none ↦ literal c s >>= λ rest. parse_loop fuel fmt rest r
]

abbrev pub complete : Present → Bool
complete p =
    (p.has_year && (p.has_month && p.has_day)) && (p.has_hour && (p.has_minute && p.has_second))

abbrev pub any_date : Present → Bool
any_date p = p.has_year || (p.has_month || p.has_day)

unfoldable pub check_ranges : Reading → Result (Unit {0})
check_ranges r = do
  let p = r.present
  let t = r.tm
  raise_if (p.has_hour && ltb 23 t.hour) (codes "Hour range error")
  raise_if (p.has_minute && ltb 59 t.minute) (codes "Minute range error")
  raise_if (p.has_second && ltb 59 t.second) (codes "Second range error")
  raise_if (any_date p && (p.has_month && (ltb t.month 1 || ltb 12 t.month)))
      (codes "Month range error")
  raise_if (any_date p && not (valid_ymd t.year t.month t.day)) (codes "Date Validation Error")

-- Seconds to milliseconds.
unfoldable pub in_ms : ℤ → ℕ → ℤ
in_ms (pos n) ms = pos (n * 1000 + ms)
in_ms (negsuc n) ms = sub_ℕ ms ((n + 1) * 1000)

-- `timepoint` is `epoch_ms` once more, and is left out.
pub record ParseResult : Type 0 where
  pub epoch : ℤ
  pub millisecond : ℕ
  pub epoch_ms : ℤ
  pub broken : Option Broken
  pub present : Present

abbrev pub zero_tm : Tm
zero_tm = record { year = 0; month = 0; day = 0; hour = 0; minute = 0; second = 0 }

-- What the reading starts from.
abbrev pub start : Option Tm → Reading
start (some base) = record { tm = base; ms = 0; present = nothing_present }
start none = record { tm = zero_tm; ms = 0; present = nothing_present }

abbrev pub has_base : Option Tm → Bool
has_base (some base) = true
has_base none = false

abbrev pub result_of : Option Tm → Reading → ℤ → ParseResult
result_of base r t = record {
  epoch = t;
  millisecond = if r.present.has_millisecond then r.ms else 0;
  epoch_ms = in_ms t (if r.present.has_millisecond then r.ms else 0);
  broken = if has_base base then some (broken_of r.tm) else none;
  present = r.present;
}

-- The checks and the conversion, after the loop.
unfoldable pub finish : Calendar → Zone → Option Tm → Reading × Bytes → Result ParseResult
unfolding check_ranges
finish lib tzmode base (r, left) = do
  raise_if (not (is_empty left)) (codes "Extra character")
  raise_if (not (has_base base) && not (complete r.present))
      (codes "Missing tokens without base (require YYYY,MM,DD,hh,mm,ss)")
  check_ranges r
  t ← or_raise (lib.to_time tzmode (broken_of r.tm)) (codes "Time conversion failure")
  ok (result_of base r t)

-- `parse_strict_datetime_ex_impl`.
unfoldable pub parse_impl : Calendar → Bytes → Bytes → Zone → Option Tm → Result ParseResult
unfolding parse_loop finish
parse_impl lib datetime format tzmode base =
    parse_loop (length format) format datetime (start base) >>= finish lib tzmode base

unfoldable pub parse_strict_datetime : Calendar → Bytes → Bytes → Zone → Result ParseResult
unfolding parse_impl
parse_strict_datetime lib datetime format tzmode = parse_impl lib datetime format tzmode none

unfoldable pub parse_strict_datetime_with_base :
    Calendar → Bytes → Bytes → Zone → Tm → Result ParseResult
unfolding parse_impl
parse_strict_datetime_with_base lib datetime format tzmode base =
    parse_impl lib datetime format tzmode (some base)

unfoldable pub parse_strict_datetime_optbase :
    Calendar → Bytes → Bytes → Zone → Option Tm → Result ParseResult
unfolding parse_impl
parse_strict_datetime_optbase lib datetime format tzmode base =
    parse_impl lib datetime format tzmode base

unfoldable pub parse_strict_datetime_epoch_ms : Calendar → Bytes → Bytes → Zone → Option ℤ
unfolding parse_strict_datetime
parse_strict_datetime_epoch_ms lib datetime format tzmode =
    elim (parse_strict_datetime lib datetime format tzmode) [
      | ok r ↦ some r.epoch_ms
      | err e ↦ none
    ]
