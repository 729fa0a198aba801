-- ===== src/Datetime/Sound.antt =====
-- What the parser by a format accepts is what the text tells.
use jaytwo_library.Prelude.{
  ℕ, ◌≤◌, ◌<◌, zero, suc, true, List, [], ◌∷◌, ◌++◌, some, none, Bytes, length, length-drop, drop,
  ◌≡◌, inl, inr, refl, sym, ap, subst, ◌∙◌, arith, Option-cases, append_assoc, append-nil,
}
use jaytwo_library.Datetime.{Tm, Field, yyyy, mo, dd, hh, mi, ss, sss, width_of, read_ndigits}
use jaytwo_library.Datetime.Strict.{
  Zone, Calendar, broken_of, Reading, set_field, Result, ok, or_raise, field_error, ParseResult,
  start, parse_token, literal, finish, parse_loop, parse_impl, parse_strict_datetime,
}
use jaytwo_library.Datetime.Readings.{
  spelling, Spells, finished, token, itself, Latest, newest, older, Tells,
}
use jaytwo_library.Datetime.Gregorian.{IsDay, valid_ymd-IsDay}
use jaytwo_library.Datetime.Checked.{bind_ok, or_raise_ok, finish_ok}
use jaytwo_library.Datetime.Tokens.{
  Taken, read_ndigits_sound, token_spelled, spelled_token, literal_sound, width-spelling,
}

ok_pair :
    (r r' : Reading) (s t : Bytes)
    → ◌≡◌ {A = Result (Reading × Bytes)} (ok (r, s)) (ok (r', t))
    → (r ≡ r') × (s ≡ t)
ok_pair r r' s t h = (cc, cc)

-- What is read so far is what was given last.
record Told (r : Reading) (given : List (Field × ℕ)) : Type 0 where
  year : r.present.has_year ≡ true → Latest yyyy r.tm.year given
  month : r.present.has_month ≡ true → Latest mo r.tm.month given
  day : r.present.has_day ≡ true → Latest dd r.tm.day given
  hour : r.present.has_hour ≡ true → Latest hh r.tm.hour given
  minute : r.present.has_minute ≡ true → Latest mi r.tm.minute given
  second : r.present.has_second ≡ true → Latest ss r.tm.second given

set_field-Told :
    (r : Reading) (f : Field) (v : ℕ) (given : List (Field × ℕ))
    → Told r given
    → Told (set_field r f v) ((f, v) ∷ given)
set_field-Told r yyyy v given h = record {
  year = λ e. newest;
  month = λ e. older (λ q. cc) (h.month e);
  day = λ e. older (λ q. cc) (h.day e);
  hour = λ e. older (λ q. cc) (h.hour e);
  minute = λ e. older (λ q. cc) (h.minute e);
  second = λ e. older (λ q. cc) (h.second e);
}
set_field-Told r mo v given h = record {
  year = λ e. older (λ q. cc) (h.year e);
  month = λ e. newest;
  day = λ e. older (λ q. cc) (h.day e);
  hour = λ e. older (λ q. cc) (h.hour e);
  minute = λ e. older (λ q. cc) (h.minute e);
  second = λ e. older (λ q. cc) (h.second e);
}
set_field-Told r dd v given h = record {
  year = λ e. older (λ q. cc) (h.year e);
  month = λ e. older (λ q. cc) (h.month e);
  day = λ e. newest;
  hour = λ e. older (λ q. cc) (h.hour e);
  minute = λ e. older (λ q. cc) (h.minute e);
  second = λ e. older (λ q. cc) (h.second e);
}
set_field-Told r hh v given h = record {
  year = λ e. older (λ q. cc) (h.year e);
  month = λ e. older (λ q. cc) (h.month e);
  day = λ e. older (λ q. cc) (h.day e);
  hour = λ e. newest;
  minute = λ e. older (λ q. cc) (h.minute e);
  second = λ e. older (λ q. cc) (h.second e);
}
set_field-Told r mi v given h = record {
  year = λ e. older (λ q. cc) (h.year e);
  month = λ e. older (λ q. cc) (h.month e);
  day = λ e. older (λ q. cc) (h.day e);
  hour = λ e. older (λ q. cc) (h.hour e);
  minute = λ e. newest;
  second = λ e. older (λ q. cc) (h.second e);
}
set_field-Told r ss v given h = record {
  year = λ e. older (λ q. cc) (h.year e);
  month = λ e. older (λ q. cc) (h.month e);
  day = λ e. older (λ q. cc) (h.day e);
  hour = λ e. older (λ q. cc) (h.hour e);
  minute = λ e. older (λ q. cc) (h.minute e);
  second = λ e. newest;
}
set_field-Told r sss v given h = record {
  year = λ e. older (λ q. cc) (h.year e);
  month = λ e. older (λ q. cc) (h.month e);
  day = λ e. older (λ q. cc) (h.day e);
  hour = λ e. older (λ q. cc) (h.hour e);
  minute = λ e. older (λ q. cc) (h.minute e);
  second = λ e. older (λ q. cc) (h.second e);
}

-- What the loop has taken off the text by the format.
abbrev Looped : Bytes → Bytes → Bytes → List (Field × ℕ) → Reading → Type 0
Looped fmt s left earlier r =
    (text : Bytes) × (all : List (Field × ℕ)) × (s ≡ text ++ left)
    × Spells fmt text earlier all
    × Told r all

shorter : (c : ℕ) (fmt : Bytes) (f : Field) → length (drop (width_of f) (c ∷ fmt)) ≤ length fmt
shorter c fmt yyyy = omega (arith, length-drop 3 fmt)
shorter c fmt mo = omega (arith, length-drop 1 fmt)
shorter c fmt dd = omega (arith, length-drop 1 fmt)
shorter c fmt hh = omega (arith, length-drop 1 fmt)
shorter c fmt mi = omega (arith, length-drop 1 fmt)
shorter c fmt ss = omega (arith, length-drop 1 fmt)
shorter c fmt sss = omega (arith, length-drop 2 fmt)

add_token :
    (fmt next s rest left : Bytes) (f : Field) (v : ℕ) (earlier : List (Field × ℕ)) (r : Reading)
    → fmt ≡ spelling f ++ next
    → Taken (width_of f) s [] rest v
    → Looped next rest left ((f, v) ∷ earlier) r
    → Looped fmt s left earlier r
add_token fmt next s rest left f v earlier r here (digits, cut, size, number)
      (text, all, whole, spelled, told) =
    (
      digits ++ text,
      all,
      cut ∙ ap (◌++◌ digits) whole ∙ sym (append_assoc digits text left),
      subst (λ x. Spells x (digits ++ text) earlier all) (sym here)
          (token number (size ∙ width-spelling f) spelled),
      told,
    )

parse_loop_sound :
    (fuel : ℕ) (fmt s left : Bytes) (r r' : Reading) (earlier : List (Field × ℕ))
    → length fmt ≤ fuel
    → Told r earlier
    → parse_loop fuel fmt s r ≡ ok (r', left)
    → Looped fmt s left earlier r'
unfolding parse_loop
parse_loop_sound zero [] s left r r' earlier le t h =
    let (same, all) = ok_pair r r' s left h in
    ([], earlier, all, finished, subst (λ x. Told x earlier) same t)
parse_loop_sound zero (c ∷ fmt) s left r r' earlier le t h = absurd (omega (arith, le))
parse_loop_sound (suc fuel) [] s left r r' earlier le t h =
    let (same, all) = ok_pair r r' s left h in
    ([], earlier, all, finished, subst (λ x. Told x earlier) same t)
parse_loop_sound (suc fuel) (c ∷ fmt) s left r r' earlier le t h =
    elim (Option-cases (parse_token (c ∷ fmt))) [
      | inl e ↦
          let (rest, taken, later) =
            bind_ok (literal c s) (λ rest. parse_loop fuel fmt rest r) (r', left)
              (sym (rw (e, parse_loop) refl) ∙ h) in
          let (text, all, whole, spelled, told) =
            parse_loop_sound fuel fmt rest left r r' earlier (omega (arith, le)) t later in
          (
            c ∷ text,
            all,
            literal_sound c s rest taken ∙ ap (◌∷◌ c) whole,
            itself (λ f behind q. spelled_token f behind (ap parse_token (sym q) ∙ e)) spelled,
            told,
          )
      | inr (f, e) ↦
          let next = drop (width_of f) (c ∷ fmt) in
          let (q, read, later) =
            bind_ok (or_raise (read_ndigits s (width_of f)) (field_error f))
              (λ q. parse_loop fuel next q.1 (set_field r f q.0)) (r', left)
              (sym (rw (e, parse_loop) refl) ∙ h) in
          add_token (c ∷ fmt) next s q.1 left f q.0 earlier r' (token_spelled (c ∷ fmt) f e)
            (read_ndigits_sound s q.1 (width_of f) q.0 (or_raise_ok _ _ q read))
            (parse_loop_sound fuel next q.1 left (set_field r f q.0) r' ((f, q.0) ∷ earlier)
              (omega (arith, le, shorter c fmt f)) (set_field-Told r f q.0 earlier t) later)
    ]

-- Nothing is read yet.
start-Told : Told (start none) []
start-Told = record {
  year = λ e. absurd cc;
  month = λ e. absurd cc;
  day = λ e. absurd cc;
  hour = λ e. absurd cc;
  minute = λ e. absurd cc;
  second = λ e. absurd cc;
}

-- A date of the calendar, and a time of the day.
pub record IsMoment (tm : Tm) : Type 0 where
  pub date : IsDay tm.year tm.month tm.day
  pub hour : tm.hour < 24
  pub minute : tm.minute < 60
  pub second : tm.second < 60

-- Whatever text and format: where the parser without a base accepts, the text tells by the format a year,
-- a month, a day, an hour, a minute and a second, which are a date of the calendar and a time of the
-- day, and the result is their time. A token of the format stands for a decimal number of as many
-- digits, any other char of it for itself, and of a token that comes again the last number counts.
pub parse_strict_datetime_sound :
    (lib : Calendar) (datetime format : Bytes) (tzmode : Zone) (result : ParseResult)
    → parse_strict_datetime lib datetime format tzmode ≡ ok result
    → (tm : Tm) × IsMoment tm
      × Tells format datetime tm
      × (lib.to_time tzmode (broken_of tm) ≡ some result.epoch)
unfolding parse_strict_datetime parse_impl
parse_strict_datetime_sound lib datetime format tzmode result e =
    let (q, read, done) =
      bind_ok (parse_loop (length format) format datetime (start none)) (finish lib tzmode none)
        result e in
    let (nothing_left, present, moment, time) = finish_ok lib tzmode q.0 q.1 result done in
    let (text, given, whole, spelled, told) =
      parse_loop_sound (length format) format datetime q.1 (start none) q.0 [] (omega arith)
        start-Told read in
    let all_text : datetime ≡ text = whole ∙ ap (◌++◌ text) nothing_left ∙ append-nil text in
    (
      q.0.tm,
      record {
        date = valid_ymd-IsDay q.0.tm.year q.0.tm.month q.0.tm.day moment.date;
        hour = moment.hour;
        minute = moment.minute;
        second = moment.second;
      },
      record {
        given = given;
        spelled = subst (λ x. Spells format x [] given) (sym all_text) spelled;
        year = told.year (ground (arith, present));
        month = told.month (ground (arith, present));
        day = told.day (ground (arith, present));
        hour = told.hour (ground (arith, present));
        minute = told.minute (ground (arith, present));
        second = told.second (ground (arith, present));
      },
      time,
    )
