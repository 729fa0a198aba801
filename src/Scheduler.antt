-- ===== src/Scheduler.antt =====
-- `scheduler` of j2_library/src/schedule/weekly/scheduler.cpp: its ranges, `add_range` and
-- `is_active_at_tm`. The source reckons in minutes of the week, which a shift by -1 week can make
-- negative; the model adds one week to each of the numbers that are shifted, so the shifts -1, 0 and
-- 1 are 0, 1 and 2 weeks here.
pub mod Cover
pub mod Merge
pub mod Result
pub mod Active
mod Tests
use jaytwo_library.Prelude.{
  ℕ, ◌+◌, ◌-◌, ◌*◌, ◌/◌, ◌%◌, zero, suc, min, max, Bool, true, false, ◌&&◌, ◌||◌, List, [], ◌∷◌,
  ◌++◌, Option, none, some, length, if◌then◌else◌, ltb, leb, ◌==◌,
}
use jaytwo_library.Schedule.{TimeHm, WeeklyRange, minutes}

abbrev pub min_per_day : ℕ
min_per_day = 1440

abbrev pub week_minutes : ℕ
week_minutes = 10080

abbrev pub minute_of : ℕ → TimeHm → ℕ
minute_of day t = day * 1440 + t.hour * 60 + t.minute

unfoldable pub to_pair : WeeklyRange → ℕ × ℕ
to_pair x =
    let s = minute_of x.start_day x.start_time in
    let e = minute_of x.end_day x.end_time in (s, (if ltb e s then e + week_minutes else e))

-- One of the shifts: the range joined to the new one, if they overlap or are adjacent.
abbrev pub try_shift : ℕ × ℕ → ℕ × ℕ → ℕ → Option (ℕ × ℕ)
try_shift (es0, ee0) (new_s, new_e) shift =
    let es = es0 + shift in
    let ee = ee0 + shift in
    if leb es (new_e + 1) && leb new_s (ee + 1) then some (min new_s es, max new_e ee) else none

-- The loop over the shifts, up to the `break`.
unfoldable pub try_shifts : ℕ × ℕ → ℕ × ℕ → Option (ℕ × ℕ)
try_shifts p new = elim (try_shift p new 0) [
  | some joined ↦ some joined
  | none ↦ elim (try_shift p new week_minutes) [
    | some joined ↦ some joined
    | none ↦ try_shift p new (2 * week_minutes)
  ]
]

-- The loop over the ranges that are not removed: those that are left, the new range, and `changed`.
unfoldable pub pass : List WeeklyRange → ℕ × ℕ → List WeeklyRange × (ℕ × ℕ) × Bool
unfolding try_shifts to_pair
pass [] new = ([], new, false)
pass (r ∷ rs) new = elim (try_shifts (to_pair r) new) [
  | some joined ↦ let (left, new', changed) = pass rs joined in (left, new', true)
  | none ↦ let (left, new', changed) = pass rs new in (r ∷ left, new', changed)
]

-- `while (changed)`.
unfoldable pub merge_loop : ℕ → List WeeklyRange → ℕ × ℕ → List WeeklyRange × (ℕ × ℕ)
unfolding pass
merge_loop zero rs new = (rs, new)
merge_loop (suc fuel) rs new =
    let (left, new', changed) = pass rs new in
    let rest = merge_loop fuel left new' in if changed then rest else (left, new')

abbrev pub time_of : ℕ → TimeHm
time_of m = record { hour = m % 1440 / 60; minute = m % 1440 % 60 }

-- The range that is written back.
unfoldable pub merged_range : ℕ × ℕ → WeeklyRange
merged_range (new_s, new_e) =
    let s_mod = new_s % week_minutes in
    let e_mod = new_e % week_minutes in
    if leb week_minutes (new_e - new_s + 1)
    then record {
      start_day = 0;
      start_time = record { hour = 0; minute = 0 };
      end_day = 6;
      end_time = record { hour = 23; minute = 59 };
    }
    else record {
      start_day = s_mod / min_per_day;
      start_time = time_of s_mod;
      end_day = e_mod / min_per_day;
      end_time = time_of e_mod;
    }

unfoldable pub add_range : List WeeklyRange → WeeklyRange → List WeeklyRange
unfolding to_pair pass merge_loop merged_range
add_range ranges r =
    let (s, e) = to_pair r in
    let (left, new, changed) = pass ranges (s + week_minutes, e + week_minutes) in
    let (left', new') = merge_loop (suc (length ranges)) left new in left' ++ merged_range new' ∷ []

-- One round of `is_active_at_tm`, on the day of the week and the minute of the day.
unfoldable pub active_in : WeeklyRange → ℕ → ℕ → Bool
active_in r now_day now_min =
    let sd = r.start_day in
    let ed = r.end_day in
    let day_match =
      (leb sd ed && (leb sd now_day && leb now_day ed))
      || (ltb ed sd && (leb sd now_day || leb now_day ed)) in
    if day_match
    then (if sd == ed
        then leb (minutes r.start_time) now_min && leb now_min (minutes r.end_time)
        else if now_day == sd
        then leb (minutes r.start_time) now_min
        else if now_day == ed
        then leb now_min (minutes r.end_time)
        else true)
    else false

unfoldable pub active_loop : List WeeklyRange → ℕ → ℕ → Bool
unfolding active_in
active_loop [] now_day now_min = false
active_loop (r ∷ rs) now_day now_min =
    if active_in r now_day now_min then true else active_loop rs now_day now_min

-- `tm_wday` counts from Sunday.
unfoldable pub is_active_at_tm : List WeeklyRange → ℕ → ℕ → ℕ → Bool
unfolding active_loop
is_active_at_tm ranges tm_wday tm_hour tm_min =
    active_loop ranges ((tm_wday + 6) % 7) (tm_hour * 60 + tm_min)
