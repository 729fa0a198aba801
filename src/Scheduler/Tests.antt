-- ===== src/Scheduler/Tests.antt =====
-- The laws of the scheduler at concrete ranges.
use jaytwo_library.Prelude.{ℕ, ◌+◌, ◌*◌, ◌%◌, [], ◌∷◌, true, false, ◌≡◌, ◌↔◌, refl, arith}
use jaytwo_library.Schedule.{WeeklyRange}
use jaytwo_library.Scheduler.{minute_of, to_pair, add_range, is_active_at_tm}
use jaytwo_library.Scheduler.Cover.{IsRange, On}
use jaytwo_library.Scheduler.Merge.{Covered}
use jaytwo_library.Scheduler.Result.{add_range-Covered}
use jaytwo_library.Scheduler.Active.{is_active_at_tm-Covered, wrapped_day_inactive}

abbrev range : ℕ → ℕ → ℕ → ℕ → WeeklyRange
range first from last until = record {
  start_day = first;
  start_time = record { hour = from; minute = 0 };
  end_day = last;
  end_time = record { hour = until; minute = 0 };
}

-- Sunday 22:00 to Monday 06:00, and Monday 05:00 to Tuesday 12:00.
abbrev night : WeeklyRange
night = range 6 22 0 6

abbrev day : WeeklyRange
day = range 0 5 1 12

-- Monday 12:00, around the week, to Monday 06:00.
abbrev around : WeeklyRange
around = range 0 12 0 6

night-IsRange : IsRange night
night-IsRange = record {
  first = omega arith;
  last = omega arith;
  from = record { hours = omega arith; minutes = omega arith };
  until = record { hours = omega arith; minutes = omega arith };
}

day-IsRange : IsRange day
day-IsRange = record {
  first = omega arith;
  last = omega arith;
  from = record { hours = omega arith; minutes = omega arith };
  until = record { hours = omega arith; minutes = omega arith };
}

around-IsRange : IsRange around
around-IsRange = record {
  first = omega arith;
  last = omega arith;
  from = record { hours = omega arith; minutes = omega arith };
  until = record { hours = omega arith; minutes = omega arith };
}

-- The two ranges overlap on Monday, and become one.
one_range : add_range (night ∷ []) day ≡ range 6 22 1 12 ∷ []
unfolding add_range
one_range = refl

add_range-Covered_example :
    Covered (add_range (night ∷ []) day) 300 ↔ Covered (day ∷ night ∷ []) 300
add_range-Covered_example =
    add_range-Covered (night ∷ []) day 300 (night-IsRange, tt) day-IsRange (omega arith)

is_active_at_tm-Covered_example :
    (is_active_at_tm (night ∷ day ∷ []) 0 23 30 ≡ true)
    ↔ Covered (night ∷ day ∷ []) ((0 + 6) % 7 * 1440 + (23 * 60 + 30))
is_active_at_tm-Covered_example =
    is_active_at_tm-Covered (night ∷ day ∷ []) 0 23 30 (night-IsRange, (day-IsRange, tt))
      ((λ e. omega (arith, e.0)), ((λ e. omega (arith, e.0)), tt)) (omega arith) (omega arith)

wrapped_day_inactive_example :
    (is_active_at_tm (around ∷ []) 3 10 0 ≡ false)
    × On (to_pair around) (minute_of around.start_day around.start_time)
wrapped_day_inactive_example = wrapped_day_inactive around 3 10 0 around-IsRange (refl, omega arith)
