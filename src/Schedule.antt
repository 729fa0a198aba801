-- ===== src/Schedule.antt =====
-- `schedule_normalizer` of j2_library/src/schedule/weekly/schedule_normalizer.cpp. A weekday is its
-- number, Monday 0 to Sunday 6, and `std::sort` is an insertion sort by the same comparison.
pub mod Normalizer
pub mod Days
pub mod Parts
pub mod Week
mod Tests
use jaytwo_library.Prelude.{
  ℕ, ◌+◌, ◌-◌, ◌*◌, ◌/◌, ◌%◌, zero, suc, max, Bool, true, false, not, ◌&&◌, ◌||◌, List, [], ◌∷◌,
  ◌++◌, map, if◌then◌else◌, ltb, leb, ◌==◌, reverse,
}

pub record TimeHm : Type 0 where
  pub hour : ℕ
  pub minute : ℕ

pub record WeeklyRange : Type 0 where
  pub start_day : ℕ
  pub start_time : TimeHm
  pub end_day : ℕ
  pub end_time : TimeHm

pub record Interval : Type 0 where
  pub day : ℕ
  pub start : ℕ
  pub end : ℕ

abbrev pub minutes : TimeHm → ℕ
minutes t = t.hour * 60 + t.minute

-- The loop over the days between: no two days of a week are more than 7 apart, so seven rounds are enough
-- for days of the week. For an end of 7 or more, which `weekday` does not have, the source's loop does not
-- end, and this one stops.
unfoldable pub days_between : ℕ → ℕ → ℕ → List Interval
days_between zero cur ed = []
days_between (suc fuel) cur ed =
    let rest = days_between fuel ((cur + 1) % 7) ed in
    if cur == ed then [] else record { day = cur; start = 0; end = 24 * 60 - 1 } ∷ rest

unfoldable pub intervals_from_range : WeeklyRange → List Interval
unfolding days_between
intervals_from_range r =
    let sm = minutes r.start_time in
    let em = minutes r.end_time in
    if r.start_day == r.end_day
    then record { day = r.start_day; start = sm; end = em } ∷ []
    else record { day = r.start_day; start = sm; end = 24 * 60 - 1 }
      ∷ (days_between 7 ((r.start_day + 1) % 7) r.end_day
          ++ record { day = r.end_day; start = 0; end = em } ∷ [])

unfoldable pub intervals_of : List WeeklyRange → List Interval
unfolding intervals_from_range
intervals_of [] = []
intervals_of (r ∷ rs) = intervals_from_range r ++ intervals_of rs

-- The comparison of the sort.
unfoldable pub before : Interval → Interval → Bool
before a b =
    if not (a.day == b.day)
    then ltb a.day b.day
    else if not (a.start == b.start)
    then ltb a.start b.start
    else ltb a.end b.end

unfoldable pub insert : Interval → List Interval → List Interval
unfolding before
insert x [] = x ∷ []
insert x (y ∷ ys) = let rest = insert x ys in if before y x then y ∷ rest else x ∷ y ∷ ys

unfoldable pub sort : List Interval → List Interval
unfolding insert
sort [] = []
sort (x ∷ xs) = insert x (sort xs)

-- The loop of the merge with `merged.back()` apart.
unfoldable pub merge_loop : Interval → List Interval → List Interval
merge_loop back [] = back ∷ []
merge_loop back (iv ∷ ivs) =
    let fresh = back ∷ merge_loop iv ivs in
    let joined = merge_loop (record back { end = max back.end iv.end }) ivs in
    if not (back.day == iv.day) || ltb (back.end + 1) iv.start then fresh else joined

unfoldable pub merge_sorted : List Interval → List Interval
unfolding merge_loop
merge_sorted [] = []
merge_sorted (iv ∷ ivs) = merge_loop iv ivs

abbrev pub to_range : Interval → WeeklyRange
to_range m = record {
  start_day = m.day;
  start_time = record { hour = m.start / 60; minute = m.start % 60 };
  end_day = m.day;
  end_time = record { hour = m.end / 60; minute = m.end % 60 };
}

unfoldable pub normalize : List WeeklyRange → List WeeklyRange
unfolding intervals_of sort merge_sorted
normalize input = map to_range (merge_sorted (sort (intervals_of input)))
