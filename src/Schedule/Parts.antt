-- ===== src/Schedule/Parts.antt =====
-- `normalize` gives ranges of days of the week and times of the day from such ranges.
use jaytwo_library.Prelude.{
  ℕ, true, ◌+◌, ◌*◌, ◌%◌, ◌<◌, zero, suc, max, false, not, ◌||◌, List, [], ◌∷◌, ◌++◌, map, ltb,
  ◌==◌, ◌≡◌, inl, inr, refl, arith, Bool-cases,
}
use jaytwo_library.Schedule.{
  WeeklyRange, Interval, days_between, intervals_from_range, intervals_of, before, insert, sort,
  merge_loop, merge_sorted, to_range, normalize,
}
use jaytwo_library.Scheduler.Cover.{IsRange}

abbrev pub Ranges : List WeeklyRange → Type 0
Ranges [] = Unit
Ranges (r ∷ rs) = IsRange r × Ranges rs

abbrev pub first_part : WeeklyRange → Interval
first_part r = record {
  day = r.start_day;
  start = r.start_time.hour * 60 + r.start_time.minute;
  end = 1439;
}

abbrev pub last_part : WeeklyRange → Interval
last_part r = record { day = r.end_day; start = 0; end = r.end_time.hour * 60 + r.end_time.minute }

one_day :
    (r : WeeklyRange)
    → (r.start_day == r.end_day) ≡ true
    → intervals_from_range r
      ≡ record (first_part r) { end = r.end_time.hour * 60 + r.end_time.minute } ∷ []
unfolding intervals_from_range
one_day r e = rw e refl

-- The intervals of a range of several days.
pub several_days :
    (r : WeeklyRange)
    → (r.start_day == r.end_day) ≡ false
    → intervals_from_range r
      ≡ first_part r ∷ (days_between 7 ((r.start_day + 1) % 7) r.end_day ++ last_part r ∷ [])
unfolding intervals_from_range
several_days r e = rw e refl

-- Intervals of a day of the week and minutes of the day.
abbrev Parts : List Interval → Type 0
Parts [] = Unit
Parts (x ∷ xs) = ((x.day < 7) × (x.start < 1440) × (x.end < 1440)) × Parts xs

append-Parts : (xs ys : List Interval) → Parts xs → Parts ys → Parts (xs ++ ys)
append-Parts [] ys h k = k
append-Parts (x ∷ xs) ys (h, hs) k = (h, append-Parts xs ys hs k)

days_between-Parts : (fuel cur ed : ℕ) → cur < 7 → Parts (days_between fuel cur ed)
unfolding days_between
days_between-Parts zero cur ed h = tt
days_between-Parts (suc fuel) cur ed h =
    let rest = days_between-Parts fuel ((cur + 1) % 7) ed (omega arith) in
    elim (Bool-cases (cur == ed)) [
      | inl e ↦ rw e tt
      | inr e ↦ rw e ((h, omega arith, omega arith), rest)
    ]

intervals_from_range-Parts : (r : WeeklyRange) → IsRange r → Parts (intervals_from_range r)
intervals_from_range-Parts r h =
    let t = h.from in
    let u = h.until in
    let from : r.start_time.hour * 60 + r.start_time.minute < 1440 =
      omega (arith, t.hours, t.minutes) in
    let until : r.end_time.hour * 60 + r.end_time.minute < 1440 =
      omega (arith, u.hours, u.minutes) in
    elim (Bool-cases (r.start_day == r.end_day)) [
      | inl e ↦ rw (one_day r e) ((h.first, from, until), tt)
      | inr e ↦ rw (several_days r e) (
        (h.first, from, omega arith),
        append-Parts (days_between 7 ((r.start_day + 1) % 7) r.end_day) (last_part r ∷ [])
            (days_between-Parts 7 ((r.start_day + 1) % 7) r.end_day (omega arith))
            ((h.last, omega arith, until), tt),
      )
    ]

intervals_of-Parts : (rs : List WeeklyRange) → Ranges rs → Parts (intervals_of rs)
unfolding intervals_of
intervals_of-Parts [] h = tt
intervals_of-Parts (r ∷ rs) (h, hs) =
    append-Parts (intervals_from_range r) (intervals_of rs) (intervals_from_range-Parts r h)
      (intervals_of-Parts rs hs)

insert-Parts : (x : Interval) (xs : List Interval) → Parts (x ∷ []) → Parts xs → Parts (insert x xs)
unfolding insert
insert-Parts x [] h k = h
insert-Parts x (y ∷ ys) h (k, ks) = elim (Bool-cases (before y x)) [
  | inl e ↦ rw e (k, insert-Parts x ys h ks)
  | inr e ↦ rw e (h.0, (k, ks))
]

sort-Parts : (xs : List Interval) → Parts xs → Parts (sort xs)
unfolding sort
sort-Parts [] h = tt
sort-Parts (x ∷ xs) (h, hs) = insert-Parts x (sort xs) (h, tt) (sort-Parts xs hs)

merge_loop-Parts :
    (back : Interval) (ivs : List Interval) → Parts (back ∷ ivs) → Parts (merge_loop back ivs)
unfolding merge_loop
merge_loop-Parts back [] h = h
merge_loop-Parts back (iv ∷ ivs) ((a, b, c), (h, hs)) =
    elim (Bool-cases (not (back.day == iv.day) || ltb (back.end + 1) iv.start)) [
      | inl e ↦ rw e ((a, b, c), merge_loop-Parts iv ivs (h, hs))
      | inr e ↦ rw e (
          merge_loop-Parts (record back { end = max back.end iv.end }) ivs
            ((a, b, omega (arith, c, h.2)), hs))
    ]

merge_sorted-Parts : (xs : List Interval) → Parts xs → Parts (merge_sorted xs)
unfolding merge_sorted
merge_sorted-Parts [] h = tt
merge_sorted-Parts (x ∷ xs) h = merge_loop-Parts x xs h

-- The ranges that are made of such intervals.
to_range-Ranges : (xs : List Interval) → Parts xs → Ranges (map to_range xs)
to_range-Ranges [] h = tt
to_range-Ranges (x ∷ xs) ((a, b, c), hs) = (
  record {
    first = a;
    last = a;
    from = record { hours = omega (arith, b); minutes = omega arith };
    until = record { hours = omega (arith, c); minutes = omega arith };
  },
  to_range-Ranges xs hs,
)

pub normalize-Ranges : (input : List WeeklyRange) → Ranges input → Ranges (normalize input)
unfolding normalize
normalize-Ranges input h = to_range-Ranges (merge_sorted (sort (intervals_of input))) (
    merge_sorted-Parts (sort (intervals_of input))
      (sort-Parts (intervals_of input) (intervals_of-Parts input h)))
