-- ===== src/Scheduler/Active.antt =====
-- `is_active_at_tm` against the minutes of the week that the ranges cover.
use jaytwo_library.Prelude.{
  ℕ, ◌+◌, ◌*◌, ◌%◌, ◌<◌, true, false, ◌||◌, List, [], ◌∷◌, if◌then◌else◌, ltb, ◌≡◌, ◌↔◌, inl, inr,
  refl, arith, Bool-cases, All,
}
use jaytwo_library.Schedule.{WeeklyRange, minutes}
use jaytwo_library.Scheduler.{minute_of, to_pair, active_in, active_loop, is_active_at_tm}
use jaytwo_library.Scheduler.Cover.{IsRange, On, to_pair-IsPair}
use jaytwo_library.Scheduler.Merge.{Covered}

-- A range that ends before it starts on the same day: the whole week, but for the minutes between.
abbrev pub EndsEarlier : WeeklyRange → Type 0
EndsEarlier r = (r.start_day ≡ r.end_day) × (minutes r.end_time < minutes r.start_time)

active_in-On :
    (r : WeeklyRange) (d m : ℕ)
    → IsRange r
    → ¬ EndsEarlier r
    → d < 7
    → m < 1440
    → active_in r d m ≡ true
    → On (to_pair r) (d * 1440 + m)
unfolding active_in to_pair
active_in-On r d m h n hd hm e =
    let f = h.from in
    let u = h.until in
    let first = h.first in
    let last = h.last in
    let fh = f.hours in
    let fm = f.minutes in
    let uh = u.hours in
    let um = u.minutes in
    (
      (if ltb (d * 1440 + m) (minute_of r.start_day r.start_time) then 1 else 0),
      ground arith,
      ground arith,
    )

On-active_in :
    (r : WeeklyRange) (d m : ℕ)
    → IsRange r
    → ¬ EndsEarlier r
    → d < 7
    → m < 1440
    → On (to_pair r) (d * 1440 + m)
    → active_in r d m ≡ true
unfolding active_in to_pair
On-active_in r d m h n hd hm (k, lo, hi) =
    let f = h.from in
    let u = h.until in
    let first = h.first in
    let last = h.last in
    let fh = f.hours in let fm = f.minutes in let uh = u.hours in let um = u.minutes in ground arith

active_loop-step :
    (r : WeeklyRange) (rs : List WeeklyRange) (d m : ℕ)
    → active_loop (r ∷ rs) d m ≡ (active_in r d m || active_loop rs d m)
unfolding active_loop
active_loop-step r rs d m = elim (Bool-cases (active_in r d m)) [
  | inl e ↦ rw e refl
  | inr e ↦ rw e refl
]

active_loop-Covered :
    (rs : List WeeklyRange) (d m : ℕ)
    → All IsRange rs
    → All (λ r. ¬ EndsEarlier r) rs
    → d < 7
    → m < 1440
    → (active_loop rs d m ≡ true) ↔ Covered rs (d * 1440 + m)
unfolding active_loop
active_loop-Covered [] d m h n hd hm = ((λ e. absurd cc), (λ c. absurd c))
active_loop-Covered (r ∷ rs) d m (hr, h) (nr, n) hd hm =
    let rest = active_loop-Covered rs d m h n hd hm in
    let here = active_in-On r d m hr nr hd hm in
    let there = On-active_in r d m hr nr hd hm in
    (
      (λ e. elim (Bool-cases (active_in r d m)) [
        | inl a ↦ inl (here a)
        | inr b ↦ inr (rest.0 (ground (arith, active_loop-step r rs d m, e, b)))
      ]),
      (λ c. elim c [
        | inl a ↦ ground (arith, active_loop-step r rs d m, there a)
        | inr b ↦ ground (arith, active_loop-step r rs d m, rest.1 b)
      ]),
    )

-- `is_active_at_tm` answers `true` exactly at the minutes that one of the ranges covers: for ranges
-- with days and times as documented, none of which ends earlier on the day on which it starts, and a
-- `tm` in range.
pub is_active_at_tm-Covered :
    (rs : List WeeklyRange) (tm_wday tm_hour tm_min : ℕ)
    → All IsRange rs
    → All (λ r. ¬ EndsEarlier r) rs
    → tm_hour < 24
    → tm_min < 60
    → (is_active_at_tm rs tm_wday tm_hour tm_min ≡ true)
      ↔ Covered rs ((tm_wday + 6) % 7 * 1440 + (tm_hour * 60 + tm_min))
unfolding is_active_at_tm
is_active_at_tm-Covered rs tm_wday tm_hour tm_min h n hh hm =
    active_loop-Covered rs ((tm_wday + 6) % 7) (tm_hour * 60 + tm_min) h n (omega arith)
      (omega (arith, hh, hm))

wrapped_day : (r : WeeklyRange) (d m : ℕ) → EndsEarlier r → active_in r d m ≡ false
unfolding active_in
wrapped_day r d m (same, less) = ground arith

-- A valid range that ends earlier on the day on which it starts is active at no time of the week, although
-- it covers the minute in which it starts.
pub wrapped_day_inactive :
    (r : WeeklyRange) (tm_wday tm_hour tm_min : ℕ)
    → IsRange r
    → EndsEarlier r
    → (is_active_at_tm (r ∷ []) tm_wday tm_hour tm_min ≡ false)
      × On (to_pair r) (minute_of r.start_day r.start_time)
unfolding is_active_at_tm active_loop to_pair
wrapped_day_inactive r tm_wday tm_hour tm_min valid h = (
  rw (wrapped_day r ((tm_wday + 6) % 7) (tm_hour * 60 + tm_min) h) refl,
  (0, omega arith, omega (arith, (to_pair-IsPair r valid).0)),
)
