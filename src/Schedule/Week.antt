-- ===== src/Schedule/Week.antt =====
-- The minutes of the week that a range means, and that `normalize` keeps them.
use jaytwo_library.Prelude.{
  ℕ, ◌+◌, ◌-◌, ◌*◌, ◌%◌, ◌≤◌, ◌<◌, zero, suc, Bool, true, false, ◌&&◌, ◌||◌, List, [], ◌∷◌, ◌++◌,
  ltb, leb, ◌==◌, ◌≡◌, inl, inr, refl, sym, ap, ap₂, ◌∙◌, arith, Bool-cases,
}
use jaytwo_library.Schedule.{
  WeeklyRange, Interval, days_between, intervals_from_range, intervals_of, normalize,
}
use jaytwo_library.Schedule.Normalizer.{within, covered, covered-normalize}
use jaytwo_library.Scheduler.Cover.{IsRange}
use jaytwo_library.Schedule.Parts.{Ranges, first_part, last_part, several_days, normalize-Ranges}

-- Counted from the midnight that begins the first day of the range: minute `m` of day `d`, which comes
-- 0 to 6 days later, is no earlier than the start and no later than the end.
unfoldable pub covers : WeeklyRange → ℕ → ℕ → Bool
covers r d m =
    let minute = (d + 7 - r.start_day) % 7 * 1440 + m in
    let last =
      (r.end_day + 7 - r.start_day) % 7 * 1440 + (r.end_time.hour * 60 + r.end_time.minute) in
    leb (r.start_time.hour * 60 + r.start_time.minute) minute && leb minute last

unfoldable pub one_covers : List WeeklyRange → ℕ → ℕ → Bool
one_covers [] d m = false
one_covers (r ∷ rs) d m = covers r d m || one_covers rs d m

covered-append :
    (xs ys : List Interval) (d m : ℕ) → covered (xs ++ ys) d m ≡ (covered xs d m || covered ys d m)
unfolding covered
covered-append [] ys d m = refl
covered-append (x ∷ xs) ys d m = ground (arith, covered-append xs ys d m)

next_day :
    (cur ed d : ℕ)
    → cur < 7
    → ed < 7
    → d < 7
    → (cur == ed) ≡ false
    → ((cur == d) || ltb ((d + 7 - (cur + 1) % 7) % 7) ((ed + 7 - (cur + 1) % 7) % 7))
      ≡ ltb ((d + 7 - cur) % 7) ((ed + 7 - cur) % 7)
next_day cur ed d hc he hd e = ground (arith, hc, he, hd, e)

-- The days between are the days before the last, counted from the current one.
covered-days_between :
    (fuel cur ed d m : ℕ)
    → cur < 7
    → ed < 7
    → d < 7
    → m < 1440
    → (ed + 7 - cur) % 7 ≤ fuel
    → covered (days_between fuel cur ed) d m ≡ ltb ((d + 7 - cur) % 7) ((ed + 7 - cur) % 7)
unfolding covered days_between
covered-days_between zero cur ed d m hc he hd hm h = ground (arith, h)
covered-days_between (suc fuel) cur ed d m hc he hd hm h = elim (Bool-cases (cur == ed)) [
  | inl e ↦ rw e (ground (arith, e, hc, he))
  | inr e ↦
      let rest =
        covered-days_between fuel ((cur + 1) % 7) ed d m (omega arith) he hd hm
          (ground (arith, h, e, hc, he)) in
      let step = next_day cur ed d hc he hd e in rw (e, rest) (ground (arith, step, hm))
]

covered-several :
    (mid : List Interval) (first last : Interval) (d m : ℕ)
    → covered (first ∷ (mid ++ last ∷ [])) d m
      ≡ (within first d m || (covered mid d m || within last d m))
unfolding covered
covered-several mid first last d m =
    let apart = covered-append mid (last ∷ []) d m in ground (arith, apart)

covers_several :
    (r : WeeklyRange) (d m : ℕ)
    → IsRange r
    → d < 7
    → m < 1440
    → (r.start_day == r.end_day) ≡ false
    → (within (first_part r) d m
        || (ltb ((d + 7 - (r.start_day + 1) % 7) % 7) ((r.end_day + 7 - (r.start_day + 1) % 7) % 7)
            || within (last_part r) d m))
      ≡ covers r d m
unfolding covers
covers_several r d m h hd hm e =
    let t = h.from in
    let u = h.until in
    let step = next_day r.start_day r.end_day d h.first h.last hd e in
    ground (arith, step, e, h.first, h.last, hd, hm, t.hours, t.minutes, u.hours, u.minutes)

covers_day :
    (r : WeeklyRange) (d m : ℕ)
    → IsRange r
    → d < 7
    → m < 1440
    → (r.start_day == r.end_day) ≡ true
    → covered (intervals_from_range r) d m ≡ covers r d m
unfolding covered intervals_from_range covers
covers_day r d m h hd hm e =
    let t = h.from in
    let u = h.until in
    rw e (ground (arith, e, h.first, h.last, hd, hm, t.hours, t.minutes, u.hours, u.minutes))

covered-intervals_from_range :
    (r : WeeklyRange) (d m : ℕ)
    → IsRange r
    → d < 7
    → m < 1440
    → covered (intervals_from_range r) d m ≡ covers r d m
covered-intervals_from_range r d m h hd hm = elim (Bool-cases (r.start_day == r.end_day)) [
  | inl e ↦ covers_day r d m h hd hm e
  | inr e ↦
      ap (λ xs. covered xs d m) (several_days r e)
      ∙ covered-several (days_between 7 ((r.start_day + 1) % 7) r.end_day) (first_part r)
          (last_part r) d m
      ∙ ap (λ b. within (first_part r) d m || (b || within (last_part r) d m))
          (covered-days_between 7 ((r.start_day + 1) % 7) r.end_day d m (omega arith) h.last hd hm
            (omega arith))
      ∙ covers_several r d m h hd hm e
]

covered-intervals_of :
    (rs : List WeeklyRange) (d m : ℕ)
    → Ranges rs
    → d < 7
    → m < 1440
    → covered (intervals_of rs) d m ≡ one_covers rs d m
unfolding intervals_of covered one_covers
covered-intervals_of [] d m h hd hm = refl
covered-intervals_of (r ∷ rs) d m (h, hs) hd hm =
    covered-append (intervals_from_range r) (intervals_of rs) d m
    ∙ ap₂ (◌||◌) (covered-intervals_from_range r d m h hd hm) (covered-intervals_of rs d m hs hd hm)

-- Normalizing changes no minute of the week. For ranges of days of the week and times of the day, the
-- ranges that come out are such ranges too, and minute `m` of day `d` lies in one of them just when it
-- lies in one of the ranges that went in: from its start on and up to its end, the last minute
-- included, counted round the week from the day on which the range starts.
pub one_covers-normalize :
    (input : List WeeklyRange) (d m : ℕ)
    → Ranges input
    → d < 7
    → m < 1440
    → Ranges (normalize input) × (one_covers (normalize input) d m ≡ one_covers input d m)
one_covers-normalize input d m h hd hm =
    let kept = normalize-Ranges input h in
    (
      kept,
      sym (covered-intervals_of (normalize input) d m kept hd hm)
          ∙ covered-normalize input d m
          ∙ covered-intervals_of input d m h hd hm,
    )
