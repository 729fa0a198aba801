-- ===== src/Scheduler/Result.antt =====
-- The range that `add_range` writes back, and the ranges that it leaves.
use jaytwo_library.Prelude.{
  ℕ, ◌+◌, ◌-◌, ◌*◌, ◌/◌, ◌%◌, ◌<◌, ◌≤◌, suc, true, false, List, [], ◌∷◌, ◌++◌, length,
  if◌then◌else◌, ltb, leb, ◌≡◌, ◌⊎◌, ◌↔◌, inl, inr, refl, sym, ap, subst, ◌∙◌, arith, Bool-cases,
  All,
}
use jaytwo_library.Schedule.{WeeklyRange}
use jaytwo_library.Scheduler.{
  week_minutes, minute_of, time_of, to_pair, pass, merge_loop, merged_range, add_range,
}
use jaytwo_library.Scheduler.Cover.{IsTime, IsRange, On, On-shift, to_pair-IsPair}
use jaytwo_library.Scheduler.Merge.{Covered, pass-Passed, Settled, merge_loop-Settled}

minute_of-time_of : (m : ℕ) → minute_of (m / 1440) (time_of m) ≡ m
minute_of-time_of m = omega arith

time_of-IsTime : (m : ℕ) → IsTime (time_of m)
time_of-IsTime m = record { hours = omega arith; minutes = omega arith }

merged_range_full :
    (s e : ℕ)
    → leb week_minutes (e - s + 1) ≡ true
    → merged_range (s, e) ≡ record {
      start_day = 0;
      start_time = record { hour = 0; minute = 0 };
      end_day = 6;
      end_time = record { hour = 23; minute = 59 };
    }
unfolding merged_range
merged_range_full s e f = rw f refl

merged_range_part :
    (s e : ℕ)
    → leb week_minutes (e - s + 1) ≡ false
    → merged_range (s, e) ≡ record {
      start_day = s % week_minutes / 1440;
      start_time = time_of (s % week_minutes);
      end_day = e % week_minutes / 1440;
      end_time = time_of (e % week_minutes);
    }
unfolding merged_range
merged_range_part s e f = rw f refl

merged_range-IsRange : (p : ℕ × ℕ) → IsRange (merged_range p)
merged_range-IsRange (s, e) = elim (Bool-cases (leb week_minutes (e - s + 1))) [
  | inl f ↦ subst IsRange (sym (merged_range_full s e f)) (record {
    first = omega arith;
    last = omega arith;
    from = record { hours = omega arith; minutes = omega arith };
    until = record { hours = omega arith; minutes = omega arith };
  })
  | inr f ↦ subst IsRange (sym (merged_range_part s e f)) (record {
    first = omega arith;
    last = omega arith;
    from = time_of-IsTime (s % week_minutes);
    until = time_of-IsTime (e % week_minutes);
  })
]

to_pair-full :
    (s e : ℕ) → leb week_minutes (e - s + 1) ≡ true → to_pair (merged_range (s, e)) ≡ (0, 10079)
unfolding to_pair
to_pair-full s e f = rw (merged_range_full s e f, to_pair) refl

wrapped_end :
    (s e : ℕ)
    → s ≤ e
    → e - s + 1 < week_minutes
    → (if ltb (e % week_minutes) (s % week_minutes)
        then e % week_minutes + week_minutes
        else e % week_minutes)
      ≡ s % week_minutes + (e - s)
wrapped_end s e o f = ground arith

to_pair-part :
    (s e : ℕ)
    → s ≤ e
    → leb week_minutes (e - s + 1) ≡ false
    → to_pair (merged_range (s, e)) ≡ (s % week_minutes, s % week_minutes + (e - s))
unfolding to_pair
to_pair-part s e o f =
    rw
      (
        merged_range_part s e f,
        minute_of-time_of (s % week_minutes),
        minute_of-time_of (e % week_minutes),
      )
      (ap (λ x. (s % week_minutes, x)) (wrapped_end s e o (ground (arith, f))))

On-whole : (s e t : ℕ) → week_minutes ≤ e - s + 1 → t < week_minutes → On (s, e) t
On-whole s e t f lt = ((s + 10079 - t) / week_minutes, omega (arith, f, lt), omega (arith, f, lt))

same_pair : {a b c d : ℕ} → a ≡ b → c ≡ d → ◌≡◌ {A = ℕ × ℕ} (a, c) (b, d)
same_pair {a} {b} {c} {d} p q = ap (λ x. (x, c)) p ∙ ap (λ x. (b, x)) q

-- The range that is written back covers what the pair covers.
merged_range-On :
    (p : ℕ × ℕ) (t : ℕ) → p.0 ≤ p.1 → t < week_minutes → On (to_pair (merged_range p)) t ↔ On p t
merged_range-On (s, e) t o lt = elim (Bool-cases (leb week_minutes (e - s + 1))) [
  | inl f ↦ (
    (λ c. On-whole s e t (ground (arith, f)) lt),
    (λ c. subst (λ p. On p t) (sym (to_pair-full s e f)) (0, omega arith, omega (arith, lt))),
  )
  | inr f ↦
      let n = s / week_minutes in
      let same : (
        s % week_minutes + n * week_minutes,
        s % week_minutes + (e - s) + n * week_minutes,
      )
          ≡ (s, e) =
        same_pair (omega arith) (omega (arith, o)) in
      let shift = On-shift (s % week_minutes) (s % week_minutes + (e - s)) n t lt in
      (
        (λ c. subst (λ p. On p t) same (shift.1 (subst (λ p. On p t) (to_pair-part s e o f) c))),
        (λ c.
            subst (λ p. On p t) (sym (to_pair-part s e o f))
              (shift.0 (subst (λ p. On p t) (sym same) c))),
      )
]

map_first {ℓ} : {A B C : Type ℓ} → (A → B) → A ⊎ C → B ⊎ C
map_first f (inl a) = inl (f a)
map_first f (inr c) = inr c

move_first {ℓ} : {A B C D : Type ℓ} → (C → A ⊎ D) → B ⊎ C → A ⊎ B ⊎ D
move_first f (inl b) = inr (inl b)
move_first f (inr c) = elim (f c) [ inl a ↦ inl a | inr d ↦ inr (inr d) ]

move_back {ℓ} : {A B C D : Type ℓ} → (A ⊎ D → C) → A ⊎ B ⊎ D → B ⊎ C
move_back f (inl a) = inr (f (inl a))
move_back f (inr (inl b)) = inl b
move_back f (inr (inr d)) = inr (f (inr d))

-- The ranges in another order: the new range goes to the end.
Covered-last :
    (rs : List WeeklyRange) (r : WeeklyRange) (t : ℕ)
    → Covered (rs ++ r ∷ []) t ↔ (On (to_pair r) t ⊎ Covered rs t)
Covered-last [] r t = ((λ c. c), (λ c. c))
Covered-last (x ∷ rs) r t = let rest = Covered-last rs r t in (move_first rest.0, move_back rest.1)

All-last :
    (rs : List WeeklyRange) (r : WeeklyRange)
    → All IsRange rs
    → IsRange r
    → All IsRange (rs ++ r ∷ [])
All-last [] r h hr = (hr, tt)
All-last (x ∷ rs) r (hx, h) hr = (hx, All-last rs r h hr)

-- What is left once the range is added, before the range is written back.
abbrev left_by : List WeeklyRange → WeeklyRange → List WeeklyRange × (ℕ × ℕ)
left_by rs r =
    let first = pass rs ((to_pair r).0 + week_minutes, (to_pair r).1 + week_minutes) in
    merge_loop (suc (length rs)) first.0 first.1

left_by-Settled :
    (rs : List WeeklyRange) (r : WeeklyRange) (t : ℕ)
    → All IsRange rs
    → IsRange r
    → t < week_minutes
    → Settled rs ((to_pair r).0 + week_minutes, (to_pair r).1 + week_minutes) t (left_by rs r)
left_by-Settled rs r t h hr lt =
    let new : ℕ × ℕ = ((to_pair r).0 + week_minutes, (to_pair r).1 + week_minutes) in
    let first = pass-Passed rs new t h (omega (arith, (to_pair-IsPair r hr).0)) lt in
    let rest =
      merge_loop-Settled (suc (length rs)) (pass rs new).0 (pass rs new).1 t
        (omega (arith, first.shorter)) first.ranges first.ordered lt in
    record {
      ranges = rest.ranges;
      ordered = rest.ordered;
      settled = rest.settled;
      to = λ c. first.to (rest.to c);
      from = λ c. rest.from (first.from c);
    }

add_range-left_by :
    (rs : List WeeklyRange) (r : WeeklyRange)
    → add_range rs r ≡ (left_by rs r).0 ++ merged_range (left_by rs r).1 ∷ []
unfolding add_range
add_range-left_by rs r = refl

-- `add_range` keeps the days and times of the ranges within a week and a day.
pub add_range-IsRange :
    (rs : List WeeklyRange) (r : WeeklyRange)
    → All IsRange rs
    → IsRange r
    → All IsRange (add_range rs r)
add_range-IsRange rs r h hr =
    let left = left_by-Settled rs r 0 h hr (omega arith) in
    subst (All IsRange) (sym (add_range-left_by rs r)) (
      All-last (left_by rs r).0 (merged_range (left_by rs r).1) left.ranges
        (merged_range-IsRange (left_by rs r).1))

-- `add_range` covers a minute of the week exactly if the range that is added, or one of those that
-- were there, covers it. The ranges have days and times as documented.
pub add_range-Covered :
    (rs : List WeeklyRange) (r : WeeklyRange) (t : ℕ)
    → All IsRange rs
    → IsRange r
    → t < week_minutes
    → Covered (add_range rs r) t ↔ Covered (r ∷ rs) t
add_range-Covered rs r t h hr lt =
    let left = left_by-Settled rs r t h hr lt in
    let back = merged_range-On (left_by rs r).1 t left.ordered lt in
    let last = Covered-last (left_by rs r).0 (merged_range (left_by rs r).1) t in
    let shift = On-shift (to_pair r).0 (to_pair r).1 1 t lt in
    (
      (λ c. map_first shift.0 (
          left.to
            (map_first back.0 (last.0 (subst (λ q. Covered q t) (add_range-left_by rs r) c))))),
      (λ c.
          subst (λ q. Covered q t) (sym (add_range-left_by rs r))
            (last.1 (map_first back.1 (left.from (map_first shift.1 c))))),
    )
