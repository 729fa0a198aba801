-- ===== src/Scheduler/Merge.antt =====
-- `add_range` and the minutes of the week that the ranges cover.
use jaytwo_library.Prelude.{
  ℕ, ◌<◌, ◌≤◌, zero, suc, Bool, true, false, List, [], ◌∷◌, none, some, length, ◌≡◌, ◌≢◌, ◌⊎◌, inl,
  inr, refl, sym, ap, subst, ◌∙◌, arith, Bool-cases, Option-cases, All,
}
use jaytwo_library.Schedule.{WeeklyRange}
use jaytwo_library.Scheduler.{week_minutes, to_pair, try_shifts, pass, merge_loop}
use jaytwo_library.Scheduler.Cover.{IsRange, On, to_pair-IsPair, try_shifts-Joined}

-- Minute `t` of the week is covered by one of the ranges.
abbrev pub Covered : List WeeklyRange → ℕ → Type 0
Covered [] t = ⊥
Covered (r ∷ rs) t = On (to_pair r) t ⊎ Covered rs t

-- Sums, one part of which is exchanged.
keep_middle {ℓ} : {A A' B C C' : Type ℓ} → (A ⊎ C → A' ⊎ C') → A ⊎ B ⊎ C → A' ⊎ B ⊎ C'
keep_middle f (inl a) = elim (f (inl a)) [ inl a' ↦ inl a' | inr c ↦ inr (inr c) ]
keep_middle f (inr (inl b)) = inr (inl b)
keep_middle f (inr (inr c)) = elim (f (inr c)) [ inl a' ↦ inl a' | inr c' ↦ inr (inr c') ]

split_first {ℓ} : {A B C J : Type ℓ} → (J → A ⊎ B) → J ⊎ C → A ⊎ B ⊎ C
split_first f (inl j) = elim (f j) [ inl a ↦ inl a | inr b ↦ inr (inl b) ]
split_first f (inr c) = inr (inr c)

join_first {ℓ} : {A B C J : Type ℓ} → (A ⊎ B → J) → A ⊎ B ⊎ C → J ⊎ C
join_first f (inl a) = inl (f (inl a))
join_first f (inr (inl b)) = inl (f (inr b))
join_first f (inr (inr c)) = inr c

-- What a pass leaves: ranges and a pair that cover what was covered, and fewer ranges if one was
-- joined.
pub record Passed (rs : List WeeklyRange) (new : ℕ × ℕ) (t : ℕ)
    (r : List WeeklyRange × (ℕ × ℕ) × Bool) : Type 0 where
  pub ranges : All IsRange r.0
  pub ordered : r.1.0 ≤ r.1.1
  pub shorter : length r.0 ≤ length rs
  pub fewer : r.2 ≡ false ⊎ length r.0 < length rs
  pub to : On r.1 t ⊎ Covered r.0 t → On new t ⊎ Covered rs t
  pub from : On new t ⊎ Covered rs t → On r.1 t ⊎ Covered r.0 t

pass_kept :
    (r : WeeklyRange) (rs : List WeeklyRange) (new : ℕ × ℕ)
    → try_shifts (to_pair r) new ≡ none
    → pass (r ∷ rs) new ≡ (r ∷ (pass rs new).0, (pass rs new).1, (pass rs new).2)
unfolding pass
pass_kept r rs new e = rw (e, pass) refl

pass_joined :
    (r : WeeklyRange) (rs : List WeeklyRange) (new j : ℕ × ℕ)
    → try_shifts (to_pair r) new ≡ some j
    → pass (r ∷ rs) new ≡ ((pass rs j).0, (pass rs j).1, true)
unfolding pass
pass_joined r rs new j e = rw (e, pass) refl

pub pass-Passed :
    (rs : List WeeklyRange) (new : ℕ × ℕ) (t : ℕ)
    → All IsRange rs
    → new.0 ≤ new.1
    → t < week_minutes
    → Passed rs new t (pass rs new)
pass-Passed [] new t h o lt =
    unfold pass in
    record {
      ranges = tt;
      ordered = o;
      shorter = omega arith;
      fewer = inl refl;
      to = λ c. c;
      from = λ c. c;
    }
pass-Passed (r ∷ rs) new t (hr, h) o lt = elim (Option-cases (try_shifts (to_pair r) new)) [
  | inl e ↦
      let rest = pass-Passed rs new t h o lt in
      subst (Passed (r ∷ rs) new t) (sym (pass_kept r rs new e)) (record {
        ranges = (hr, rest.ranges);
        ordered = rest.ordered;
        shorter = omega (arith, rest.shorter);
        fewer = elim (rest.fewer) [ inl f ↦ inl f | inr f ↦ inr (omega (arith, f)) ];
        to = keep_middle rest.to;
        from = keep_middle rest.from;
      })
  | inr (j, e) ↦
      let join = try_shifts-Joined (to_pair r) new j t (to_pair-IsPair r hr).0 o lt e in
      let rest = pass-Passed rs j t h join.ordered lt in
      subst (Passed (r ∷ rs) new t) (sym (pass_joined r rs new j e)) (record {
        ranges = rest.ranges;
        ordered = rest.ordered;
        shorter = omega (arith, rest.shorter);
        fewer = inr (omega (arith, rest.shorter));
        to = λ c. split_first join.to (rest.to c);
        from = λ c. rest.from (join_first join.from c);
      })
]

true-not-false : true ≢ false
true-not-false e = cc

-- A pass that joins nothing leaves everything as it was.
pass_unchanged :
    (rs : List WeeklyRange) (new : ℕ × ℕ) → (pass rs new).2 ≡ false → pass rs new ≡ (rs, new, false)
unfolding pass
pass_unchanged [] new e = refl
pass_unchanged (r ∷ rs) new e = elim (Option-cases (try_shifts (to_pair r) new)) [
  | inl f ↦
      let same = pass_unchanged rs new (sym (ap (λ q. q.2) (pass_kept r rs new f)) ∙ e) in
      pass_kept r rs new f ∙ ap (λ q. (r ∷ q.0, q.1, q.2)) same
  | inr (j, f) ↦ absurd (true-not-false (sym (ap (λ q. q.2) (pass_joined r rs new j f)) ∙ e))
]

loop_again :
    (fuel : ℕ) (rs : List WeeklyRange) (new : ℕ × ℕ)
    → (pass rs new).2 ≡ true
    → merge_loop (suc fuel) rs new ≡ merge_loop fuel (pass rs new).0 (pass rs new).1
unfolding merge_loop
loop_again fuel rs new e = rw (e, merge_loop) refl

loop_ends :
    (fuel : ℕ) (rs : List WeeklyRange) (new : ℕ × ℕ)
    → (pass rs new).2 ≡ false
    → merge_loop (suc fuel) rs new ≡ (rs, new)
unfolding merge_loop
loop_ends fuel rs new e =
    subst (λ q. q ≡ (rs, new)) (sym (rw (e, merge_loop) refl))
      (ap (λ q. (q.0, q.1)) (pass_unchanged rs new e))

-- What the loop leaves: ranges and a pair that cover what was covered, and that another pass would
-- leave as they are.
pub record Settled (rs : List WeeklyRange) (new : ℕ × ℕ) (t : ℕ) (r : List WeeklyRange × (ℕ × ℕ))
    : Type 0 where
  pub ranges : All IsRange r.0
  pub ordered : r.1.0 ≤ r.1.1
  pub settled : (pass r.0 r.1).2 ≡ false
  pub to : On r.1 t ⊎ Covered r.0 t → On new t ⊎ Covered rs t
  pub from : On new t ⊎ Covered rs t → On r.1 t ⊎ Covered r.0 t

pub merge_loop-Settled :
    (fuel : ℕ) (rs : List WeeklyRange) (new : ℕ × ℕ) (t : ℕ)
    → length rs < fuel
    → All IsRange rs
    → new.0 ≤ new.1
    → t < week_minutes
    → Settled rs new t (merge_loop fuel rs new)
merge_loop-Settled zero rs new t enough h o lt = absurd (omega (arith, enough))
merge_loop-Settled (suc fuel) rs new t enough h o lt =
    let once = pass-Passed rs new t h o lt in
    elim (Bool-cases (pass rs new).2) [
      | inl e ↦
          let less : length (pass rs new).0 < length rs = elim (once.fewer) [
            | inl f ↦ absurd (true-not-false (sym e ∙ f))
            | inr l ↦ l
          ] in
          let rest =
            merge_loop-Settled fuel (pass rs new).0 (pass rs new).1 t (omega (arith, less, enough))
              once.ranges once.ordered lt in
          subst (Settled rs new t) (sym (loop_again fuel rs new e)) (record {
            ranges = rest.ranges;
            ordered = rest.ordered;
            settled = rest.settled;
            to = λ c. once.to (rest.to c);
            from = λ c. rest.from (once.from c);
          })
      | inr e ↦
          subst (Settled rs new t) (sym (loop_ends fuel rs new e))
            (record { ranges = h; ordered = o; settled = e; to = λ c. c; from = λ c. c })
    ]
