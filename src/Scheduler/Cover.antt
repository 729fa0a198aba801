-- ===== src/Scheduler/Cover.antt =====
-- The minutes of the week that a range covers, and how the steps of `add_range` change them.
use jaytwo_library.Prelude.{
  ℕ, ◌+◌, ◌-◌, ◌*◌, ◌<◌, ◌≤◌, min, max, ◌&&◌, none, some, leb, ◌≡◌, ◌≢◌, ◌⊎◌, ◌↔◌, inl, inr, refl,
  sym, ap, subst, ◌∙◌, arith, Bool-cases, Option-cases,
}
use jaytwo_library.Schedule.{TimeHm, WeeklyRange}
use jaytwo_library.Scheduler.{week_minutes, to_pair, try_shift, try_shifts}

-- A weekday and times of the day as the source documents them.
pub record IsTime (t : TimeHm) : Type 0 where
  pub hours : t.hour < 24
  pub minutes : t.minute < 60

pub record IsRange (r : WeeklyRange) : Type 0 where
  pub first : r.start_day < 7
  pub last : r.end_day < 7
  pub from : IsTime r.start_time
  pub until : IsTime r.end_time

-- A pair covers minute `t` of the week if one of its repetitions lies in it.
abbrev pub On : ℕ × ℕ → ℕ → Type 0
On (s, e) t = (k : ℕ) × (s ≤ t + k * week_minutes) × (t + k * week_minutes ≤ e)

pub to_pair-IsPair :
    (r : WeeklyRange) → IsRange r → ((to_pair r).0 ≤ (to_pair r).1) × ((to_pair r).0 < week_minutes)
unfolding to_pair
to_pair-IsPair r h =
    let t = h.from in
    let u = h.until in
    (
      ground (arith, h.first, h.last, t.hours, t.minutes, u.hours, u.minutes),
      ground (arith, h.first, t.hours, t.minutes),
    )

-- A shift by whole weeks covers the same minutes.
pub On-shift :
    (s e n t : ℕ)
    → t < week_minutes
    → On (s + n * week_minutes, e + n * week_minutes) t ↔ On (s, e) t
On-shift s e n t h = (
  (λ c. (c.0 - n, omega (arith, c.1, c.2, h), omega (arith, c.1, c.2, h))),
  (λ c. (c.0 + n, omega (arith, c.1), omega (arith, c.2))),
)

On-join :
    (s e es ee t : ℕ)
    → s ≤ e
    → es ≤ ee
    → es ≤ e + 1
    → s ≤ ee + 1
    → On (min s es, max e ee) t ↔ (On (s, e) t ⊎ On (es, ee) t)
On-join s e es ee t o o' near near' = (to, from)
  where
    to : On (min s es, max e ee) t → On (s, e) t ⊎ On (es, ee) t
    to (k, lo, hi) =
        elim (Bool-cases (leb s (t + k * week_minutes) && leb (t + k * week_minutes) e)) [
          | inl c ↦ inl (k, ground (arith, c), ground (arith, c))
          | inr c ↦ inr (
            k,
            ground (arith, c, lo, hi, o, o', near, near'),
            ground (arith, c, lo, hi, o, o', near, near'),
          )
        ]

    from : On (s, e) t ⊎ On (es, ee) t → On (min s es, max e ee) t
    from (inl (k, lo, hi)) = (k, omega (arith, lo), omega (arith, hi))
    from (inr (k, lo, hi)) = (k, omega (arith, lo), omega (arith, hi))

none-not-some : {p : ℕ × ℕ} → none ≢ some p
none-not-some e = cc

pair-same : {p q : ℕ × ℕ} → some p ≡ some q → p ≡ q
pair-same {p} e = ap (λ o. elim o [ some r ↦ r | none ↦ p ]) e

-- What one shift, and the loop over the shifts, do to the minutes that are covered.
try_shift-On :
    (p new joined : ℕ × ℕ) (n t : ℕ)
    → p.0 ≤ p.1
    → new.0 ≤ new.1
    → t < week_minutes
    → try_shift p new (n * week_minutes) ≡ some joined
    → (joined.0 ≤ joined.1) × (On joined t ↔ (On new t ⊎ On p t))
try_shift-On p new joined n t op on h e =
    let w = n * week_minutes in
    elim (Bool-cases (leb (p.0 + w) (new.1 + 1) && leb new.0 (p.1 + w + 1))) [
      | inr f ↦ absurd (none-not-some (sym (rw f refl) ∙ e))
      | inl f ↦
          let same : (min new.0 (p.0 + w), max new.1 (p.1 + w)) ≡ joined =
            pair-same (sym (rw f refl) ∙ e) in
          let union =
            On-join new.0 new.1 (p.0 + w) (p.1 + w) t on (omega (arith, op)) (ground (arith, f))
              (ground (arith, f)) in
          let shifted = On-shift p.0 p.1 n t h in
          (
            subst (λ q. q.0 ≤ q.1) same (omega (arith, on)),
            (
              λ c. elim (union.0 (subst (λ q. On q t) (sym same) c)) [
                | inl a ↦ inl a
                | inr b ↦ inr (shifted.0 b)
              ],
              λ c.
                  subst (λ q. On q t) same
                    (union.1 (elim c [ inl a ↦ inl a | inr b ↦ inr (shifted.1 b) ])),
            ),
          )
    ]

-- What a join gives: a pair in order, which covers what the two cover.
pub record Joined (p new joined : ℕ × ℕ) (t : ℕ) : Type 0 where
  pub ordered : joined.0 ≤ joined.1
  pub to : On joined t → On new t ⊎ On p t
  pub from : On new t ⊎ On p t → On joined t

by_one_shift :
    (p new joined : ℕ × ℕ) (n t : ℕ)
    → p.0 ≤ p.1
    → new.0 ≤ new.1
    → t < week_minutes
    → try_shift p new (n * week_minutes) ≡ some joined
    → Joined p new joined t
by_one_shift p new joined n t op on h e =
    let (o, both) = try_shift-On p new joined n t op on h e in
    record { ordered = o; to = both.0; from = both.1 }

first_shift : (p new j : ℕ × ℕ) → try_shift p new 0 ≡ some j → try_shifts p new ≡ some j
unfolding try_shifts
first_shift p new j f = rw (f, try_shifts) refl

second_shift :
    (p new j : ℕ × ℕ)
    → try_shift p new 0 ≡ none
    → try_shift p new week_minutes ≡ some j
    → try_shifts p new ≡ some j
unfolding try_shifts
second_shift p new j f g = rw (f, g, try_shifts) refl

third_shift :
    (p new : ℕ × ℕ)
    → try_shift p new 0 ≡ none
    → try_shift p new week_minutes ≡ none
    → try_shifts p new ≡ try_shift p new (2 * week_minutes)
unfolding try_shifts
third_shift p new f g = rw (f, g, try_shifts) refl

pub try_shifts-Joined :
    (p new joined : ℕ × ℕ) (t : ℕ)
    → p.0 ≤ p.1
    → new.0 ≤ new.1
    → t < week_minutes
    → try_shifts p new ≡ some joined
    → Joined p new joined t
try_shifts-Joined p new joined t op on h e = elim (Option-cases (try_shift p new 0)) [
  | inr (j, f) ↦ by_one_shift p new joined 0 t op on h (f ∙ sym (first_shift p new j f) ∙ e)
  | inl f ↦ elim (Option-cases (try_shift p new week_minutes)) [
    | inr (j, g) ↦ by_one_shift p new joined 1 t op on h (g ∙ sym (second_shift p new j f g) ∙ e)
    | inl g ↦ by_one_shift p new joined 2 t op on h (sym (third_shift p new f g) ∙ e)
  ]
]
