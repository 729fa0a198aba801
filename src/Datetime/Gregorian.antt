-- ===== src/Datetime/Gregorian.antt =====
-- The days of the calendar, as a table of the months and the rule of the leap years, and that `is_leap`
-- and `valid_ymd` of j2_library/src/datetime/datetime_util.cpp decide them.
use jaytwo_library.Prelude.{
  ℕ, ◌-◌, ◌*◌, ◌%◌, ◌/◌, ◌≤◌, suc, zero, true, ◌&&◌, List, [], ◌∷◌, get_or, ◌==◌, ◌≡◌, ◌⊎◌, inl,
  inr, refl, arith, Bool-cases,
}
use jaytwo_library.Datetime.{is_leap, mdays, valid_ymd}

abbrev pub Multiple : ℕ → ℕ → Type 0
Multiple n y = (k : ℕ) × (y ≡ n * k)

-- Every fourth year, but of the centuries every fourth one only.
abbrev pub IsLeapYear : ℕ → Type 0
IsLeapYear y = (Multiple 4 y × (¬ Multiple 100 y)) ⊎ Multiple 400 y

-- January to December.
abbrev pub month_days : List ℕ
month_days = 31 ∷ 28 ∷ 31 ∷ 30 ∷ 31 ∷ 30 ∷ 31 ∷ 31 ∷ 30 ∷ 31 ∷ 30 ∷ 31 ∷ []

pub record IsDay (y m d : ℕ) : Type 0 where
  pub month_from : 1 ≤ m
  pub month_to : m ≤ 12
  pub day_from : 1 ≤ d
  pub day_to : (d ≤ get_or month_days (m - 1) 0) ⊎ ((m ≡ 2) × (d ≡ 29) × IsLeapYear y)

is_leap-IsLeapYear : (y : ℕ) → is_leap y ≡ true → IsLeapYear y
unfolding is_leap
is_leap-IsLeapYear y h = elim (Bool-cases (y % 400 == 0)) [
  | inl e ↦ inr (y / 400, ground (arith, e))
  | inr e ↦ inl ((y / 4, ground (arith, e, h)), λ q. absurd (ground (arith, e, h, q.1)))
]

mdays_lem : (m : ℕ) → 1 ≤ m → m ≤ 12 → mdays m ≡ get_or month_days (m - 1) 0
mdays_lem zero lo hi = absurd (omega (arith, lo))
mdays_lem (suc zero) lo hi = refl
mdays_lem (suc (suc zero)) lo hi = refl
mdays_lem (suc (suc (suc zero))) lo hi = refl
mdays_lem (suc (suc (suc (suc zero)))) lo hi = refl
mdays_lem (suc (suc (suc (suc (suc zero))))) lo hi = refl
mdays_lem (suc (suc (suc (suc (suc (suc zero)))))) lo hi = refl
mdays_lem (suc (suc (suc (suc (suc (suc (suc zero))))))) lo hi = refl
mdays_lem (suc (suc (suc (suc (suc (suc (suc (suc zero)))))))) lo hi = refl
mdays_lem (suc (suc (suc (suc (suc (suc (suc (suc (suc zero))))))))) lo hi = refl
mdays_lem (suc (suc (suc (suc (suc (suc (suc (suc (suc (suc zero)))))))))) lo hi = refl
mdays_lem (suc (suc (suc (suc (suc (suc (suc (suc (suc (suc (suc zero))))))))))) lo hi = refl
mdays_lem (suc (suc (suc (suc (suc (suc (suc (suc (suc (suc (suc (suc zero)))))))))))) lo hi = refl
mdays_lem (suc (suc (suc (suc (suc (suc (suc (suc (suc (suc (suc (suc (suc m))))))))))))) lo hi =
    absurd (omega (arith, hi))

pub valid_ymd-IsDay : (y m d : ℕ) → valid_ymd y m d ≡ true → IsDay y m d
unfolding valid_ymd
valid_ymd-IsDay y m d h =
    let lo : 1 ≤ m = ground (arith, h) in
    let hi : m ≤ 12 = ground (arith, h) in
    record {
      month_from = lo;
      month_to = hi;
      day_from = ground (arith, h);
      day_to = elim (Bool-cases ((m == 2) && (d == 29))) [
        | inl e ↦
            inr (ground (arith, e), ground (arith, e), is_leap-IsLeapYear y (ground (arith, e, h)))
        | inr e ↦ inl (ground (arith, e, h, mdays_lem m lo hi))
      ];
    }
