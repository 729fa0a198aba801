-- ===== src/Schedule/Days.antt =====
-- The loop over the days between the start and the end of a range.
use jaytwo_library.Prelude.{
  ℕ, ◌+◌, ◌-◌, ◌%◌, ◌<◌, zero, suc, ◌*◌, ◌∷◌, ◌==◌, ◌≡◌, refl, ap, ◌∙◌, arith, inl, inr, Bool-cases,
}
use jaytwo_library.Schedule.{days_between}

days_between-suc :
    (fuel cur ed : ℕ)
    → cur < 7
    → ed < 7
    → (ed + 7 - cur) % 7 < fuel
    → days_between (suc fuel) cur ed ≡ days_between fuel cur ed
unfolding days_between
days_between-suc zero cur ed hc he h = absurd (omega (arith, h))
days_between-suc (suc fuel) cur ed hc he h = elim (Bool-cases (cur == ed)) [
  | inl e ↦ rw e refl
  | inr e ↦ rw e (
      ap (λ t. record { day = cur; start = 0; end = 24 * 60 - 1 } ∷ t)
        (days_between-suc fuel ((cur + 1) % 7) ed (omega arith) he (ground (arith, h, e, hc, he))))
]

-- Seven rounds are enough: between two days of the week, more fuel changes nothing.
pub days_between_enough :
    (extra cur ed : ℕ) → cur < 7 → ed < 7 → days_between (extra + 7) cur ed ≡ days_between 7 cur ed
days_between_enough zero cur ed hc he = refl
days_between_enough (suc extra) cur ed hc he =
    ap (λ n. days_between n cur ed) (omega arith)
    ∙ days_between-suc (extra + 7) cur ed hc he (omega arith)
    ∙ days_between_enough extra cur ed hc he
