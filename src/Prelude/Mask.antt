-- ===== src/Prelude/Mask.antt =====
-- A mask of ones takes the remainder by a power of two.
use Prim.Native.Nat.{
  ℕ, zero, suc, ◌+◌, ◌*◌, ◌/◌, ◌%◌, ◌≤◌, ◌<◌, min, max, digits, bit_and, bit_and-bitwise, bit_or,
  bit_or-bitwise,
}
use mathlib.Core.Path.{◌≡◌, refl, ap, sym, ◌∙◌}
use native.Mathlib.Nat.{
  mul_assoc, zero-mod, mod-lt, mod-eq_of_lt, div-add-mod, mul-add-mod_self_right,
}
use native.Mathlib.Omega.{arith}

-- The mask of `k` ones, and the power of two above it.
abbrev pub ones : ℕ → ℕ
ones zero = 0
ones (suc k) = ones k * 2 + 1

abbrev pub power : ℕ → ℕ
power zero = 1
power (suc k) = power k * 2

power_pos : (k : ℕ) → 0 < power k
power_pos zero = omega arith
power_pos (suc k) = omega (arith, power_pos k)

mod_double : (a p : ℕ) → 0 < p → a % (p * 2) ≡ ((a / 2) % p) * 2 + a % 2
mod_double a p h =
    let q = a / 2 / p in
    let low = ((a / 2) % p) * 2 + a % 2 in
    let whole : a ≡ q * (p * 2) + low = omega (arith, div-add-mod (a / 2) p) in
    let small : low < p * 2 = omega (arith, mod-lt (a / 2) h) in
    ap (λ t. t % (p * 2)) whole ∙ mul-add-mod_self_right q (p * 2) low ∙ mod-eq_of_lt small

-- The digits of a number under a mask, with more digits to go than it has.
digits-ones : (n k a : ℕ) → a ≤ n → digits (λ _. zero) min n a (ones k) ≡ a % power k
digits-ones zero k zero h = sym (zero-mod (power k))
digits-ones zero k (suc a) h = absurd (omega arith)
digits-ones (suc n) k zero h = sym (zero-mod (power k))
digits-ones (suc n) zero (suc a) h = omega (arith, digits-ones n zero (suc a / 2) (omega arith))
digits-ones (suc n) (suc k) (suc a) h =
    let half : (ones k * 2 + 1) / 2 ≡ ones k = omega arith in
    let odd : (ones k * 2 + 1) % 2 ≡ 1 = omega arith in
    rw (half, odd)
      (omega (
        arith,
        digits-ones n k (suc a / 2) (omega arith),
        mod_double (suc a) (power k) (power_pos k),
      ))

pub bit_and-ones : (a k : ℕ) → bit_and a (ones k) ≡ a % power k
bit_and-ones a k = bit_and-bitwise a (ones k) ∙ digits-ones a k a (omega arith)

-- The digits of a number over those of one that has none there.
digits-max_zero : (n a : ℕ) → a ≤ n → digits (λ b. b) max n a 0 ≡ a
digits-max_zero zero a h = omega (arith, h)
digits-max_zero (suc n) zero h = omega arith
digits-max_zero (suc n) (suc a) h = omega (arith, digits-max_zero n (suc a / 2) (omega (arith, h)))

digits-max :
    (n k x a y : ℕ) → a ≤ n → a ≡ x * power k → y < power k → digits (λ b. b) max n a y ≡ a + y
digits-max n zero x a zero h e low = digits-max_zero n a h ∙ omega arith
digits-max n zero x a (suc y) h e low = absurd (omega (arith, low))
digits-max zero (suc k) x zero y h e low = omega arith
digits-max zero (suc k) x (suc a) y h e low = absurd (omega (arith, h))
digits-max (suc n) (suc k) x zero y h e low = omega arith
digits-max (suc n) (suc k) x (suc a) y h e low =
    let whole : suc a ≡ x * power k * 2 = e ∙ sym (mul_assoc x (power k) 2) in
    let half : suc a / 2 ≡ x * power k = omega (arith, whole) in
    let rest = digits-max n k x (suc a / 2) (y / 2) (omega (arith, h)) half (omega (arith, low)) in
    ground (arith, rest, whole)

-- Disjoint digits are added.
pub bit_or-add : (x k y : ℕ) → y < power k → bit_or (x * power k) y ≡ x * power k + y
bit_or-add x k y low =
    bit_or-bitwise (x * power k) y
    ∙ digits-max (x * power k) k x (x * power k) y (omega arith) refl low
