-- ===== src/Datetime/Digits.antt =====
-- The digits that are written are read back.
use jaytwo_library.Prelude.{
  ℕ, ◌+◌, ◌-◌, ◌*◌, ◌/◌, ◌%◌, ◌<◌, suc, true, false, ◌&&◌, ◌≤◌, [], ◌∷◌, ◌++◌, some, Bytes, length,
  ltb, leb, ◌≡◌, refl, ap, ◌∙◌, arith,
}
use jaytwo_library.Text.{is_digit}
use jaytwo_library.Datetime.{digits_loop, read_ndigits, buffer_loop}

digit_read :
    (n d v : ℕ) (s : Bytes)
    → d < 10
    → digits_loop (suc n) ((b'0' + d) ∷ s) v ≡ digits_loop n s (v * 10 + d)
unfolding digits_loop is_digit
digit_read n d v s h =
    let fair : (leb b'0' (b'0' + d) && leb (b'0' + d) b'9') ≡ true = ground (arith, h) in
    let less : b'0' + d - b'0' ≡ d = omega arith in rw (fair, less) refl

digits_end : (u v : ℕ) (s : Bytes) → u ≡ v → digits_loop 0 s u ≡ some (v, s)
unfolding digits_loop
digits_end u v s e = ap (λ x. some (x, s)) e

read_ndigits-digits_loop : (s : Bytes) (n : ℕ) → n ≤ length s → read_ndigits s n ≡ digits_loop n s 0
unfolding read_ndigits
read_ndigits-digits_loop s n h =
    let fair : ltb (length s) n ≡ false = ground (arith, h) in rw fair refl

pub read_two :
    (v : ℕ) (s : Bytes) → v < 100 → read_ndigits (buffer_loop 2 v [] ++ s) 2 ≡ some (v, s)
unfolding buffer_loop
read_two v s h =
    read_ndigits-digits_loop (buffer_loop 2 v [] ++ s) 2 (omega arith)
    ∙ digit_read 1 (v / 10 % 10) 0 ((b'0' + v % 10) ∷ s) (omega arith)
    ∙ digit_read 0 (v % 10) (0 * 10 + v / 10 % 10) s (omega arith)
    ∙ digits_end (((0 * 10 + v / 10 % 10) * 10) + v % 10) v s (omega (arith, h))

pub read_four :
    (v : ℕ) (s : Bytes) → v < 10000 → read_ndigits (buffer_loop 4 v [] ++ s) 4 ≡ some (v, s)
unfolding buffer_loop
read_four v s h =
    let a = v / 10 / 10 / 10 % 10 in
    let b = v / 10 / 10 % 10 in
    let c = v / 10 % 10 in
    let d = v % 10 in
    read_ndigits-digits_loop (buffer_loop 4 v [] ++ s) 4 (omega arith)
    ∙ digit_read 3 a 0 ((b'0' + b) ∷ (b'0' + c) ∷ (b'0' + d) ∷ s) (omega arith)
    ∙ digit_read 2 b (0 * 10 + a) ((b'0' + c) ∷ (b'0' + d) ∷ s) (omega arith)
    ∙ digit_read 1 c ((0 * 10 + a) * 10 + b) ((b'0' + d) ∷ s) (omega arith)
    ∙ digit_read 0 d (((0 * 10 + a) * 10 + b) * 10 + c) s (omega arith)
    ∙ digits_end ((((0 * 10 + a) * 10 + b) * 10 + c) * 10 + d) v s (omega (arith, h))
