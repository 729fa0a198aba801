-- ===== src/Datetime/Loops.antt =====
-- The formatter and the parser go through a format in the same steps.
use jaytwo_library.Prelude.{
  ℕ, ◌<◌, zero, suc, Bool, true, false, [], ◌∷◌, ◌++◌, some, none, Bytes, codes, drop,
  if◌then◌else◌, ◌==◌, ◌≡◌, ◌≢◌, inl, inr, refl, sym, ap, ◌∙◌, arith, append_assoc, append-nil,
  Option-cases, Bool-cases,
}
use jaytwo_library.Datetime.{
  Tm, Field, yyyy, mo, dd, hh, mi, ss, sss, width_of, value_of, token_at, match_token, read_ndigits,
  append_ndigits, buffer_loop, format_loop,
}
use jaytwo_library.Datetime.Digits.{read_two, read_four}
use jaytwo_library.Datetime.Strict.{Reading, set_field, ok, parse_token, parse_loop}

-- Numbers that fit the digits of their tokens.
pub record Fits (tm : Tm) : Type 0 where
  pub year : tm.year < 10000
  pub month : tm.month < 100
  pub day : tm.day < 100
  pub hour : tm.hour < 100
  pub minute : tm.minute < 100
  pub second : tm.second < 100

-- The format has no milliseconds, which the formatter does not write.
unfoldable pub without_ms : ℕ → Bytes → Bool
unfolding token_at match_token
without_ms zero fmt = true
without_ms (suc fuel) [] = true
without_ms (suc fuel) (c ∷ fmt) = elim (token_at (c ∷ fmt)) [
  | some f ↦ without_ms fuel (drop (width_of f) (c ∷ fmt))
  | none ↦
      let rest = without_ms fuel fmt in if match_token (c ∷ fmt) (codes "SSS") then false else rest
]

-- What the tokens of the format give of a date and a time.
unfoldable pub reading_after : ℕ → Bytes → Tm → Reading → Reading
unfolding token_at
reading_after zero fmt tm r = r
reading_after (suc fuel) [] tm r = r
reading_after (suc fuel) (c ∷ fmt) tm r = elim (token_at (c ∷ fmt)) [
  | some f ↦ reading_after fuel (drop (width_of f) (c ∷ fmt)) tm (set_field r f (value_of tm f))
  | none ↦ reading_after fuel fmt tm r
]

-- The formatter writes behind what is there.
format_loop-append :
    (fuel : ℕ) (fmt : Bytes) (tm : Tm) (out : Bytes)
    → format_loop fuel fmt tm out ≡ out ++ format_loop fuel fmt tm []
unfolding format_loop append_ndigits
format_loop-append zero fmt tm out = sym (append-nil out)
format_loop-append (suc fuel) [] tm out = sym (append-nil out)
format_loop-append (suc fuel) (c ∷ fmt) tm out = elim (Option-cases (token_at (c ∷ fmt))) [
  | inl e ↦
      let here = format_loop-append fuel fmt tm (out ++ c ∷ []) in
      let there = format_loop-append fuel fmt tm (c ∷ []) in
      rw (e, format_loop)
        (here ∙ append_assoc out (c ∷ []) (format_loop fuel fmt tm []) ∙ ap (◌++◌ out) (sym there))
  | inr (f, e) ↦
      let digits = buffer_loop (width_of f) (value_of tm f) [] in
      let next = drop (width_of f) (c ∷ fmt) in
      let here = format_loop-append fuel next tm (out ++ digits) in
      let there = format_loop-append fuel next tm digits in
      rw (e, format_loop)
        (here ∙ append_assoc out digits (format_loop fuel next tm []) ∙ ap (◌++◌ out) (sym there))
]

token_not_ms : (fmt : Bytes) → token_at fmt ≢ some sss
unfolding token_at
token_not_ms fmt e = ground arith

field_read :
    (tm : Tm) (f : Field) (s : Bytes)
    → Fits tm
    → f ≢ sss
    → read_ndigits (buffer_loop (width_of f) (value_of tm f) [] ++ s) (width_of f)
      ≡ some (value_of tm f, s)
field_read tm yyyy s h n = read_four tm.year s h.year
field_read tm mo s h n = read_two tm.month s h.month
field_read tm dd s h n = read_two tm.day s h.day
field_read tm hh s h n = read_two tm.hour s h.hour
field_read tm mi s h n = read_two tm.minute s h.minute
field_read tm ss s h n = read_two tm.second s h.second
field_read tm sss s h n = absurd (n refl)

format_field :
    (fuel c : ℕ) (fmt : Bytes) (tm : Tm) (f : Field) (s : Bytes)
    → token_at (c ∷ fmt) ≡ some f
    → format_loop (suc fuel) (c ∷ fmt) tm [] ++ s
      ≡ buffer_loop (width_of f) (value_of tm f) []
        ++ (format_loop fuel (drop (width_of f) (c ∷ fmt)) tm [] ++ s)
unfolding format_loop append_ndigits
format_field fuel c fmt tm f s e =
    let digits = buffer_loop (width_of f) (value_of tm f) [] in
    let next = drop (width_of f) (c ∷ fmt) in
    rw (e, format_loop)
      (ap (λ t. t ++ s) (format_loop-append fuel next tm digits)
        ∙ append_assoc digits (format_loop fuel next tm []) s)

format_literal :
    (fuel c : ℕ) (fmt : Bytes) (tm : Tm) (s : Bytes)
    → token_at (c ∷ fmt) ≡ none
    → format_loop (suc fuel) (c ∷ fmt) tm [] ++ s ≡ c ∷ (format_loop fuel fmt tm [] ++ s)
unfolding format_loop
format_literal fuel c fmt tm s e =
    rw (e, format_loop) (ap (λ t. t ++ s) (format_loop-append fuel fmt tm (c ∷ [])))

parse_field :
    (fuel c v : ℕ) (fmt s rest : Bytes) (r : Reading) (f : Field)
    → token_at (c ∷ fmt) ≡ some f
    → read_ndigits s (width_of f) ≡ some (v, rest)
    → parse_loop (suc fuel) (c ∷ fmt) s r
      ≡ parse_loop fuel (drop (width_of f) (c ∷ fmt)) rest (set_field r f v)
unfolding parse_loop parse_token
parse_field fuel c v fmt s rest r f e g = rw (e, g, parse_loop) refl

same_char : (c : ℕ) → (c == c) ≡ true
same_char c = ground arith

parse_literal :
    (fuel c : ℕ) (fmt s : Bytes) (r : Reading)
    → token_at (c ∷ fmt) ≡ none
    → match_token (c ∷ fmt) (codes "SSS") ≡ false
    → parse_loop (suc fuel) (c ∷ fmt) (c ∷ s) r ≡ parse_loop fuel fmt s r
unfolding parse_loop parse_token
parse_literal fuel c fmt s r e f = rw (e, f, same_char c, parse_loop) refl

without_ms-literal :
    (fuel c : ℕ) (fmt : Bytes)
    → token_at (c ∷ fmt) ≡ none
    → without_ms (suc fuel) (c ∷ fmt) ≡ true
    → (match_token (c ∷ fmt) (codes "SSS") ≡ false) × (without_ms fuel fmt ≡ true)
unfolding without_ms
without_ms-literal fuel c fmt e h = elim (Bool-cases (match_token (c ∷ fmt) (codes "SSS"))) [
  | inl f ↦ absurd (false-not-true (sym (rw (e, f, without_ms) refl) ∙ h))
  | inr f ↦ (f, sym (rw (e, f, without_ms) refl) ∙ h)
]
  where
    false-not-true : false ≢ true
    false-not-true q = cc

without_ms-field :
    (fuel c : ℕ) (fmt : Bytes) (f : Field)
    → token_at (c ∷ fmt) ≡ some f
    → without_ms (suc fuel) (c ∷ fmt) ≡ without_ms fuel (drop (width_of f) (c ∷ fmt))
unfolding without_ms
without_ms-field fuel c fmt f e = rw (e, without_ms) refl

reading_after-field :
    (fuel c : ℕ) (fmt : Bytes) (tm : Tm) (r : Reading) (f : Field)
    → token_at (c ∷ fmt) ≡ some f
    → reading_after (suc fuel) (c ∷ fmt) tm r
      ≡ reading_after fuel (drop (width_of f) (c ∷ fmt)) tm (set_field r f (value_of tm f))
unfolding reading_after
reading_after-field fuel c fmt tm r f e = rw (e, reading_after) refl

reading_after-literal :
    (fuel c : ℕ) (fmt : Bytes) (tm : Tm) (r : Reading)
    → token_at (c ∷ fmt) ≡ none
    → reading_after (suc fuel) (c ∷ fmt) tm r ≡ reading_after fuel fmt tm r
unfolding reading_after
reading_after-literal fuel c fmt tm r e = rw (e, reading_after) refl

-- The parser's loop reads what the formatter's loop wrote.
pub parse_loop-format_loop :
    (fuel : ℕ) (fmt : Bytes) (tm : Tm) (s : Bytes) (r : Reading)
    → Fits tm
    → without_ms fuel fmt ≡ true
    → parse_loop fuel fmt (format_loop fuel fmt tm [] ++ s) r ≡ ok (reading_after fuel fmt tm r, s)
unfolding parse_loop format_loop reading_after
parse_loop-format_loop zero fmt tm s r h n = refl
parse_loop-format_loop (suc fuel) [] tm s r h n = refl
parse_loop-format_loop (suc fuel) (c ∷ fmt) tm s r h n = elim (Option-cases (token_at (c ∷ fmt))) [
  | inl e ↦
      let (none_here, none_later) = without_ms-literal fuel c fmt e n in
      ap (λ t. parse_loop (suc fuel) (c ∷ fmt) t r) (format_literal fuel c fmt tm s e)
      ∙ parse_literal fuel c fmt (format_loop fuel fmt tm [] ++ s) r e none_here
      ∙ parse_loop-format_loop fuel fmt tm s r h none_later
      ∙ ap (λ q. ok (q, s)) (sym (reading_after-literal fuel c fmt tm r e))
  | inr (f, e) ↦
      let next = drop (width_of f) (c ∷ fmt) in
      let later = format_loop fuel next tm [] ++ s in
      let not_ms : f ≢ sss = λ q. token_not_ms (c ∷ fmt) (e ∙ ap some q) in
      ap (λ t. parse_loop (suc fuel) (c ∷ fmt) t r) (format_field fuel c fmt tm f s e)
      ∙ parse_field fuel c (value_of tm f) fmt
          (buffer_loop (width_of f) (value_of tm f) [] ++ later) later r f e
          (field_read tm f later h not_ms)
      ∙ parse_loop-format_loop fuel next tm s (set_field r f (value_of tm f)) h
          (sym (without_ms-field fuel c fmt f e) ∙ n)
      ∙ ap (λ q. ok (q, s)) (sym (reading_after-field fuel c fmt tm r f e))
]
