-- ===== src/Datetime/Iso/Parts.antt =====
-- The parts of an ISO 8601 text, in j2_library/src/datetime/datetime_string.cpp: date, time, fraction
-- and offset from UTC. A parser is given the text from `p` on; where it fails, `p` stays.
use jaytwo_library.Prelude.{
  ℕ, ◌+◌, ◌-◌, ◌*◌, zero, suc, Bool, false, not, ◌&&◌, ◌||◌, [], ◌∷◌, Option, none, some, Bytes,
  if◌then◌else◌, ltb, ◌==◌,
}
use jaytwo_library.Text.{is_digit}
use jaytwo_library.Datetime.{read_ndigits}
use jaytwo_library.Datetime.Strict.{ℤ, pos, sub_ℕ}

infixl 5 ◌>>=◌
abbrev pub ◌>>=◌ {ℓ κ} :
    {Value : Type ℓ} {Next : Type κ} → Option Value → (Value → Option Next) → Option Next
none >>= next = none
some value >>= next = next value

-- The char that must stand here.
abbrev pub expect : ℕ → Bytes → Option Bytes
expect c [] = none
expect c (d ∷ s) = if c == d then some s else none

-- A char that may stand here.
abbrev pub next_is : ℕ → Bytes → Bool
next_is c [] = false
next_is c (d ∷ s) = c == d

-- Year, month and day.
unfoldable pub parse_date_extended : Bytes → Option ((ℕ × ℕ × ℕ) × Bytes)
unfolding read_ndigits
parse_date_extended s = do
  (y, s1) ← read_ndigits s 4
  s2 ← expect b'-' s1
  (m, s3) ← read_ndigits s2 2
  s4 ← expect b'-' s3
  (d, s5) ← read_ndigits s4 2
  some ((y, m, d), s5)

-- The seconds, which are -1 where they are not given: `none` here.
abbrev pub parse_seconds : Bytes → Option (Option ℕ × Bytes)
parse_seconds [] = some (none, [])
parse_seconds (c ∷ s) =
    if b':' == c then (read_ndigits s 2 >>= λ q. some (some q.0, q.1)) else some (none, c ∷ s)

unfoldable pub parse_time_extended : Bytes → Option ((ℕ × ℕ × Option ℕ) × Bytes)
unfolding read_ndigits
parse_time_extended s = do
  (h, s1) ← read_ndigits s 2
  s2 ← expect b':' s1
  (m, s3) ← read_ndigits s2 2
  (sec, s4) ← parse_seconds s3
  some ((h, m, sec), s4)

-- The digits of the fraction, nine at most: their count, the first three as a number, and the rest.
unfoldable pub fraction_loop : ℕ → Bytes → ℕ → ℕ → ℕ × ℕ × Bytes
unfolding is_digit
fraction_loop zero s digits ms = (digits, ms, s)
fraction_loop (suc n) [] digits ms = (digits, ms, [])
fraction_loop (suc n) (c ∷ s) digits ms =
    let rest = fraction_loop n s (digits + 1) (if ltb digits 3 then ms * 10 + (c - b'0') else ms) in
    if is_digit c then rest else (digits, ms, c ∷ s)

-- `while (digits < 3)`, with the digits that are missing.
unfoldable pub pad_loop : ℕ → ℕ → ℕ
pad_loop zero ms = ms
pad_loop (suc n) ms = pad_loop n (ms * 10)

unfoldable pub parse_fraction_ms : Bytes → Option (ℕ × Bytes)
unfolding fraction_loop pad_loop
parse_fraction_ms [] = none
parse_fraction_ms (c ∷ s) =
    let (digits, ms, rest) = fraction_loop 9 s 0 0 in
    if not (c == b'.') || digits == 0 then none else some (pad_loop (3 - digits) ms, rest)

-- The minutes of an offset.
unfoldable pub offset_minutes : Bytes → Option (ℕ × Bytes)
unfolding read_ndigits
offset_minutes [] = some (0, [])
offset_minutes (c ∷ []) = if c == b':' then none else some (0, c ∷ [])
offset_minutes (c ∷ d ∷ s) =
    if c == b':'
    then read_ndigits (d ∷ s) 2
    else if is_digit c && is_digit d
    then read_ndigits (c ∷ d ∷ s) 2
    else some (0, c ∷ d ∷ s)

unfoldable pub parse_tz_offset : Bytes → Option (ℤ × Bytes)
unfolding read_ndigits offset_minutes
parse_tz_offset [] = none
parse_tz_offset (c ∷ s) =
    if c == b'Z' || c == b'z'
    then some (pos 0, s)
    else if not (c == b'+') && not (c == b'-')
    then none
    else read_ndigits s 2 >>= λ h. offset_minutes h.1 >>= λ m.
        let sec = h.0 * 3600 + m.0 * 60 in some ((if c == b'-' then sub_ℕ 0 sec else pos sec), m.1)
