-- ===== src/Datetime/Tokens.antt =====
-- The tokens of a format and the digits of a text, as the parser takes them.
use jaytwo_library.Prelude.{
  ℕ, ◌+◌, ◌-◌, ◌*◌, ◌<◌, zero, suc, Bool, true, false, [], ◌∷◌, ◌++◌, Option, some, none, Bytes,
  codes, length, drop, ltb, ◌≡◌, ◌≢◌, inl, inr, refl, sym, ap, subst, ◌∙◌, arith, Bool-cases,
  Option-cases, append_assoc, append-nil, if◌then◌else◌, ◌⊎◌,
}
use jaytwo_library.Text.{is_digit}
use jaytwo_library.Datetime.{
  Field, yyyy, mo, dd, hh, mi, ss, sss, width_of, digits_loop, read_ndigits, match_token, token_at,
}
use jaytwo_library.Datetime.Strict.{ok, parse_token, literal}
use jaytwo_library.Datetime.Readings.{Decimal, no_digits, digit, spelling}

digit_value : (c : ℕ) → is_digit c ≡ true → (c ≡ b'0' + (c - b'0')) × (c - b'0' < 10)
unfolding is_digit
digit_value c h = (ground (arith, h), ground (arith, h))

none_not_some {ℓ} : {A : Type ℓ} (a : A) → ◌≢◌ {A = Option A} none (some a)
none_not_some a q = cc

some_pair :
    (v w : ℕ) (s t : Bytes)
    → ◌≡◌ {A = Option (ℕ × Bytes)} (some (v, s)) (some (w, t))
    → (v ≡ w) × (s ≡ t)
some_pair v w s t h = (cc, cc)

-- The digits that the loop takes off the text.
abbrev pub Taken : ℕ → Bytes → Bytes → Bytes → ℕ → Type 0
Taken n s before rest w =
    (digits : Bytes) × (s ≡ digits ++ rest) × (length digits ≡ n) × Decimal (before ++ digits) w

digits_loop_sound :
    (n : ℕ) (s before rest : Bytes) (v w : ℕ)
    → Decimal before v
    → digits_loop n s v ≡ some (w, rest)
    → Taken n s before rest w
unfolding digits_loop
digits_loop_sound zero s before rest v w d h =
    let (number, left) = some_pair v w s rest h in
    (
      [],
      left,
      refl,
      subst (λ x. Decimal x w) (sym (append-nil before)) (subst (Decimal before) number d),
    )
digits_loop_sound (suc n) [] before rest v w d h = cc
digits_loop_sound (suc n) (c ∷ s) before rest v w d h = elim (Bool-cases (is_digit c)) [
  | inl e ↦
      let (same, less) = digit_value c e in
      let one =
        subst (λ x. Decimal (before ++ x ∷ []) (v * 10 + (c - b'0'))) (sym same) (digit d less) in
      let (digits, whole, size, all) =
        digits_loop_sound n s (before ++ c ∷ []) rest (v * 10 + (c - b'0')) w one
          (sym (rw (e, digits_loop) refl) ∙ h) in
      (
        c ∷ digits,
        ap (◌∷◌ c) whole,
        omega (arith, size),
        subst (λ x. Decimal x w) (append_assoc before (c ∷ []) digits) all,
      )
  | inr e ↦ absurd (none_not_some (w, rest) (sym (rw (e, digits_loop) refl) ∙ h))
]

pub read_ndigits_sound :
    (s rest : Bytes) (n w : ℕ) → read_ndigits s n ≡ some (w, rest) → Taken n s [] rest w
unfolding read_ndigits
read_ndigits_sound s rest n w h = elim (Bool-cases (ltb (length s) n)) [
  | inl e ↦ absurd (none_not_some (w, rest) (sym (rw e refl) ∙ h))
  | inr e ↦ digits_loop_sound n s [] rest 0 w no_digits (sym (rw e refl) ∙ h)
]

match_sound : (fmt tok : Bytes) → match_token fmt tok ≡ true → fmt ≡ tok ++ drop (length tok) fmt
unfolding match_token
match_sound fmt [] h = refl
match_sound [] (t ∷ tok) h = cc
match_sound (c ∷ fmt) (t ∷ tok) h = ground (arith, match_sound fmt tok)

choose :
    (t : Bool) (f g : Field) (later : Option Field)
    → (if t then some g else later) ≡ some f
    → ((t ≡ true) × (g ≡ f)) ⊎ (later ≡ some f)
choose true f g later h = inl (refl, cc)
choose false f g later h = inr h

-- A token of the format is spelled there.
abbrev Spelled : Bytes → Field → Type 0
Spelled fmt f = match_token fmt (spelling f) ≡ true

token_at_match : (fmt : Bytes) (f : Field) → token_at fmt ≡ some f → Spelled fmt f
unfolding token_at
token_at_match fmt f h = elim (choose (match_token fmt (codes "YYYY")) f yyyy _ h) [
  | inl (e, q) ↦ subst (Spelled fmt) q e
  | inr h ↦ elim (choose (match_token fmt (codes "MM")) f mo _ h) [
    | inl (e, q) ↦ subst (Spelled fmt) q e
    | inr h ↦ elim (choose (match_token fmt (codes "DD")) f dd _ h) [
      | inl (e, q) ↦ subst (Spelled fmt) q e
      | inr h ↦ elim (choose (match_token fmt (codes "hh")) f hh _ h) [
        | inl (e, q) ↦ subst (Spelled fmt) q e
        | inr h ↦ elim (choose (match_token fmt (codes "mm")) f mi _ h) [
          | inl (e, q) ↦ subst (Spelled fmt) q e
          | inr h ↦ elim (choose (match_token fmt (codes "ss")) f ss none h) [
            | inl (e, q) ↦ subst (Spelled fmt) q e
            | inr h ↦ absurd (none_not_some f h)
          ]
        ]
      ]
    ]
  ]
]

token_match : (fmt : Bytes) (f : Field) → parse_token fmt ≡ some f → Spelled fmt f
unfolding parse_token
token_match fmt f h = elim (Option-cases (token_at fmt)) [
  | inl e ↦
      elim (choose (match_token fmt (codes "SSS")) f sss none
        (sym (rw (e, parse_token) refl) ∙ h)) [
          | inl (t, q) ↦ subst (Spelled fmt) q t
          | inr k ↦ absurd (none_not_some f k)
        ]
  | inr (g, e) ↦ token_at_match fmt f (e ∙ sym (rw (e, parse_token) refl) ∙ h)
]

pub width-spelling : (f : Field) → width_of f ≡ length (spelling f)
width-spelling yyyy = refl
width-spelling mo = refl
width-spelling dd = refl
width-spelling hh = refl
width-spelling mi = refl
width-spelling ss = refl
width-spelling sss = refl

pub token_spelled :
    (fmt : Bytes) (f : Field) → parse_token fmt ≡ some f → fmt ≡ spelling f ++ drop (width_of f) fmt
token_spelled fmt f h =
    match_sound fmt (spelling f) (token_match fmt f h)
    ∙ ap (λ n. spelling f ++ drop n fmt) (sym (width-spelling f))

-- A spelled token is a token.
pub spelled_token : (f : Field) (behind : Bytes) → parse_token (spelling f ++ behind) ≢ none
unfolding parse_token token_at match_token
spelled_token yyyy behind h = cc
spelled_token mo behind h = cc
spelled_token dd behind h = cc
spelled_token hh behind h = cc
spelled_token mi behind h = cc
spelled_token ss behind h = cc
spelled_token sss behind h = cc

pub literal_sound : (c : ℕ) (s rest : Bytes) → literal c s ≡ ok rest → s ≡ c ∷ rest
literal_sound c [] rest h = cc
literal_sound c (d ∷ s) rest h = ground (arith, h)
