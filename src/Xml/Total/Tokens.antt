-- ===== src/Xml/Total/Tokens.antt =====
-- Each token of the parser takes chars off the text, and none runs out of fuel.
use jaytwo_library.Prelude.{
  ℕ, ◌+◌, ◌-◌, ◌≤◌, ◌<◌, Bool, Bool-cases, true, false, not, ◌&&◌, [], ◌∷◌, Bytes, codes, ◌==◌, ◌≡◌,
  refl, inl, inr, arith, length, length-drop, drop, is_empty, if◌then◌else◌, leb,
}
use jaytwo_library.Text.{equal, drop_while}
use jaytwo_library.Text.Find.{equal-length}
use jaytwo_library.Xml.{
  XmlError, Result, thrown, returned, ◌>>=◌, ◌>>◌, throw_if, out_of_fuel, value_unquoted,
  value_open, cdata_open, instruction_open, comment_open,
}
use jaytwo_library.Xml.Text.{
  skip_whitespace, starts_with, expect, read_until, scan_to, decode_entities, is_name_char,
}
use jaytwo_library.Xml.Lexer.{
  parse_raw_name, quoted_value, parse_attribute_value, enclosed, parse_cdata,
  skip_processing_instruction, skip_comment,
}

abbrev pub is_fuel : XmlError → Bool
is_fuel out_of_fuel = true
is_fuel error = false

-- An error of the source, or a value with the property.
abbrev pub Yields {ℓ} : {A : Type ℓ} → (A → Type 0) → Result A → Type 0
Yields P (thrown error) = is_fuel error ≡ false
Yields P (returned a) = P a

pub bind-Yields {ℓ κ} :
    {A : Type ℓ} {B : Type κ}
    → (P : A → Type 0) (Q : B → Type 0) (r : Result A) (f : A → Result B) → Yields P r
    → ((a : A) → P a → Yields Q (f a))
    → Yields Q (r >>= f)
bind-Yields P Q (thrown error) f h k = h
bind-Yields P Q (returned a) f h k = k a h

pub weaken-Yields {ℓ} :
    {A : Type ℓ}
    → (P Q : A → Type 0) (r : Result A) → Yields P r
    → ((a : A) → P a → Q a)
    → Yields Q r
weaken-Yields P Q (thrown error) h k = h
weaken-Yields P Q (returned a) h k = k a h

pub then-Yields {ℓ} :
    {B : Type ℓ}
    → (Q : B → Type 0) (b : Bool) (error : XmlError) (r : Result B) → is_fuel error ≡ false
    → (b ≡ false → Yields Q r)
    → Yields Q (throw_if b error >> r)
then-Yields Q true error r h k = h
then-Yields Q false error r h k = k refl

pub if-Yields {ℓ} :
    {A : Type ℓ}
    → (Q : A → Type 0) (b : Bool) (r r' : Result A) → (b ≡ true → Yields Q r)
    → (b ≡ false → Yields Q r')
    → Yields Q (if b then r else r')
if-Yields Q true r r' h k = h refl
if-Yields Q false r r' h k = k refl

pub skip_whitespace_short : (s : Bytes) → length (skip_whitespace s) ≤ length s
unfolding skip_whitespace drop_while
skip_whitespace_short [] = omega arith
skip_whitespace_short (c ∷ s) = let rest = skip_whitespace_short s in ground arith

pub read_until_short : (stop : ℕ → Bool) (s : Bytes) → length (read_until stop s).1 ≤ length s
unfolding read_until
read_until_short stop [] = omega arith
read_until_short stop (c ∷ s) = let rest = read_until_short stop s in ground arith

scan_to_short : (tok : Bytes) (margin : ℕ) (s : Bytes) → length (scan_to tok margin s).1 ≤ length s
unfolding scan_to
scan_to_short tok margin [] = omega arith
scan_to_short tok margin (c ∷ s) = let rest = scan_to_short tok margin s in ground arith

pub expect-Yields : (tok s : Bytes) → Yields (λ r. length r + length tok ≤ length s) (expect tok s)
unfolding expect starts_with
expect-Yields tok s = elim (Bool-cases (equal tok s)) [
  | inl e ↦ rw e (omega (arith, equal-length tok s e, length-drop (length tok) s))
  | inr e ↦ rw e refl
]

-- The rest of a token's text is shorter than the text.
abbrev pub Shorter {ℓ} : {A : Type ℓ} → Bytes → A × Bytes → Type 0
Shorter s q = length q.1 < length s

pub parse_raw_name-Yields : (s : Bytes) → Yields (Shorter s) (parse_raw_name s)
unfolding parse_raw_name
parse_raw_name-Yields [] = refl
parse_raw_name-Yields (c ∷ s) =
    let short = read_until_short (λ d. not (is_name_char d)) s in
    elim (Bool-cases (is_name_char c)) [ inl e ↦ rw e (omega (arith, short)) | inr e ↦ rw e refl ]

quoted_value-Yields : (s : Bytes) → Yields (Shorter s) (quoted_value s)
quoted_value-Yields [] = refl
quoted_value-Yields (quote ∷ s) =
    let short = read_until_short (λ c. c == quote) s in
    either (not (quote == 34) && not (quote == 39)) (read_until (λ c. c == quote) s) short
  where
    either :
        (unquoted : Bool) (q : Bytes × Bytes)
        → length q.1 ≤ length s
        → Yields (Shorter (quote ∷ s)) (
            if unquoted
            then thrown value_unquoted
            else if is_empty q.1
            then thrown value_open
            else returned (decode_entities q.0, drop 1 q.1))
    either true q h = refl
    either false (value, []) h = refl
    either false (value, c ∷ rest) h = omega (arith, h)

pub parse_attribute_value-Yields : (s : Bytes) → Yields (Shorter s) (parse_attribute_value s)
unfolding parse_attribute_value
parse_attribute_value-Yields s =
    let here = skip_whitespace s in
    let short = skip_whitespace_short s in
    weaken-Yields (Shorter here) (Shorter s) (quoted_value here) (quoted_value-Yields here)
      (λ q h. omega (arith, h, short))

enclosed-Yields :
    (close s : Bytes) (error : XmlError)
    → is_fuel error ≡ false
    → Yields (λ q. length q.1 ≤ length s) (enclosed close error s)
enclosed-Yields close s error h =
    let margin = length close - 1 in
    let rest = (scan_to close margin s).1 in
    let short = scan_to_short close margin s in
    elim (Bool-cases (leb (length rest) margin)) [
      | inl e ↦ rw e h
      | inr e ↦ rw e (
          bind-Yields (λ r. length r + length close ≤ length rest) (λ q. length q.1 ≤ length s)
            (expect close rest) (λ left. returned ((scan_to close margin s).0, left))
            (expect-Yields close rest) (λ left h. omega (arith, h, short)))
    ]

marked-Yields :
    (start close s : Bytes) (error : XmlError)
    → 1 ≤ length start
    → is_fuel error ≡ false
    → Yields (Shorter s) (expect start s >>= enclosed close error)
marked-Yields start close s error lt e =
    bind-Yields (λ r. length r + length start ≤ length s) (Shorter s) (expect start s)
      (enclosed close error) (expect-Yields start s)
      (λ r h.
        weaken-Yields (λ q. length q.1 ≤ length r) (Shorter s) (enclosed close error r)
          (enclosed-Yields close r error e) (λ q k. omega (arith, h, k, lt)))

pub parse_cdata-Yields : (s : Bytes) → Yields (Shorter s) (parse_cdata s)
unfolding parse_cdata
parse_cdata-Yields s =
    marked-Yields (codes "<![CDATA[") (codes "]]>") s cdata_open (omega arith) refl

skipped-Yields :
    (s : Bytes) (r : Result (Bytes × Bytes))
    → Yields (Shorter s) r
    → Yields (λ left. length left < length s) (r >>= λ q. returned q.1)
skipped-Yields s r h =
    bind-Yields (Shorter s) (λ left. length left < length s) r (λ q. returned q.1) h (λ q k. k)

pub skip_comment-Yields : (s : Bytes) → Yields (λ r. length r < length s) (skip_comment s)
unfolding skip_comment
skip_comment-Yields s =
    skipped-Yields s (expect (codes "<!--") s >>= enclosed (codes "-->") comment_open)
      (marked-Yields (codes "<!--") (codes "-->") s comment_open (omega arith) refl)

pub skip_processing_instruction-Yields :
    (s : Bytes) → Yields (λ r. length r < length s) (skip_processing_instruction s)
unfolding skip_processing_instruction
skip_processing_instruction-Yields s =
    skipped-Yields s (expect (codes "<?") s >>= enclosed (codes "?>") instruction_open)
      (marked-Yields (codes "<?") (codes "?>") s instruction_open (omega arith) refl)
