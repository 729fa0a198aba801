-- ===== src/Xml/Escape.antt =====
-- What is escaped is decoded again, and can be read up to the char that ends it.
use mathlib.Core.List.{reverse-append, reverse-cons}
use jaytwo_library.Prelude.{
  ℕ, ◌≤◌, zero, suc, Bool, true, false, [], ◌∷◌, ◌++◌, none, Bytes, length, reverse, ◌==◌, ◌≡◌,
  refl, sym, ap, ap₂, subst, ◌∙◌, arith, inl, inr, Bool-cases, All, All-append, append_assoc,
  append-nil, length-append,
}
use jaytwo_library.Text.{is_space}
use jaytwo_library.StringBasic.Trim
use jaytwo_library.StringBasic.Trim.Laws.{IsBlank, StartsDark, IsTrimmed, trim_core}
use jaytwo_library.Xml.Text.{trim_spaces, read_until, entity_at, decode_loop, decode_entities}
use jaytwo_library.Xml.Serializer.{text_char, attr_char, escape_text, escape_attr}

-- A char that is no `&` is taken as it is.
entity_at_other : (c : ℕ) (s : Bytes) → (c == b'&') ≡ false → entity_at (c ∷ s) ≡ none
unfolding entity_at
entity_at_other c s e = let f : (b'&' == c) ≡ false = ground arith in rw f refl

decode_other :
    (fuel c : ℕ) (s : Bytes)
    → (c == b'&') ≡ false
    → decode_loop (suc fuel) (c ∷ s) ≡ c ∷ decode_loop fuel s
unfolding decode_loop
decode_other fuel c s e = rw (entity_at_other c s e, decode_loop) refl

-- One char is decoded to what it was.
abbrev Decodes : (ℕ → Bytes) → ℕ → Type 0
Decodes char c =
    (fuel : ℕ) (s : Bytes) → decode_loop (suc fuel) (char c ++ s) ≡ c ∷ decode_loop fuel s

text_char-Decodes : (c : ℕ) → Decodes text_char c
unfolding decode_loop
text_char-Decodes c = elim (Bool-cases (c == b'&')) [
  | inl e ↦ subst (Decodes text_char) {x = b'&'} {y = c} (sym (ground arith)) (λ fuel s. refl)
  | inr e ↦ elim (Bool-cases (c == b'<')) [
    | inl f ↦ subst (Decodes text_char) {x = b'<'} {y = c} (sym (ground arith)) (λ fuel s. refl)
    | inr f ↦ elim (Bool-cases (c == b'>')) [
      | inl g ↦ subst (Decodes text_char) {x = b'>'} {y = c} (sym (ground arith)) (λ fuel s. refl)
      | inr g ↦ λ fuel s. rw (e, f, g) (decode_other fuel c s e)
    ]
  ]
]

attr_char-Decodes : (c : ℕ) → Decodes attr_char c
unfolding decode_loop
attr_char-Decodes c = elim (Bool-cases (c == 34)) [
  | inl e ↦ subst (Decodes attr_char) {x = 34} {y = c} (sym (ground arith)) (λ fuel s. refl)
  | inr e ↦ elim (Bool-cases (c == 39)) [
    | inl f ↦ subst (Decodes attr_char) {x = 39} {y = c} (sym (ground arith)) (λ fuel s. refl)
    | inr f ↦ λ fuel s. rw (e, f) (text_char-Decodes c fuel s)
  ]
]

-- As many rounds as chars that come out are enough.
decode_loop-escape_text :
    (fuel : ℕ) (s : Bytes) → length s ≤ fuel → decode_loop fuel (escape_text s) ≡ s
unfolding escape_text decode_loop
decode_loop-escape_text zero [] h = refl
decode_loop-escape_text (suc fuel) [] h = refl
decode_loop-escape_text zero (c ∷ s) h = absurd (omega (arith, h))
decode_loop-escape_text (suc fuel) (c ∷ s) h =
    text_char-Decodes c fuel (escape_text s)
    ∙ ap (◌∷◌ c) (decode_loop-escape_text fuel s (omega (arith, h)))

decode_loop-escape_attr :
    (fuel : ℕ) (s : Bytes) → length s ≤ fuel → decode_loop fuel (escape_attr s) ≡ s
unfolding escape_attr decode_loop
decode_loop-escape_attr zero [] h = refl
decode_loop-escape_attr (suc fuel) [] h = refl
decode_loop-escape_attr zero (c ∷ s) h = absurd (omega (arith, h))
decode_loop-escape_attr (suc fuel) (c ∷ s) h =
    attr_char-Decodes c fuel (escape_attr s)
    ∙ ap (◌∷◌ c) (decode_loop-escape_attr fuel s (omega (arith, h)))

pub text_char_long : (c : ℕ) → 1 ≤ length (text_char c)
text_char_long c = ground arith

attr_char_long : (c : ℕ) → 1 ≤ length (attr_char c)
attr_char_long c = ground arith

pub length-escape_text : (s : Bytes) → length s ≤ length (escape_text s)
unfolding escape_text
length-escape_text [] = omega arith
length-escape_text (c ∷ s) =
    omega
      (arith, length-append (text_char c) (escape_text s), text_char_long c, length-escape_text s)

length-escape_attr : (s : Bytes) → length s ≤ length (escape_attr s)
unfolding escape_attr
length-escape_attr [] = omega arith
length-escape_attr (c ∷ s) =
    omega
      (arith, length-append (attr_char c) (escape_attr s), attr_char_long c, length-escape_attr s)

-- Escaping and decoding gives the text back, whatever its bytes: for texts and for attribute values.
pub decode_entities-escape :
    (s : Bytes) → (decode_entities (escape_text s) ≡ s) × (decode_entities (escape_attr s) ≡ s)
unfolding decode_entities
decode_entities-escape s = (
  decode_loop-escape_text (length (escape_text s)) s (length-escape_text s),
  decode_loop-escape_attr (length (escape_attr s)) s (length-escape_attr s),
)

-- Up to the first char that stops.
pub read_until_stop :
    (stop : ℕ → Bool) (a : Bytes) (d : ℕ) (r : Bytes)
    → All (λ c. stop c ≡ false) a
    → stop d ≡ true
    → read_until stop (a ++ d ∷ r) ≡ (a, d ∷ r)
unfolding read_until
read_until_stop stop [] d r h e = rw e refl
read_until_stop stop (c ∷ a) d r (hc, h) e =
    let rest = read_until_stop stop a d r h e in rw (hc, rest) refl

text_char-All : (c : ℕ) → All (λ d. (d == b'<') ≡ false) (text_char c)
text_char-All c = ground arith

attr_char-All : (c : ℕ) → All (λ d. (d == 34) ≡ false) (attr_char c)
attr_char-All c = ground arith

-- Escaped text has no `<`, and an escaped value no `"`.
pub escape_text-All : (s : Bytes) → All (λ d. (d == b'<') ≡ false) (escape_text s)
unfolding escape_text
escape_text-All [] = tt
escape_text-All (c ∷ s) =
    All-append (λ d. (d == b'<') ≡ false) (text_char c) (escape_text s) (text_char-All c)
      (escape_text-All s)

pub escape_attr-All : (s : Bytes) → All (λ d. (d == 34) ≡ false) (escape_attr s)
unfolding escape_attr
escape_attr-All [] = tt
escape_attr-All (c ∷ s) =
    All-append (λ d. (d == 34) ≡ false) (attr_char c) (escape_attr s) (attr_char-All c)
      (escape_attr-All s)

-- The escaped text from its end.
escape_back : Bytes → Bytes
escape_back [] = []
escape_back (c ∷ s) = reverse (text_char c) ++ escape_back s

escape_back-append : (s t : Bytes) → escape_back (s ++ t) ≡ escape_back s ++ escape_back t
unfolding escape_back
escape_back-append [] t = refl
escape_back-append (c ∷ s) t =
    ap (◌++◌ (reverse (text_char c))) (escape_back-append s t)
    ∙ sym (append_assoc (reverse (text_char c)) (escape_back s) (escape_back t))

reverse-escape_text : (s : Bytes) → reverse (escape_text s) ≡ escape_back (reverse s)
unfolding escape_text escape_back
reverse-escape_text [] = refl
reverse-escape_text (c ∷ s) =
    reverse-append (text_char c) (escape_text s)
    ∙ ap₂ ◌++◌ (reverse-escape_text s) (sym (append-nil (reverse (text_char c))))
    ∙ sym (escape_back-append (reverse s) (c ∷ []))
    ∙ ap escape_back (sym (reverse-cons c s))

dark_front : (c : ℕ) (s : Bytes) → is_space c ≡ false → StartsDark (text_char c ++ s)
unfolding is_space
dark_front c s h = ground (arith, h)

dark_back : (c : ℕ) (s : Bytes) → is_space c ≡ false → StartsDark (reverse (text_char c) ++ s)
unfolding is_space
dark_back c s h = ground (arith, h)

escape_text-StartsDark : (s : Bytes) → StartsDark s → StartsDark (escape_text s)
unfolding escape_text
escape_text-StartsDark [] h = tt
escape_text-StartsDark (c ∷ s) h = dark_front c (escape_text s) h

escape_back-StartsDark : (s : Bytes) → StartsDark s → StartsDark (escape_back s)
unfolding escape_back
escape_back-StartsDark [] h = tt
escape_back-StartsDark (c ∷ s) h = dark_back c (escape_back s) h

escape_text-IsTrimmed : (s : Bytes) → IsTrimmed s → IsTrimmed (escape_text s)
escape_text-IsTrimmed s h = record {
  front = escape_text-StartsDark s h.front;
  back = subst StartsDark (sym (reverse-escape_text s)) (escape_back-StartsDark (reverse s) h.back);
}

-- The blanks behind an escaped text are cut, and blanks alone are nothing.
pub trim_spaces-escape_text :
    (s b : Bytes) → IsTrimmed s → IsBlank b → trim_spaces (escape_text s ++ b) ≡ escape_text s
unfolding trim_spaces Trim.trim Trim.ltrim Trim.rtrim
trim_spaces-escape_text s b h hb = trim_core [] (escape_text s) b tt hb (escape_text-IsTrimmed s h)

pub trim_spaces_blank : (b : Bytes) → IsBlank b → trim_spaces b ≡ []
unfolding trim_spaces Trim.trim Trim.ltrim Trim.rtrim
trim_spaces_blank b hb = trim_core [] [] b tt hb (record { front = tt; back = tt })
