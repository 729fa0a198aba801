-- ===== src/Ini/Escape.antt =====
-- Quotes and escapes of j2_library/src/ini/ini_parser.cpp: what `save` writes for a string, and
-- what `load` reads it back as.
use jaytwo_library.Prelude.{
  ℕ, ◌-◌, suc, Bool, true, false, ◌&&◌, [], ◌∷◌, ◌++◌, Bytes, length, get_or, if◌then◌else◌, leb,
  ◌==◌, ◌≡◌, refl, sym, ap, ap₂, ==_iff, ◌∙◌, arith, inl, inr, Bool-cases, length-append,
  take-append_left,
}
use jaytwo_library.Text.{substr}

abbrev pub backslash : ℕ
backslash = 92

abbrev pub single : ℕ
single = 39

abbrev pub double : ℕ
double = 34

-- The `switch` of `decode_escapes_for_string`: an unknown escape stays.
unfoldable pub unescape : ℕ → Bytes
unescape nx =
    if nx == b't'
    then 9 ∷ []
    else if nx == b'n'
    then 10 ∷ []
    else if nx == b'r'
    then 13 ∷ []
    else if nx == backslash
    then backslash ∷ []
    else if nx == single
    then single ∷ []
    else if nx == double
    then double ∷ []
    else backslash ∷ nx ∷ []

unfoldable pub decode_escapes_for_string : Bytes → Bytes
unfolding unescape
decode_escapes_for_string [] = []
decode_escapes_for_string (c ∷ []) = c ∷ []
decode_escapes_for_string (c ∷ nx ∷ s) = elim (c == backslash) [
  | true ↦ unescape nx ++ decode_escapes_for_string s
  | false ↦ c ∷ decode_escapes_for_string (nx ∷ s)
]

-- The `switch` of `encode_escapes_for_string`.
unfoldable pub escape : ℕ → Bytes
escape c =
    if c == 9
    then backslash ∷ b't' ∷ []
    else if c == 10
    then backslash ∷ b'n' ∷ []
    else if c == 13
    then backslash ∷ b'r' ∷ []
    else if c == backslash
    then backslash ∷ backslash ∷ []
    else if c == single
    then backslash ∷ single ∷ []
    else c ∷ []

unfoldable pub encode_escapes_for_string : Bytes → Bytes
unfolding escape
encode_escapes_for_string [] = []
encode_escapes_for_string (c ∷ s) = escape c ++ encode_escapes_for_string s

-- The loop of `unquote_and_unescape` over a literal string: only `\"` is read as an escape.
unfoldable pub literal_loop : Bytes → Bytes
literal_loop [] = []
literal_loop (c ∷ []) = c ∷ []
literal_loop (c ∷ d ∷ s) = elim (c == backslash && d == double) [
  | true ↦ double ∷ literal_loop s
  | false ↦ c ∷ literal_loop (d ∷ s)
]

-- `v.size() >= 2 && v.front() == quote_ch && v.back() == quote_ch`.
unfoldable pub is_quoted : Bytes → ℕ → Bool
is_quoted v quote_ch =
    leb 2 (length v) && (get_or v 0 0 == quote_ch && get_or v (length v - 1) 0 == quote_ch)

unfoldable pub unquote_and_unescape : Bytes → ℕ → Bytes
unfolding is_quoted decode_escapes_for_string literal_loop
unquote_and_unescape v quote_ch =
    if is_quoted v quote_ch
    then (let inner = substr v 1 (length v - 2) in
        if quote_ch == single then decode_escapes_for_string inner else literal_loop inner)
    else v

unfoldable pub quote_single_and_escape_raw : Bytes → Bytes
unfolding encode_escapes_for_string
quote_single_and_escape_raw v = single ∷ (encode_escapes_for_string v ++ single ∷ [])

-- The loop of `quote_double_and_escape_literal`.
unfoldable pub double_loop : Bytes → Bytes
double_loop [] = []
double_loop (c ∷ s) = if c == double then backslash ∷ double ∷ double_loop s else c ∷ double_loop s

unfoldable pub quote_double_and_escape_literal : Bytes → Bytes
unfolding double_loop
quote_double_and_escape_literal v = double ∷ (double_loop v ++ double ∷ [])

-- Reading back.
get_or-snoc : (v : Bytes) (q : ℕ) → get_or (v ++ q ∷ []) (length v) 0 ≡ q
get_or-snoc [] q = refl
get_or-snoc (c ∷ v) q = get_or-snoc v q

snoc-is_quoted : (v : Bytes) (q : ℕ) → is_quoted (q ∷ (v ++ q ∷ [])) q ≡ true
unfolding is_quoted
snoc-is_quoted v q =
    let w = v ++ q ∷ [] in
    let at : suc (length w) - 1 ≡ suc (length v) = omega (arith, length-append v (q ∷ [])) in
    let long : leb 2 (suc (length w)) ≡ true = ground (arith, length-append v (q ∷ [])) in
    let self : (q == q) ≡ true = ground arith in rw (long, self, at, get_or-snoc v q, self) refl

inner_lem : (v : Bytes) (q : ℕ) → substr (q ∷ (v ++ q ∷ [])) 1 (length (q ∷ (v ++ q ∷ [])) - 2) ≡ v
inner_lem v q =
    let size : suc (length (v ++ q ∷ [])) - 2 ≡ length v =
      omega (arith, length-append v (q ∷ [])) in
    rw size (take-append_left v (q ∷ []))

plain_char :
    (c : ℕ) (s : Bytes)
    → (c == backslash) ≡ false
    → decode_escapes_for_string (c ∷ s) ≡ c ∷ decode_escapes_for_string s
unfolding decode_escapes_for_string
plain_char c [] h = refl
plain_char c (d ∷ s) h = rw (h, decode_escapes_for_string) refl

restored :
    (k c : ℕ) (s : Bytes)
    → (c == k) ≡ true
    → k ∷ decode_escapes_for_string s ≡ c ∷ decode_escapes_for_string s
restored k c s e = ap (λ t. t ∷ decode_escapes_for_string s) (ground (arith, e))

decode-escape :
    (c : ℕ) (s : Bytes)
    → decode_escapes_for_string (escape c ++ s) ≡ c ∷ decode_escapes_for_string s
unfolding escape decode_escapes_for_string unescape
decode-escape c s = elim (Bool-cases (c == 9)) [
  | inl e ↦ rw e (restored 9 c s e)
  | inr e ↦ elim (Bool-cases (c == 10)) [
    | inl e1 ↦ rw (e, e1) (restored 10 c s e1)
    | inr e1 ↦ elim (Bool-cases (c == 13)) [
      | inl e2 ↦ rw (e, e1, e2) (restored 13 c s e2)
      | inr e2 ↦ elim (Bool-cases (c == backslash)) [
        | inl e3 ↦ rw (e, e1, e2, e3) (restored backslash c s e3)
        | inr e3 ↦ elim (Bool-cases (c == single)) [
          | inl e4 ↦ rw (e, e1, e2, e3, e4) (restored single c s e4)
          | inr e4 ↦ rw (e, e1, e2, e3, e4) (plain_char c s e3)
        ]
      ]
    ]
  ]
]

pub decode-encode : (v : Bytes) → decode_escapes_for_string (encode_escapes_for_string v) ≡ v
unfolding encode_escapes_for_string
decode-encode [] = unfold decode_escapes_for_string in refl
decode-encode (c ∷ s) = decode-escape c (encode_escapes_for_string s) ∙ ap (◌∷◌ c) (decode-encode s)

-- A raw string that `save` writes in single quotes reads back as it was, whatever its bytes.
pub unquote-quote_single :
    (v : Bytes) → unquote_and_unescape (quote_single_and_escape_raw v) single ≡ v
unfolding unquote_and_unescape quote_single_and_escape_raw
unquote-quote_single v =
    let e = encode_escapes_for_string v in
    rw (snoc-is_quoted e single, inner_lem e single) (decode-encode v)

plain_literal :
    (c d : ℕ) (s : Bytes)
    → (d == double) ≡ false
    → literal_loop (c ∷ d ∷ s) ≡ c ∷ literal_loop (d ∷ s)
unfolding literal_loop
plain_literal c d s h = ground (arith, h)

-- No text that `double_loop` writes begins with a quote.
literal-cons :
    (c : ℕ) (v : Bytes) → literal_loop (c ∷ double_loop v) ≡ c ∷ literal_loop (double_loop v)
unfolding double_loop
literal-cons c [] = unfold literal_loop in refl
literal-cons c (d ∷ v) = elim (Bool-cases (d == double)) [
  | inl e ↦ rw e (plain_literal c backslash (double ∷ double_loop v) refl)
  | inr e ↦ rw e (plain_literal c d (double_loop v) e)
]

escaped_literal : (s : Bytes) → literal_loop (backslash ∷ double ∷ s) ≡ double ∷ literal_loop s
escaped_literal s = unfold literal_loop in refl

literal-double : (v : Bytes) → literal_loop (double_loop v) ≡ v
unfolding double_loop
literal-double [] = unfold literal_loop in refl
literal-double (c ∷ v) = elim (Bool-cases (c == double)) [
  | inl e ↦ rw e (
      escaped_literal (double_loop v)
      ∙ ap₂ (λ d t. d ∷ t) (sym ((==_iff c double).0 e)) (literal-double v))
  | inr e ↦ rw e (literal-cons c v ∙ ap (◌∷◌ c) (literal-double v))
]

-- A literal string that `save` writes in double quotes reads back as it was, whatever its bytes.
pub unquote-quote_double :
    (v : Bytes) → unquote_and_unescape (quote_double_and_escape_literal v) double ≡ v
unfolding unquote_and_unescape quote_double_and_escape_literal
unquote-quote_double v =
    let e = double_loop v in rw (snoc-is_quoted e double, inner_lem e double) (literal-double v)
