-- ===== src/StringBasic/Shape/Laws.antt =====
-- Lengths and round trips of the functions that give a text its shape.
use jaytwo_library.Prelude.{
  ℕ, ◌+◌, ◌-◌, ◌*◌, ◌/◌, ◌≤◌, ◌<◌, zero, suc, true, false, [], ◌∷◌, ◌++◌, some, Bytes, length, take,
  drop, replicate, ltb, leb, ◌==◌, ◌≡◌, refl, sym, ap, ◌∙◌, arith, max, length-append, length-take,
  length-drop, length-replicate, inl, inr, Bool-cases, take-append_left, take-nil, All,
}
use jaytwo_library.Text.{has_char}
use jaytwo_library.StringBasic.Shape.{
  pad_left, pad_right, pad_center, without, remove_chars, repeat_loop, repeat, back, strip_quotes,
  quote, safe_substr, ellipsize,
}

-- Each padding function returns a text of the width asked for, or of the text's own length where
-- that is larger.
pub pad_length :
    (s : Bytes) (width fill : ℕ)
    → (length (pad_left s width fill) ≡ max width (length s))
      × (length (pad_right s width fill) ≡ max width (length s))
      × (length (pad_center s width fill) ≡ max width (length s))
unfolding pad_left pad_right pad_center
pad_length s width fill = elim (Bool-cases (leb width (length s))) [
  | inl e ↦ rw e (ground arith)
  | inr e ↦
      let gap = width - length s in
      let wide : length s < width = ground arith in
      let half = gap / 2 in
      rw e (
        omega (arith, length-append (replicate gap fill) s, length-replicate gap fill),
        omega (arith, length-append s (replicate gap fill), length-replicate gap fill),
        omega (
          arith,
          length-append (replicate half fill) (s ++ replicate (gap - half) fill),
          length-append s (replicate (gap - half) fill),
          length-replicate half fill,
          length-replicate (gap - half) fill,
        ),
      )
]

-- A shortened text is never longer than the limit.
pub ellipsize-le :
    (s : Bytes) (max_len : ℕ) (ellipsis : Bytes) → length (ellipsize s max_len ellipsis) ≤ max_len
unfolding ellipsize
ellipsize-le s max_len ellipsis = ground (
  arith,
  length-take max_len ellipsis,
  length-take (max_len - length ellipsis) s,
  length-append (take (max_len - length ellipsis) s) ellipsis,
)

take_all : (n : ℕ) (s : Bytes) → length s ≤ n → take n s ≡ s
take_all zero [] h = refl
take_all zero (c ∷ s) h = absurd (omega arith)
take_all (suc n) [] h = refl
take_all (suc n) (c ∷ s) h = ap (◌∷◌ c) (take_all n s (omega arith))

drop_all : (n : ℕ) (s : Bytes) → length s ≤ n → drop n s ≡ []
drop_all zero [] h = refl
drop_all zero (c ∷ s) h = absurd (omega arith)
drop_all (suc n) [] h = refl
drop_all (suc n) (c ∷ s) h = drop_all n s (omega arith)

-- `safe_substr` returns what lies in the text of the range asked for, wherever the range lies.
pub safe_substr_lem :
    (s : Bytes) (pos count : ℕ) → safe_substr s pos count ≡ take count (drop pos s)
unfolding safe_substr
safe_substr_lem s pos count = elim (Bool-cases (leb (length s) pos)) [
  | inl e ↦ rw (e, drop_all pos s (ground arith)) (sym (take-nil count))
  | inr e ↦ elim (Bool-cases (ltb (length s - pos) count)) [
    | inl f ↦
        rw (e, f)
          (take_all (length s - pos) (drop pos s) (omega (arith, length-drop pos s))
            ∙ sym (take_all count (drop pos s) (ground (arith, length-drop pos s))))
    | inr f ↦ rw (e, f)
  ]
]

back-snoc : (s : Bytes) (q : ℕ) → back (s ++ q ∷ []) ≡ some q
back-snoc [] q = refl
back-snoc (c ∷ []) q = refl
back-snoc (c ∷ d ∷ s) q = back-snoc (d ∷ s) q

strip_between : (s : Bytes) (q : ℕ) → strip_quotes (q ∷ (s ++ q ∷ [])) q ≡ s
unfolding strip_quotes
strip_between s q =
    let size : length (s ++ q ∷ []) ≡ suc (length s) = omega (arith, length-append s (q ∷ [])) in
    let fits : leb 2 (suc (suc (length s))) ≡ true = ground arith in
    let same : (q == q) ≡ true = ground arith in
    let width : suc (suc (length s)) - 2 ≡ length s = omega arith in
    rw (size, fits, back-snoc (q ∷ s) q, same, width) (take-append_left s (q ∷ []))

-- Stripping the quotes that `quote` puts around a text gives the text back, if it does not escape.
pub strip_quotes-quote : (s : Bytes) (q : ℕ) → strip_quotes (quote s q false) q ≡ s
unfolding quote
strip_quotes-quote s q = strip_between s q

has_none : (s : Bytes) → All (λ c. has_char [] c ≡ false) s
unfolding has_char
has_none [] = tt
has_none (c ∷ s) = (refl, has_none s)

without_gone : (s chars : Bytes) → All (λ c. has_char chars c ≡ false) (without s chars)
unfolding without
without_gone [] chars = tt
without_gone (c ∷ s) chars = elim (Bool-cases (has_char chars c)) [
  | inl e ↦ rw (e, without) (without_gone s chars)
  | inr e ↦ rw (e, without) (e, without_gone s chars)
]

-- `remove_chars` leaves none of the chars.
pub remove_chars_gone :
    (s chars : Bytes) → All (λ c. has_char chars c ≡ false) (remove_chars s chars)
unfolding remove_chars
remove_chars_gone s [] = has_none s
remove_chars_gone s (x ∷ chars) = without_gone s (x ∷ chars)

repeat_loop-length :
    (s : Bytes) (n : ℕ) (ret : Bytes) → length (repeat_loop s n ret) ≡ length ret + n * length s
unfolding repeat_loop
repeat_loop-length s zero ret = omega arith
repeat_loop-length s (suc n) ret =
    omega (arith, repeat_loop-length s n (ret ++ s), length-append ret s)

-- `repeat` returns as many copies as asked for: the length is the product.
pub length-repeat : (s : Bytes) (count : ℕ) → length (repeat s count) ≡ count * length s
unfolding repeat
length-repeat [] zero = omega arith
length-repeat [] (suc n) = ground arith
length-repeat (c ∷ s) zero = omega arith
length-repeat (c ∷ s) (suc n) = ground (arith, repeat_loop-length (c ∷ s) (suc n) [])
