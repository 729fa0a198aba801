-- ===== src/U8Str/Points.antt =====
-- The operations that count in code points, on well-formed UTF-8: each is one on the list of them.
use jaytwo_library.Prelude.{
  ℕ, ◌+◌, ◌-◌, ◌^◌, ◌<◌, zero, suc, true, List, [], ◌∷◌, ◌++◌, Bytes, length, take, drop, reverse,
  replicate, leb, ◌≡◌, refl, sym, ap, ap₂, ◌∙◌, arith, inl, inr, Bool-cases, All, append-nil,
  drop-append_left, take-append_left, drop-drop,
}
use mathlib.Core.List.{reverse-cons}
use jaytwo_library.Encoding.RoundTrip.{IsScalar}
use jaytwo_library.U8String.{append_utf8, from_u32string}
use jaytwo_library.U8Str.{left, right, mid, reverse_loop, reverse_utf8, pad_left, pad_right}
use jaytwo_library.U8Str.Spans.{spans_of, utf8_index_map-from, length-spans_of, from-append}
use jaytwo_library.U8Str.Cuts.{left-from, right-from, mid-from, nil_bytes, one_bytes, reverse_short}

reverse_loop-spans_of :
    (k : ℕ) (s : Bytes) (vs : List ℕ)
    → drop k s ≡ from_u32string vs
    → reverse_loop s (spans_of k vs) ≡ from_u32string (reverse vs)
unfolding reverse_loop
reverse_loop-spans_of k s [] e = sym nil_bytes
reverse_loop-spans_of k s (v ∷ vs) e =
    let len = length (append_utf8 v) in
    let here : drop k s ≡ append_utf8 v ++ from_u32string vs = e ∙ unfold from_u32string in refl in
    let later : drop (k + len) s ≡ from_u32string vs =
      sym (drop-drop len k s)
      ∙ ap (drop len) here
      ∙ drop-append_left (append_utf8 v) (from_u32string vs) in
    ap₂ ◌++◌ (reverse_loop-spans_of (k + len) s vs later)
      (ap (take len) here ∙ take-append_left (append_utf8 v) (from_u32string vs) ∙ one_bytes v)
    ∙ sym (from-append (reverse vs) (v ∷ []))
    ∙ ap from_u32string (sym (reverse-cons v vs))

reverse_utf8-from :
    (vs : List ℕ) → All IsScalar vs → reverse_utf8 (from_u32string vs) ≡ from_u32string (reverse vs)
unfolding reverse_utf8
reverse_utf8-from vs h = elim (Bool-cases (leb (length vs) 1)) [
  | inl e ↦
      rw (utf8_index_map-from vs h, length-spans_of 0 vs, e)
        (ap from_u32string (sym (reverse_short vs (ground (arith, e)))))
  | inr e ↦
      rw (utf8_index_map-from vs h, length-spans_of 0 vs, e)
        (reverse_loop-spans_of 0 (from_u32string vs) vs refl)
]

ascii_bytes : (f : ℕ) (n : ℕ) → f < 128 → from_u32string (replicate n f) ≡ replicate n f
unfolding from_u32string append_utf8
ascii_bytes f zero h = refl
ascii_bytes f (suc n) h =
    let e : leb f 0x7F ≡ true = ground (arith, h) in rw e (ap (◌∷◌ f) (ascii_bytes f n h))

pad_left-from :
    (vs : List ℕ) (width fill : ℕ)
    → All IsScalar vs
    → fill < 128
    → pad_left (from_u32string vs) width fill
      ≡ from_u32string (replicate (width - length vs) fill ++ vs)
unfolding pad_left
pad_left-from vs width fill h ascii =
    let pad = replicate (width - length vs) fill in
    elim (Bool-cases (leb width (length vs))) [
      | inl e ↦
          let none_short : width - length vs ≡ 0 = ground (arith, e) in
          rw (utf8_index_map-from vs h, length-spans_of 0 vs, e, none_short) refl
      | inr e ↦
          rw (utf8_index_map-from vs h, length-spans_of 0 vs, e)
            (ap (λ t. t ++ from_u32string vs) (sym (ascii_bytes fill (width - length vs) ascii))
              ∙ sym (from-append pad vs))
    ]

pad_right-from :
    (vs : List ℕ) (width fill : ℕ)
    → All IsScalar vs
    → fill < 128
    → pad_right (from_u32string vs) width fill
      ≡ from_u32string (vs ++ replicate (width - length vs) fill)
unfolding pad_right
pad_right-from vs width fill h ascii =
    let pad = replicate (width - length vs) fill in
    elim (Bool-cases (leb width (length vs))) [
      | inl e ↦
          let none_short : width - length vs ≡ 0 = ground (arith, e) in
          rw (utf8_index_map-from vs h, length-spans_of 0 vs, e, none_short, append-nil vs) refl
      | inr e ↦
          rw (utf8_index_map-from vs h, length-spans_of 0 vs, e)
            (ap (λ t. from_u32string vs ++ t) (sym (ascii_bytes fill (width - length vs) ascii))
              ∙ sym (from-append vs pad))
    ]

-- On the UTF-8 of any Unicode scalar values, `left`, `right`, `mid` (where position and count do not
-- wrap in 64 bits), `reverse_utf8` and, with an ASCII char, `pad_left` and `pad_right` do what `take`,
-- `drop`, a range, `reverse` and padding do to the list of the values.
pub code_points_refine :
    (vs : List ℕ) (n pos count width fill : ℕ)
    → All IsScalar vs
    → pos + count < 2 ^ 64
    → fill < 128
    → (left (from_u32string vs) n ≡ from_u32string (take n vs))
      × (right (from_u32string vs) n ≡ from_u32string (drop (length vs - n) vs))
      × (mid (from_u32string vs) pos count ≡ from_u32string (take count (drop pos vs)))
      × (reverse_utf8 (from_u32string vs) ≡ from_u32string (reverse vs))
      × (pad_left (from_u32string vs) width fill
          ≡ from_u32string (replicate (width - length vs) fill ++ vs))
      × (pad_right (from_u32string vs) width fill
          ≡ from_u32string (vs ++ replicate (width - length vs) fill))
code_points_refine vs n pos count width fill h fits ascii = (
  left-from vs n h,
  right-from vs n h,
  mid-from vs pos count h fits,
  reverse_utf8-from vs h,
  pad_left-from vs width fill h ascii,
  pad_right-from vs width fill h ascii,
)
