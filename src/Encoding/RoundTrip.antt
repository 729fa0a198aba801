-- ===== src/Encoding/RoundTrip.antt =====
-- From code points to UTF-16 and back.
use Prim.Native.Nat.{bit_and}
use jaytwo_library.Prelude.Mask.{bit_and-ones}
use jaytwo_library.Prelude.{
  ℕ, ◌+◌, ◌-◌, ◌/◌, ◌%◌, ◌^◌, ◌≤◌, ◌<◌, true, false, ◌&&◌, List, [], ◌∷◌, ◌++◌, none, some, ◌≡◌,
  ◌⊎◌, inl, inr, sym, ap, ◌∙◌, arith, if◌then◌else◌, ltb, leb, All, append_assoc, append-nil,
  Bool-cases,
}
use jaytwo_library.Encoding.{
  is_high, is_low, pair, decode_loop, utf16_to_utf32, encode_loop, utf32_to_utf16, high_unit,
  low_unit,
}

pub ten_bits : (a : ℕ) → bit_and a 0x3FF ≡ a % 2 ^ 10
ten_bits a = bit_and-ones a 10

-- A code point that UTF-16 can hold.
abbrev pub IsScalar : ℕ → Type 0
IsScalar v = (v < 0xD800) ⊎ ((0xDFFF < v) × (v ≤ 0x10FFFF))

-- What one code point is written as.
abbrev pub units : ℕ → List ℕ
units v = if leb v 0xFFFF then v ∷ [] else high_unit (v - 0x10000) ∷ low_unit (v - 0x10000) ∷ []

encode_one :
    (v : ℕ) (rest out : List ℕ)
    → IsScalar v
    → encode_loop (v ∷ rest) out ≡ encode_loop rest (out ++ units v)
unfolding encode_loop
encode_one v rest out h = ground arith

encode_bad : (v : ℕ) (rest out : List ℕ) → ¬ IsScalar v → encode_loop (v ∷ rest) out ≡ none
unfolding encode_loop
encode_bad v rest out h = elim (Bool-cases (ltb v 0xD800)) [
  | inl e ↦ absurd (h (inl (ground arith)))
  | inr e ↦ elim (Bool-cases (ltb 0xDFFF v && leb v 0x10FFFF)) [
    | inl f ↦ absurd (h (inr (ground arith)))
    | inr f ↦ ground arith
  ]
]

-- The first unit of a list is decoded by itself unless it is a surrogate.
pub decode_unit :
    (cu : ℕ) (rest out : List ℕ)
    → is_high cu ≡ false
    → is_low cu ≡ false
    → decode_loop (cu ∷ rest) out ≡ decode_loop rest (out ++ cu ∷ [])
unfolding decode_loop
decode_unit cu [] out h l = rw (h, l)
decode_unit cu (cu2 ∷ rest) out h l = rw (h, l)

pub decode_pair :
    (hi lo : ℕ) (rest out : List ℕ)
    → is_high hi ≡ true
    → is_low lo ≡ true
    → decode_loop (hi ∷ lo ∷ rest) out ≡ decode_loop rest (out ++ pair hi lo ∷ [])
unfolding decode_loop
decode_pair hi lo rest out h l = ground arith

-- What is written for one code point is read back as it.
decode_units :
    (v : ℕ) (rest out : List ℕ)
    → IsScalar v
    → decode_loop (units v ++ rest) out ≡ decode_loop rest (out ++ v ∷ [])
decode_units v rest out h = elim (Bool-cases (leb v 0xFFFF)) [
  | inl e ↦ rw e (decode_unit v rest out (ground arith) (ground arith))
  | inr e ↦
      let w = v - 0x10000 in
      let high : high_unit w ≡ 0xD800 + (w / 2 ^ 10) % 2 ^ 10 =
        ap (λ t. 0xD800 + t) (ten_bits (w / 2 ^ 10)) in
      let low : low_unit w ≡ 0xDC00 + w % 2 ^ 10 = ap (λ t. 0xDC00 + t) (ten_bits w) in
      let back : pair (high_unit w) (low_unit w) ≡ v = ground (arith, high, low) in
      rw e (
        decode_pair (high_unit w) (low_unit w) rest out (ground (arith, high)) (ground (arith, low))
        ∙ ap (λ t. decode_loop rest (out ++ t ∷ [])) back)
]

abbrev pub all_units : List ℕ → List ℕ
all_units [] = []
all_units (v ∷ vs) = units v ++ all_units vs

pub encode-All :
    (vs out : List ℕ) → All IsScalar vs → encode_loop vs out ≡ some (out ++ all_units vs)
encode-All [] out h = unfold encode_loop in ap some (sym (append-nil out))
encode-All (v ∷ vs) out (h, hs) =
    encode_one v vs out h
    ∙ encode-All vs (out ++ units v) hs
    ∙ ap some (append_assoc out (units v) (all_units vs))

decode-All : (vs out : List ℕ) → All IsScalar vs → decode_loop (all_units vs) out ≡ some (out ++ vs)
decode-All [] out h = unfold decode_loop in ap some (sym (append-nil out))
decode-All (v ∷ vs) out (h, hs) =
    decode_units v (all_units vs) out h
    ∙ decode-All vs (out ++ v ∷ []) hs
    ∙ ap some (append_assoc out (v ∷ []) vs)

-- Every text of code points that UTF-16 can hold is written, and read back as it was.
pub utf16-utf32 :
    (vs : List ℕ)
    → All IsScalar vs
    → (u : List ℕ) × (utf32_to_utf16 vs ≡ some u) × (utf16_to_utf32 u ≡ some vs)
unfolding utf32_to_utf16 utf16_to_utf32
utf16-utf32 vs h = (all_units vs, encode-All vs [] h, decode-All vs [] h)

IsScalar-cases : (v : ℕ) → IsScalar v ⊎ ¬ IsScalar v
IsScalar-cases v = elim (Bool-cases (ltb v 0xD800)) [
  | inl e ↦ inl (inl (ground arith))
  | inr e ↦ elim (Bool-cases (ltb 0xDFFF v && leb v 0x10FFFF)) [
    | inl f ↦ inl (inr (ground arith, ground arith))
    | inr f ↦ inr (elim [ inl x ↦ ground arith | inr x ↦ ground arith ])
  ]
]

encode_ill : (vs out : List ℕ) → ¬ All IsScalar vs → encode_loop vs out ≡ none
encode_ill [] out h = absurd (h tt)
encode_ill (v ∷ vs) out h = elim (IsScalar-cases v) [
  | inl s ↦ encode_one v vs out s ∙ encode_ill vs (out ++ units v) (λ hs. h (s, hs))
  | inr n ↦ encode_bad v vs out n
]

-- A text with a surrogate or a number past U+10FFFF in it is refused.
pub utf32_to_utf16_ill : (vs : List ℕ) → ¬ All IsScalar vs → utf32_to_utf16 vs ≡ none
unfolding utf32_to_utf16
utf32_to_utf16_ill vs h = encode_ill vs [] h
