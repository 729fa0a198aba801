-- ===== src/U8String/Utf16.antt =====
-- The conversions between UTF-8 and UTF-16 in j2_library/src/string/u8string.cpp, beside those of
-- UTF-16 and UTF-32 in encoding_function.cpp.
use Prim.Native.Nat.{bit_and, bit_or}
use jaytwo_library.Prelude.{
  ℕ, ◌+◌, ◌-◌, ◌/◌, ◌%◌, ◌^◌, ◌≤◌, zero, suc, true, false, ◌&&◌, ◌||◌, List, [], ◌∷◌, ◌++◌, some,
  none, Bytes, length, drop, is_empty, if◌then◌else◌, leb, ◌≡◌, ◌≢◌, inl, inr, refl, sym, ap, ap₂,
  ◌∙◌, arith, Bool-cases, All, length-append, append_assoc, append-nil, drop-append_left,
}
use jaytwo_library.Prelude.Mask.{bit_or-add}
use jaytwo_library.Encoding.{is_high, is_low, pair, high_unit, low_unit, utf32_to_utf16}
use jaytwo_library.Encoding.RoundTrip.{IsScalar, units, all_units, encode-All, ten_bits}
use jaytwo_library.U8String.{replacement, next_code_point, append_utf8, from_u32string}
use jaytwo_library.U8String.Decode.{next_code_point-append_utf8}
use jaytwo_library.U8String.RoundTrip.{length-append_utf8}

abbrev pub utf16_units : ℕ → List ℕ
utf16_units cp =
    let w = cp - 0x10000 in
    if leb cp 0xFFFF
    then (if leb 0xD800 cp && leb cp 0xDFFF then replacement else cp) ∷ []
    else bit_or 0xD800 (bit_and (w / 2 ^ 10) 0x3FF) ∷ bit_or 0xDC00 (bit_and w 0x3FF) ∷ []

-- The `while` over the code points, with the rounds left.
unfoldable pub to_u16_loop : ℕ → Bytes → List ℕ → List ℕ
unfolding next_code_point
to_u16_loop zero s r = r
to_u16_loop (suc fuel) s r = elim (next_code_point s) [
  | none ↦ r
  | some (cp, len) ↦ to_u16_loop fuel (drop len s) (r ++ utf16_units cp)
]

unfoldable pub to_u16string : Bytes → List ℕ
unfolding to_u16_loop
to_u16string s = if is_empty s then [] else to_u16_loop (length s) s []

-- `to_u8_string` of a UTF-16 text: a surrogate without its partner is U+FFFD.
unfoldable pub from_u16string : List ℕ → Bytes
unfolding append_utf8
from_u16string [] = []
from_u16string (w1 ∷ []) = append_utf8 (if is_high w1 || is_low w1 then replacement else w1)
from_u16string (w1 ∷ w2 ∷ rest) =
    let paired = append_utf8 (pair w1 w2) ++ from_u16string rest in
    let lone = append_utf8 replacement ++ from_u16string (w2 ∷ rest) in
    let plain = append_utf8 w1 ++ from_u16string (w2 ∷ rest) in
    if is_high w1 then (if is_low w2 then paired else lone) else if is_low w1 then lone else plain

high_same : (w : ℕ) → bit_or 0xD800 (bit_and w 0x3FF) ≡ 0xD800 + bit_and w 0x3FF
high_same w = bit_or-add 54 10 (bit_and w 0x3FF) (omega (arith, ten_bits w))

low_same : (w : ℕ) → bit_or 0xDC00 (bit_and w 0x3FF) ≡ 0xDC00 + bit_and w 0x3FF
low_same w = bit_or-add 55 10 (bit_and w 0x3FF) (omega (arith, ten_bits w))

utf16_units-units : (v : ℕ) → IsScalar v → utf16_units v ≡ units v
utf16_units-units v s = elim (Bool-cases (leb v 0xFFFF)) [
  | inl e ↦
      let fair : (leb 0xD800 v && leb v 0xDFFF) ≡ false = ground (arith, s) in rw (e, fair) refl
  | inr e ↦ rw (e, high_same ((v - 0x10000) / 2 ^ 10), low_same (v - 0x10000)) refl
]

to_u16_round :
    (fuel v : ℕ) (rest : Bytes) (r : List ℕ)
    → IsScalar v
    → to_u16_loop (suc fuel) (append_utf8 v ++ rest) r ≡ to_u16_loop fuel rest (r ++ units v)
unfolding to_u16_loop
to_u16_round fuel v rest r s =
    rw (next_code_point-append_utf8 v rest s, to_u16_loop)
      (ap₂ (λ t u. to_u16_loop fuel t (r ++ u)) (drop-append_left (append_utf8 v) rest)
        (utf16_units-units v s))

to_u16_loop-from :
    (fuel : ℕ) (vs r : List ℕ)
    → All IsScalar vs
    → length (from_u32string vs) ≤ fuel
    → to_u16_loop fuel (from_u32string vs) r ≡ r ++ all_units vs
unfolding from_u32string
to_u16_loop-from zero [] r h le = unfold to_u16_loop in sym (append-nil r)
to_u16_loop-from (suc fuel) [] r h le = unfold to_u16_loop next_code_point in sym (append-nil r)
to_u16_loop-from zero (v ∷ vs) r (s, h) le =
    absurd
      (omega (arith, le, length-append_utf8 v s, length-append (append_utf8 v) (from_u32string vs)))
to_u16_loop-from (suc fuel) (v ∷ vs) r (s, h) le =
    to_u16_round fuel v (from_u32string vs) r s
    ∙ to_u16_loop-from fuel vs (r ++ units v) h (
        omega
          (arith, le, length-append_utf8 v s, length-append (append_utf8 v) (from_u32string vs)))
    ∙ append_assoc r (units v) (all_units vs)

not_empty : (a b : Bytes) → 1 ≤ length a → is_empty (a ++ b) ≢ true
not_empty [] b h e = omega (arith, h)
not_empty (x ∷ a) b h e = cc

nothing : (vs : List ℕ) → All IsScalar vs → is_empty (from_u32string vs) ≡ true → all_units vs ≡ []
nothing [] h e = refl
nothing (v ∷ vs) (s, h) e = absurd (
    not_empty (append_utf8 v) (from_u32string vs) (length-append_utf8 v s)
      (unfold from_u32string in e))

to_u16string-from_u32string :
    (vs : List ℕ) → All IsScalar vs → to_u16string (from_u32string vs) ≡ all_units vs
unfolding to_u16string
to_u16string-from_u32string vs h = elim (Bool-cases (is_empty (from_u32string vs))) [
  | inl e ↦ rw e (sym (nothing vs h e))
  | inr e ↦ rw e (to_u16_loop-from (length (from_u32string vs)) vs [] h (omega arith))
]

from_u32string-cons :
    (v : ℕ) (vs : List ℕ) → append_utf8 v ++ from_u32string vs ≡ from_u32string (v ∷ vs)
from_u32string-cons v vs = unfold from_u32string in refl

from_u16_plain :
    (w : ℕ) (rest : List ℕ)
    → is_high w ≡ false
    → is_low w ≡ false
    → from_u16string (w ∷ rest) ≡ append_utf8 w ++ from_u16string rest
unfolding from_u16string
from_u16_plain w [] h l = rw (h, l) (sym (append-nil (append_utf8 w)))
from_u16_plain w (w2 ∷ rest) h l = rw (h, l) refl

from_u16_pair :
    (hi lo : ℕ) (rest : List ℕ)
    → is_high hi ≡ true
    → is_low lo ≡ true
    → from_u16string (hi ∷ lo ∷ rest) ≡ append_utf8 (pair hi lo) ++ from_u16string rest
unfolding from_u16string
from_u16_pair hi lo rest h l = rw (h, l) refl

from_u16_units :
    (v : ℕ) (rest : List ℕ)
    → IsScalar v
    → from_u16string (units v ++ rest) ≡ append_utf8 v ++ from_u16string rest
from_u16_units v rest s = elim (Bool-cases (leb v 0xFFFF)) [
  | inl e ↦ rw e (from_u16_plain v rest (ground (arith, s, e)) (ground (arith, s, e)))
  | inr e ↦
      let w = v - 0x10000 in
      let high : high_unit w ≡ 0xD800 + (w / 2 ^ 10) % 2 ^ 10 =
        ap (λ t. 0xD800 + t) (ten_bits (w / 2 ^ 10)) in
      let low : low_unit w ≡ 0xDC00 + w % 2 ^ 10 = ap (λ t. 0xDC00 + t) (ten_bits w) in
      let back : pair (high_unit w) (low_unit w) ≡ v = ground (arith, high, low, e, s) in
      rw e (
        from_u16_pair (high_unit w) (low_unit w) rest (ground (arith, high)) (ground (arith, low))
        ∙ ap (λ t. append_utf8 t ++ from_u16string rest) back)
]

from_u16string-units :
    (vs : List ℕ) → All IsScalar vs → from_u16string (all_units vs) ≡ from_u32string vs
from_u16string-units [] h = unfold from_u16string from_u32string in refl
from_u16string-units (v ∷ vs) (s, h) =
    from_u16_units v (all_units vs) s
    ∙ ap (λ t. append_utf8 v ++ t) (from_u16string-units vs h)
    ∙ from_u32string-cons v vs

-- The two codecs agree: for every text of Unicode scalar values, the UTF-16 that
-- encoding_function.cpp writes is the UTF-16 that u8string.cpp makes of the text's UTF-8, and it
-- gives that UTF-8 back.
pub utf8-utf16 :
    (vs : List ℕ)
    → All IsScalar vs
    → (u : List ℕ) × (utf32_to_utf16 vs ≡ some u)
      × (to_u16string (from_u32string vs) ≡ u)
      × (from_u16string u ≡ from_u32string vs)
unfolding utf32_to_utf16
utf8-utf16 vs h =
    (all_units vs, encode-All vs [] h, to_u16string-from_u32string vs h, from_u16string-units vs h)
