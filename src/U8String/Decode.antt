-- ===== src/U8String/Decode.antt =====
-- One code point: what the encoder writes for it, and what the decoder reads there.
use Prim.Native.Nat.{bit_and, bit_or}
use jaytwo_library.Prelude.{
  ℕ, ◌+◌, ◌*◌, ◌/◌, ◌%◌, ◌<◌, ◌≤◌, true, false, ◌&&◌, [], ◌∷◌, ◌++◌, some, Bytes, length,
  if◌then◌else◌, ltb, leb, ◌==◌, ◌≡◌, inl, inr, refl, ap, ◌∙◌, arith, Bool-cases,
}
use jaytwo_library.Encoding.RoundTrip.{IsScalar}
use jaytwo_library.U8String.{is_cont, lead, next_code_point, append_utf8, utf8_three}
use jaytwo_library.U8String.Masks.{
  high_bits, low_six, low_five, low_four, low_three, cont_byte, lead_two, lead_three, lead_four,
  join_six, join_three, join_four,
}

cont_is : (c : ℕ) → c < 64 → is_cont (128 + c) ≡ true
cont_is c h = ground (arith, (high_bits (128 + c) (omega arith)).two)

cont_bits : (c : ℕ) → c < 64 → bit_and (128 + c) 0x3F ≡ c
cont_bits c h = low_six (128 + c) ∙ omega (arith, h)

lead_one : (v : ℕ) (rest : Bytes) → v < 128 → lead v rest ≡ (v, 1)
unfolding lead
lead_one v rest h =
    let e : (bit_and v 0x80 == 0) ≡ true = ground (arith, (high_bits v (omega (arith, h))).one) in
    rw e refl

lead_of_two :
    (a c : ℕ) (rest : Bytes)
    → a < 32
    → c < 64
    → 0x80 ≤ a * 64 + c
    → lead (192 + a) ((128 + c) ∷ rest) ≡ (a * 64 + c, 2)
unfolding lead
lead_of_two a c rest ha hc low =
    let hb = high_bits (192 + a) (omega (arith, ha)) in
    let e1 : (bit_and (192 + a) 0x80 == 0) ≡ false = ground (arith, hb.one, ha) in
    let e2 : (bit_and (192 + a) 0xE0 == 0xC0) ≡ true = ground (arith, hb.three, ha) in
    let five : bit_and (192 + a) 0x1F ≡ a = low_five (192 + a) ∙ omega (arith, ha) in
    let big : ltb (a * 64 + c) 0x80 ≡ false = ground (arith, low) in
    rw (e1, e2, cont_is c hc, cont_bits c hc, five, join_six a c hc, big) refl

lead_of_three :
    (a c d : ℕ) (rest : Bytes)
    → a < 16
    → c < 64
    → d < 64
    → 0x800 ≤ a * 4096 + c * 64 + d
    → (leb 0xD800 (a * 4096 + c * 64 + d) && leb (a * 4096 + c * 64 + d) 0xDFFF) ≡ false
    → lead (224 + a) ((128 + c) ∷ (128 + d) ∷ rest) ≡ (a * 4096 + c * 64 + d, 3)
unfolding lead
lead_of_three a c d rest ha hc hd low fair =
    let hb = high_bits (224 + a) (omega (arith, ha)) in
    let e1 : (bit_and (224 + a) 0x80 == 0) ≡ false = ground (arith, hb.one, ha) in
    let e2 : (bit_and (224 + a) 0xE0 == 0xC0) ≡ false = ground (arith, hb.three, ha) in
    let e3 : (bit_and (224 + a) 0xF0 == 0xE0) ≡ true = ground (arith, hb.four, ha) in
    let four : bit_and (224 + a) 0xF ≡ a = low_four (224 + a) ∙ omega (arith, ha) in
    let big : ltb (a * 4096 + c * 64 + d) 0x800 ≡ false = ground (arith, low) in
    rw
      (
        e1,
        e2,
        e3,
        cont_is c hc,
        cont_is d hd,
        cont_bits c hc,
        cont_bits d hd,
        four,
        join_three a c d hc hd,
        big,
        fair,
      )
      refl

lead_of_four :
    (a c d e : ℕ) (rest : Bytes)
    → a < 8
    → c < 64
    → d < 64
    → e < 64
    → 0x10000 ≤ a * 262144 + c * 4096 + d * 64 + e
    → a * 262144 + c * 4096 + d * 64 + e ≤ 0x10FFFF
    → lead (240 + a) ((128 + c) ∷ (128 + d) ∷ (128 + e) ∷ rest)
      ≡ (a * 262144 + c * 4096 + d * 64 + e, 4)
unfolding lead
lead_of_four a c d e rest ha hc hd he low high =
    let hb = high_bits (240 + a) (omega (arith, ha)) in
    let v = a * 262144 + c * 4096 + d * 64 + e in
    let e1 : (bit_and (240 + a) 0x80 == 0) ≡ false = ground (arith, hb.one, ha) in
    let e2 : (bit_and (240 + a) 0xE0 == 0xC0) ≡ false = ground (arith, hb.three, ha) in
    let e3 : (bit_and (240 + a) 0xF0 == 0xE0) ≡ false = ground (arith, hb.four, ha) in
    let e4 : (bit_and (240 + a) 0xF8 == 0xF0) ≡ true = ground (arith, hb.five, ha) in
    let three : bit_and (240 + a) 7 ≡ a = low_three (240 + a) ∙ omega (arith, ha) in
    let big : ltb v 0x10000 ≡ false = ground (arith, low) in
    let small : ltb 0x10FFFF v ≡ false = ground (arith, high) in
    rw
      (
        e1,
        e2,
        e3,
        e4,
        cont_is c hc,
        cont_is d hd,
        cont_is e he,
        cont_bits c hc,
        cont_bits d hd,
        cont_bits e he,
        three,
        join_four a c d e hc hd he,
        big,
        small,
      )
      refl

-- What the encoder writes, in arithmetic.
unfoldable pub utf8_bytes : ℕ → Bytes
utf8_bytes v =
    if leb v 0x7F
    then v ∷ []
    else if leb v 0x7FF
    then (192 + v / 64) ∷ (128 + v % 64) ∷ []
    else if leb v 0xFFFF
    then (224 + v / 4096) ∷ (128 + v / 64 % 64) ∷ (128 + v % 64) ∷ []
    else (240 + v / 262144) ∷ (128 + v / 4096 % 64) ∷ (128 + v / 64 % 64) ∷ (128 + v % 64) ∷ []

mark : (x : ℕ) → bit_or 0x80 (bit_and x 0x3F) ≡ 128 + x % 64
mark x = ap (bit_or 0x80) (low_six x) ∙ cont_byte (x % 64) (omega arith)

utf8_three-bytes :
    (v : ℕ)
    → v ≤ 0xFFFF
    → utf8_three v ≡ (224 + v / 4096) ∷ (128 + v / 64 % 64) ∷ (128 + v % 64) ∷ []
utf8_three-bytes v h = rw (mark v, mark (v / 64), lead_three (v / 4096) (omega (arith, h))) refl

pub append_utf8-bytes : (v : ℕ) → IsScalar v → append_utf8 v ≡ utf8_bytes v
unfolding append_utf8 utf8_bytes
append_utf8-bytes v s = elim (Bool-cases (leb v 0x7F)) [
  | inl e1 ↦ rw e1 refl
  | inr e1 ↦ elim (Bool-cases (leb v 0x7FF)) [
    | inl e2 ↦ rw (e1, e2, mark v, lead_two (v / 64) (ground (arith, e2))) refl
    | inr e2 ↦ elim (Bool-cases (leb v 0xFFFF)) [
      | inl e3 ↦
          let fair : (leb 0xD800 v && leb v 0xDFFF) ≡ false = ground (arith, s) in
          rw (e1, e2, e3, fair) (utf8_three-bytes v (ground (arith, e3)))
      | inr e3 ↦
          let e4 : leb v 0x10FFFF ≡ true = ground (arith, s) in
          rw
            (
              e1,
              e2,
              e3,
              e4,
              mark v,
              mark (v / 64),
              mark (v / 4096),
              lead_four (v / 262144) (ground (arith, e4)),
            )
            refl
    ]
  ]
]

read_bytes :
    (v : ℕ) (rest : Bytes)
    → IsScalar v
    → next_code_point (utf8_bytes v ++ rest) ≡ some (v, length (utf8_bytes v))
unfolding next_code_point utf8_bytes
read_bytes v rest s = elim (Bool-cases (leb v 0x7F)) [
  | inl e1 ↦ rw e1 (ap some (lead_one v rest (ground (arith, e1))))
  | inr e1 ↦ elim (Bool-cases (leb v 0x7FF)) [
    | inl e2 ↦
        let whole : v / 64 * 64 + v % 64 ≡ v = omega arith in
        rw (e1, e2)
          (ap some (
            lead_of_two (v / 64) (v % 64) rest (ground (arith, e2)) (omega arith)
              (ground (arith, e1))
            ∙ ap (λ t. (t, 2)) whole))
    | inr e2 ↦ elim (Bool-cases (leb v 0xFFFF)) [
      | inl e3 ↦
          let whole : v / 4096 * 4096 + v / 64 % 64 * 64 + v % 64 ≡ v = omega arith in
          rw (e1, e2, e3)
            (ap some (
              lead_of_three (v / 4096) (v / 64 % 64) (v % 64) rest (ground (arith, e3))
                (omega arith) (omega arith) (ground (arith, e2)) (rw whole (ground (arith, s)))
              ∙ ap (λ t. (t, 3)) whole))
      | inr e3 ↦
          let whole : v / 262144 * 262144 + v / 4096 % 64 * 4096 + v / 64 % 64 * 64 + v % 64 ≡ v =
            omega arith in
          rw (e1, e2, e3)
            (ap some (
              lead_of_four (v / 262144) (v / 4096 % 64) (v / 64 % 64) (v % 64) rest
                (ground (arith, s)) (omega arith) (omega arith) (omega arith) (ground (arith, e3))
                (ground (arith, s))
              ∙ ap (λ t. (t, 4)) whole))
    ]
  ]
]

-- What the encoder writes for a code point, the decoder reads as it, whatever follows.
pub next_code_point-append_utf8 :
    (v : ℕ) (rest : Bytes)
    → IsScalar v
    → next_code_point (append_utf8 v ++ rest) ≡ some (v, length (append_utf8 v))
next_code_point-append_utf8 v rest s = rw (append_utf8-bytes v s) (read_bytes v rest s)
