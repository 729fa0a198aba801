-- ===== src/U8String/Progress.antt =====
-- What the decoder makes of any bytes: a Unicode scalar value each time, and a step ahead.
use Prim.Native.Nat.{bit_and, bit_or}
use jaytwo_library.Prelude.{
  ℕ, ◌+◌, ◌*◌, ◌%◌, ◌^◌, ◌<◌, ◌≤◌, zero, suc, List, [], ◌∷◌, ◌++◌, Bytes, length, drop, ◌==◌, ◌≡◌,
  inl, inr, refl, sym, ap₂, ◌∙◌, arith, Bool-cases, All, All-append, length-drop,
}
use jaytwo_library.Encoding.RoundTrip.{IsScalar}
use jaytwo_library.BitArray.Bits.{AllBytes}
use jaytwo_library.U8String.{
  two_bytes, three_bytes, four_bytes, lead, next_code_point, code_points_loop, to_u32string,
}
use jaytwo_library.U8String.Masks.{high_bits, low_six, low_five, low_four, join_six, join_three}

-- A scalar value, and a length within what there is.
pub record IsStep (have : ℕ) (r : ℕ × ℕ) : Type 0 where
  pub scalar : IsScalar r.0
  pub ahead : 1 ≤ r.1
  pub within : r.1 ≤ have

two_bytes-IsStep : (b0 : ℕ) (rest : Bytes) → IsStep (suc (length rest)) (two_bytes b0 rest)
two_bytes-IsStep b0 [] = record { scalar = ground arith; ahead = omega arith; within = omega arith }
two_bytes-IsStep b0 (b1 ∷ rest) =
    let cp = bit_or (bit_and b0 0x1F * 2 ^ 6) (bit_and b1 0x3F) in
    let value : cp ≡ b0 % 32 * 64 + b1 % 64 =
      ap₂ (λ a c. bit_or (a * 2 ^ 6) c) (low_five b0) (low_six b1)
      ∙ join_six (b0 % 32) (b1 % 64) (omega arith) in
    record { scalar = ground (arith, value); ahead = ground arith; within = ground arith }

three_bytes-IsStep : (b0 : ℕ) (rest : Bytes) → IsStep (suc (length rest)) (three_bytes b0 rest)
three_bytes-IsStep b0 [] = record {
  scalar = ground arith;
  ahead = omega arith;
  within = omega arith;
}
three_bytes-IsStep b0 (b1 ∷ []) = record {
  scalar = ground arith;
  ahead = omega arith;
  within = omega arith;
}
three_bytes-IsStep b0 (b1 ∷ b2 ∷ rest) =
    let cp =
      bit_or (bit_or (bit_and b0 0xF * 2 ^ 12) (bit_and b1 0x3F * 2 ^ 6)) (bit_and b2 0x3F) in
    let value : cp ≡ b0 % 16 * 4096 + b1 % 64 * 64 + b2 % 64 =
      rw (low_four b0, low_six b1, low_six b2)
        (join_three (b0 % 16) (b1 % 64) (b2 % 64) (omega arith) (omega arith)) in
    record { scalar = ground (arith, value); ahead = ground arith; within = ground arith }

four_bytes-IsStep : (b0 : ℕ) (rest : Bytes) → IsStep (suc (length rest)) (four_bytes b0 rest)
four_bytes-IsStep b0 [] = record {
  scalar = ground arith;
  ahead = omega arith;
  within = omega arith;
}
four_bytes-IsStep b0 (b1 ∷ []) = record {
  scalar = ground arith;
  ahead = omega arith;
  within = omega arith;
}
four_bytes-IsStep b0 (b1 ∷ b2 ∷ []) = record {
  scalar = ground arith;
  ahead = omega arith;
  within = omega arith;
}
four_bytes-IsStep b0 (b1 ∷ b2 ∷ b3 ∷ rest) = record {
  scalar = ground arith;
  ahead = ground arith;
  within = ground arith;
}

lead-IsStep : (b0 : ℕ) (rest : Bytes) → b0 < 256 → IsStep (suc (length rest)) (lead b0 rest)
unfolding lead
lead-IsStep b0 rest h = elim (Bool-cases (bit_and b0 0x80 == 0)) [
  | inl e ↦
      let one = (high_bits b0 h).one in
      rw e
        (record { scalar = ground (arith, e, one, h); ahead = omega arith; within = omega arith })
  | inr e ↦ elim (Bool-cases (bit_and b0 0xE0 == 0xC0)) [
    | inl f ↦ rw (e, f) (two_bytes-IsStep b0 rest)
    | inr f ↦ elim (Bool-cases (bit_and b0 0xF0 == 0xE0)) [
      | inl g ↦ rw (e, f, g) (three_bytes-IsStep b0 rest)
      | inr g ↦ elim (Bool-cases (bit_and b0 0xF8 == 0xF0)) [
        | inl k ↦ rw (e, f, g, k) (four_bytes-IsStep b0 rest)
        | inr k ↦
            rw (e, f, g, k)
              (record { scalar = ground arith; ahead = omega arith; within = omega arith })
      ]
    ]
  ]
]

drop-AllBytes : (n : ℕ) (s : Bytes) → AllBytes s → AllBytes (drop n s)
drop-AllBytes zero s h = h
drop-AllBytes (suc n) [] h = h
drop-AllBytes (suc n) (b ∷ s) h = drop-AllBytes n s h.1

code_points_loop-All :
    (fuel : ℕ) (s : Bytes) (out : List ℕ)
    → AllBytes s
    → All IsScalar out
    → All IsScalar (code_points_loop fuel s out)
unfolding code_points_loop next_code_point
code_points_loop-All zero s out h ho = ho
code_points_loop-All (suc fuel) [] out h ho = ho
code_points_loop-All (suc fuel) (b ∷ s) out h ho =
    let (cp, len) = lead b s in
    code_points_loop-All fuel (drop len (b ∷ s)) (out ++ cp ∷ []) (drop-AllBytes len (b ∷ s) h)
      (All-append IsScalar out (cp ∷ []) ho ((lead-IsStep b s h.0).scalar, tt))

-- Whatever the bytes, what is decoded is Unicode scalar values: no surrogate comes out, and nothing
-- past U+10FFFF.
pub to_u32string-All : (s : Bytes) → AllBytes s → All IsScalar (to_u32string s)
unfolding to_u32string
to_u32string-All s h = code_points_loop-All (length s) s [] h tt

loop_round :
    (fuel b : ℕ) (s : Bytes) (out : List ℕ)
    → code_points_loop (suc fuel) (b ∷ s) out
      ≡ code_points_loop fuel (drop (lead b s).1 (b ∷ s)) (out ++ (lead b s).0 ∷ [])
loop_round fuel b s out = unfold code_points_loop next_code_point in refl

-- More fuel than the bytes changes nothing, so the loop stops by itself.
pub code_points_loop_enough :
    (fuel : ℕ) (s : Bytes) (out : List ℕ)
    → AllBytes s
    → length s ≤ fuel
    → code_points_loop (suc fuel) s out ≡ code_points_loop fuel s out
code_points_loop_enough zero [] out h le = unfold code_points_loop next_code_point in refl
code_points_loop_enough (suc fuel) [] out h le = unfold code_points_loop next_code_point in refl
code_points_loop_enough zero (b ∷ s) out h le = absurd (omega (arith, le))
code_points_loop_enough (suc fuel) (b ∷ s) out h le =
    let (cp, len) = lead b s in
    let step = lead-IsStep b s h.0 in
    loop_round (suc fuel) b s out
    ∙ code_points_loop_enough fuel (drop len (b ∷ s)) (out ++ cp ∷ []) (drop-AllBytes len (b ∷ s) h)
        (omega (arith, le, length-drop len (b ∷ s), step.ahead))
    ∙ sym (loop_round fuel b s out)
