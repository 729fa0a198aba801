-- ===== src/U8String/RoundTrip.antt =====
-- Whole texts: from code points to UTF-8 and back, and what the decoder makes of any bytes.
use jaytwo_library.Prelude.{
  ℕ, ◌≤◌, zero, suc, List, [], ◌∷◌, ◌++◌, Bytes, length, ◌≡◌, sym, ap, ◌∙◌, arith, All,
  length-append, append_assoc, append-nil, drop-append_left,
}
use jaytwo_library.Encoding.RoundTrip.{IsScalar}
use jaytwo_library.U8String.{
  next_code_point, append_utf8, code_points_loop, to_u32string, from_u32string,
}
use jaytwo_library.U8String.Decode.{utf8_bytes, append_utf8-bytes, next_code_point-append_utf8}

length-utf8_bytes : (v : ℕ) → (1 ≤ length (utf8_bytes v)) × (length (utf8_bytes v) ≤ 4)
unfolding utf8_bytes
length-utf8_bytes v = ground arith

pub length-append_utf8 : (v : ℕ) → IsScalar v → 1 ≤ length (append_utf8 v)
length-append_utf8 v s = rw (append_utf8-bytes v s) (length-utf8_bytes v).0

-- A round of the loop over what the encoder wrote.
code_points_loop-append_utf8 :
    (fuel v : ℕ) (rest : Bytes) (out : List ℕ)
    → IsScalar v
    → code_points_loop (suc fuel) (append_utf8 v ++ rest) out
      ≡ code_points_loop fuel rest (out ++ v ∷ [])
unfolding code_points_loop
code_points_loop-append_utf8 fuel v rest out s =
    rw (next_code_point-append_utf8 v rest s, code_points_loop)
      (ap (λ t. code_points_loop fuel t (out ++ v ∷ [])) (drop-append_left (append_utf8 v) rest))

code_points_loop-from :
    (fuel : ℕ) (vs out : List ℕ)
    → All IsScalar vs
    → length (from_u32string vs) ≤ fuel
    → code_points_loop fuel (from_u32string vs) out ≡ out ++ vs
unfolding from_u32string
code_points_loop-from zero [] out h le = unfold code_points_loop in sym (append-nil out)
code_points_loop-from (suc fuel) [] out h le =
    unfold code_points_loop next_code_point in sym (append-nil out)
code_points_loop-from zero (v ∷ vs) out (s, h) le =
    absurd
      (omega (arith, le, length-append_utf8 v s, length-append (append_utf8 v) (from_u32string vs)))
code_points_loop-from (suc fuel) (v ∷ vs) out (s, h) le =
    code_points_loop-append_utf8 fuel v (from_u32string vs) out s
    ∙ code_points_loop-from fuel vs (out ++ v ∷ []) h (
        omega
          (arith, le, length-append_utf8 v s, length-append (append_utf8 v) (from_u32string vs)))
    ∙ append_assoc out (v ∷ []) vs

-- Every text of Unicode scalar values is read back from its UTF-8 as it was.
pub to_u32string-from_u32string :
    (vs : List ℕ) → All IsScalar vs → to_u32string (from_u32string vs) ≡ vs
unfolding to_u32string
to_u32string-from_u32string vs h =
    code_points_loop-from (length (from_u32string vs)) vs [] h (omega arith)
