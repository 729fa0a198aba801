-- ===== src/U8Str/Spans.antt =====
-- The index map of a text that is well-formed UTF-8.
use jaytwo_library.Prelude.{
  ℕ, ◌+◌, ◌<◌, ◌≤◌, zero, suc, List, [], ◌∷◌, ◌++◌, Bytes, length, take, ◌≡◌, refl, sym, ap, ◌∙◌,
  arith, All, length-append, append_assoc, drop-append_left,
}
use jaytwo_library.Encoding.RoundTrip.{IsScalar}
use jaytwo_library.U8String.{next_code_point, append_utf8, from_u32string}
use jaytwo_library.U8String.Decode.{next_code_point-append_utf8}
use jaytwo_library.U8String.RoundTrip.{length-append_utf8}
use jaytwo_library.U8Str.{index_map_loop, utf8_index_map, first_at, end_at}

-- The spans of the code points, the first at byte `k`.
abbrev pub spans_of : ℕ → List ℕ → List (ℕ × ℕ)
spans_of k [] = []
spans_of k (v ∷ vs) = (k, length (append_utf8 v)) ∷ spans_of (k + length (append_utf8 v)) vs

index_map_round :
    (fuel v : ℕ) (rest : Bytes) (k : ℕ)
    → IsScalar v
    → index_map_loop (suc fuel) (append_utf8 v ++ rest) k
      ≡ (k, length (append_utf8 v)) ∷ index_map_loop fuel rest (k + length (append_utf8 v))
unfolding index_map_loop
index_map_round fuel v rest k s =
    rw (next_code_point-append_utf8 v rest s, index_map_loop)
      (ap (λ t. (k, length (append_utf8 v)) ∷ index_map_loop fuel t (k + length (append_utf8 v)))
        (drop-append_left (append_utf8 v) rest))

index_map_loop-from :
    (fuel : ℕ) (vs : List ℕ) (k : ℕ)
    → All IsScalar vs
    → length (from_u32string vs) ≤ fuel
    → index_map_loop fuel (from_u32string vs) k ≡ spans_of k vs
unfolding from_u32string
index_map_loop-from zero [] k h le = unfold index_map_loop in refl
index_map_loop-from (suc fuel) [] k h le = unfold index_map_loop next_code_point in refl
index_map_loop-from zero (v ∷ vs) k (s, h) le =
    absurd
      (omega (arith, le, length-append_utf8 v s, length-append (append_utf8 v) (from_u32string vs)))
index_map_loop-from (suc fuel) (v ∷ vs) k (s, h) le =
    index_map_round fuel v (from_u32string vs) k s
    ∙ ap (λ t. (k, length (append_utf8 v)) ∷ t)
        (index_map_loop-from fuel vs (k + length (append_utf8 v)) h (
          omega
            (arith, le, length-append_utf8 v s, length-append (append_utf8 v) (from_u32string vs))))

-- The map of a text of Unicode scalar values has a span for each of them.
pub utf8_index_map-from :
    (vs : List ℕ) → All IsScalar vs → utf8_index_map (from_u32string vs) ≡ spans_of 0 vs
unfolding utf8_index_map
utf8_index_map-from vs h = index_map_loop-from (length (from_u32string vs)) vs 0 h (omega arith)

pub length-spans_of : (k : ℕ) (vs : List ℕ) → length (spans_of k vs) ≡ length vs
length-spans_of k [] = refl
length-spans_of k (v ∷ vs) = ap suc (length-spans_of (k + length (append_utf8 v)) vs)

pub from-append :
    (vs ws : List ℕ) → from_u32string (vs ++ ws) ≡ from_u32string vs ++ from_u32string ws
unfolding from_u32string
from-append [] ws = refl
from-append (v ∷ vs) ws =
    ap (λ t. append_utf8 v ++ t) (from-append vs ws)
    ∙ sym (append_assoc (append_utf8 v) (from_u32string vs) (from_u32string ws))

moved :
    (k v : ℕ) (ws : List ℕ)
    → k + length (append_utf8 v) + length (from_u32string ws) ≡ k + length (from_u32string (v ∷ ws))
unfolding from_u32string
moved k v ws = omega (arith, length-append (append_utf8 v) (from_u32string ws))

single : (k v : ℕ) → k + length (append_utf8 v) ≡ k + length (from_u32string (v ∷ []))
unfolding from_u32string
single k v = omega (arith, length-append (append_utf8 v) [])

-- The bytes before the `i`th code point, and up to its end.
pub first_at-spans_of :
    (k : ℕ) (vs : List ℕ) (i : ℕ)
    → i < length vs
    → first_at (spans_of k vs) i ≡ k + length (from_u32string (take i vs))
first_at-spans_of k [] i h = absurd (omega (arith, h))
first_at-spans_of k (v ∷ vs) zero h = unfold from_u32string in omega arith
first_at-spans_of k (v ∷ vs) (suc i) h =
    first_at-spans_of (k + length (append_utf8 v)) vs i (omega (arith, h)) ∙ moved k v (take i vs)

pub end_at-spans_of :
    (k : ℕ) (vs : List ℕ) (i : ℕ)
    → i < length vs
    → end_at (spans_of k vs) i ≡ k + length (from_u32string (take (suc i) vs))
end_at-spans_of k [] i h = absurd (omega (arith, h))
end_at-spans_of k (v ∷ vs) zero h = single k v
end_at-spans_of k (v ∷ vs) (suc i) h =
    end_at-spans_of (k + length (append_utf8 v)) vs i (omega (arith, h))
    ∙ moved k v (take (suc i) vs)
