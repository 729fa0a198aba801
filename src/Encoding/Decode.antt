-- ===== src/Encoding/Decode.antt =====
-- From UTF-16 to code points and back.
use jaytwo_library.Prelude.{
  ℕ, ◌-◌, ◌/◌, ◌^◌, ◌<◌, true, false, List, [], ◌∷◌, ◌++◌, none, some, ◌≡◌, inl, inr, refl, sym, ap,
  ◌∙◌, arith, ltb, leb, All, append_assoc, append-nil, Bool-cases, subst,
}
use jaytwo_library.Encoding.{
  is_high, is_low, pair, decode_loop, utf16_to_utf32, utf32_to_utf16, high_unit, low_unit,
}
use jaytwo_library.Encoding.RoundTrip.{
  IsScalar, units, all_units, ten_bits, decode_unit, decode_pair, encode-All,
}

-- What a list of units was read as.
abbrev Reads : List ℕ → List ℕ → List ℕ → Type 0
Reads u out r = (vs : List ℕ) × (r ≡ out ++ vs) × All IsScalar vs × (all_units vs ≡ u)

Reads-cons :
    (v : ℕ) (u rest out r : List ℕ)
    → IsScalar v
    → units v ++ rest ≡ u
    → Reads rest (out ++ v ∷ []) r
    → Reads u out r
Reads-cons v u rest out r s e (vs, split, all, back) =
    (v ∷ vs, split ∙ append_assoc out (v ∷ []) vs, (s, all), ap (◌++◌ (units v)) back ∙ e)

abbrev pub IsUnit : ℕ → Type 0
IsUnit c = c < 2 ^ 16

unit-IsScalar :
    (c : ℕ) → IsUnit c → is_high c ≡ false → is_low c ≡ false → IsScalar c × (units c ≡ c ∷ [])
unit-IsScalar c lt h l = elim (Bool-cases (ltb c 0xD800)) [
  | inl e ↦ (inl (ground arith), ground arith)
  | inr e ↦ (inr (ground arith, ground arith), ground arith)
]

pair-IsScalar :
    (hi lo : ℕ)
    → is_high hi ≡ true
    → is_low lo ≡ true
    → IsScalar (pair hi lo) × (units (pair hi lo) ≡ hi ∷ lo ∷ [])
pair-IsScalar hi lo h l = (inr (ground arith, ground arith), rw past both)
  where
    past : leb (pair hi lo) 0xFFFF ≡ false
    past = ground arith

    w : ℕ
    w = pair hi lo - 0x10000

    both : high_unit w ∷ low_unit w ∷ [] ≡ hi ∷ lo ∷ []
    both = ground (arith, ten_bits (w / 2 ^ 10), ten_bits w)

no_unit :
    (c : ℕ) (rest out : List ℕ)
    → is_high c ≡ false
    → is_low c ≡ true
    → decode_loop (c ∷ rest) out ≡ none
unfolding decode_loop
no_unit c [] out h l = rw (h, l)
no_unit c (d ∷ rest) out h l = rw (h, l)

high_alone : (c : ℕ) (out : List ℕ) → is_high c ≡ true → decode_loop (c ∷ []) out ≡ none
unfolding decode_loop
high_alone c out h = rw h

high_unpaired :
    (c d : ℕ) (rest out : List ℕ)
    → is_high c ≡ true
    → is_low d ≡ false
    → decode_loop (c ∷ d ∷ rest) out ≡ none
unfolding decode_loop
high_unpaired c d rest out h l = ground arith

unit_sound :
    (c : ℕ) (rest out r : List ℕ)
    → IsUnit c
    → is_high c ≡ false
    → is_low c ≡ false
    → Reads rest (out ++ c ∷ []) r
    → Reads (c ∷ rest) out r
unit_sound c rest out r lt h l reads =
    let (s, e) = unit-IsScalar c lt h l in
    Reads-cons c (c ∷ rest) rest out r s (ap (λ t. t ++ rest) e) reads

decode_nil : (out : List ℕ) → decode_loop [] out ≡ some out
unfolding decode_loop
decode_nil out = refl

decode_sound : (u out r : List ℕ) → All IsUnit u → decode_loop u out ≡ some r → Reads u out r
decode_sound [] out r w h =
    let same : out ≡ r = cc (decode_nil out) in ([], sym same ∙ sym (append-nil out), tt, refl)
decode_sound (c ∷ []) out r (lt, w) h = elim (Bool-cases (is_high c)) [
  | inl e ↦ cc (high_alone c out e)
  | inr e ↦ elim (Bool-cases (is_low c)) [
    | inl f ↦ cc (no_unit c [] out e f)
    | inr f ↦
        unit_sound c [] out r lt e f
          (decode_sound [] (out ++ c ∷ []) r tt (sym (decode_unit c [] out e f) ∙ h))
  ]
]
decode_sound (c ∷ d ∷ rest) out r (lt, (lt', w)) h = elim (Bool-cases (is_high c)) [
  | inl e ↦ elim (Bool-cases (is_low d)) [
    | inl f ↦
        let (s, back) = pair-IsScalar c d e f in
        Reads-cons (pair c d) (c ∷ d ∷ rest) rest out r s (ap (λ t. t ++ rest) back)
          (decode_sound rest (out ++ pair c d ∷ []) r w (sym (decode_pair c d rest out e f) ∙ h))
    | inr f ↦ cc (high_unpaired c d rest out e f)
  ]
  | inr e ↦ elim (Bool-cases (is_low c)) [
    | inl f ↦ cc (no_unit c (d ∷ rest) out e f)
    | inr f ↦ unit_sound c (d ∷ rest) out r lt e f (
        decode_sound (d ∷ rest) (out ++ c ∷ []) r (lt', w)
          (sym (decode_unit c (d ∷ rest) out e f) ∙ h))
  ]
]

-- 16-bit units that `utf16_to_utf32` reads give a text that UTF-16 can hold, and writing it gives
-- the units back.
pub utf32-utf16 :
    (u vs : List ℕ)
    → All IsUnit u
    → utf16_to_utf32 u ≡ some vs
    → All IsScalar vs × (utf32_to_utf16 vs ≡ some u)
unfolding utf16_to_utf32 utf32_to_utf16
utf32-utf16 u vs w h =
    let (vs', same, all, back) = decode_sound u [] vs w h in
    subst (λ t. All IsScalar t × (utf32_to_utf16 t ≡ some u)) (sym same)
      (all, encode-All vs' [] all ∙ ap some back)
