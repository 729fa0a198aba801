-- ===== src/BitArray/Shifts.antt =====
-- The shifts of a bit array, seen as lists of bits.
use native.Mathlib.Nat.{add_comm}
use jaytwo_library.Prelude.{
  ℕ, ◌+◌, ◌-◌, min, Bool, true, false, ◌++◌, Bytes, if◌then◌else◌, ltb, leb, ◌≡◌, sym, ap, ap₂, ◌∙◌,
  arith, inl, inr, Bool-cases, take, drop, replicate, for_range, tabulate, drop-tabulate,
  drop-tabulate_past, take-tabulate, tabulate-append, tabulate-const,
}
use jaytwo_library.BitArray.{
  BitArray, read_bit, write_bit, from, to_array, shift_left, shift_right, byte_size,
}
use jaytwo_library.BitArray.Bits.{read_bit-zeros}
use jaytwo_library.BitArray.Fill.{Filled, write_Filled}
use jaytwo_library.BitArray.Valid.{IsValid}
use jaytwo_library.BitArray.Views.{view_of, to_array-tabulate}

-- The copy that the shifts begin with has the size of the array.
copy_size : (a : BitArray) → IsValid a → (from a.data_ a.bit_size).bit_size ≡ a.bit_size
unfolding from
copy_size a v = ground (arith, v.none_unused)

-- The loop of either shift, which writes every bit of the copy.
module _ (a : BitArray) (v : IsValid a) (f : ℕ → Bool) where
  shifted : Bytes
  shifted = for_range a.bit_size 0 (λ i d. write_bit d i (f i)) a.data_

  shifted-Filled : Filled a.data_ shifted (λ i. i) f a.bit_size
  unfolding shifted
  shifted-Filled =
      write_Filled a.data_ (λ i. i) f a.bit_size v.bytes (λ i lt. omega (arith, v.room))
        (λ i j _ _ e. e)

abbrev left_bit : BitArray → ℕ → ℕ → Bool
left_bit a shift i = if ltb (i + shift) a.bit_size then read_bit a.data_ (i + shift) else false

abbrev right_bit : BitArray → ℕ → ℕ → Bool
right_bit a shift i =
    let source = if leb shift i then i - shift else a.bit_size in
    if ltb source a.bit_size then read_bit a.data_ source else false

left_view :
    (a : BitArray) (shift : ℕ)
    → IsValid a
    → to_array (shift_left a shift) ≡ tabulate a.bit_size (left_bit a shift)
left_view a shift v = elim (Bool-cases (leb a.bit_size shift)) [
  | inl e ↦
      view_of (shift_left a shift) a.bit_size (left_bit a shift)
        (unfold shift_left in rw e (copy_size a v))
        (λ i lt. unfold shift_left in rw e (read_bit-zeros (byte_size a.bit_size) i ∙ ground arith))
  | inr e ↦
      view_of (shift_left a shift) a.bit_size (left_bit a shift)
        (unfold shift_left in rw e (copy_size a v))
        (λ i lt.
          unfold shift_left from shifted in
          rw e ((shifted-Filled a v (left_bit a shift)).written i lt))
]

right_view :
    (a : BitArray) (shift : ℕ)
    → IsValid a
    → to_array (shift_right a shift) ≡ tabulate a.bit_size (right_bit a shift)
right_view a shift v = elim (Bool-cases (leb a.bit_size shift)) [
  | inl e ↦
      view_of (shift_right a shift) a.bit_size (right_bit a shift)
        (unfold shift_right in rw e (copy_size a v))
        (λ i lt.
          unfold shift_right in rw e (read_bit-zeros (byte_size a.bit_size) i ∙ ground arith))
  | inr e ↦
      view_of (shift_right a shift) a.bit_size (right_bit a shift)
        (unfold shift_right in rw e (copy_size a v))
        (λ i lt.
          unfold shift_right from shifted in
          rw e ((shifted-Filled a v (right_bit a shift)).written i lt))
]

-- On a valid array the left shift drops bits at the front and puts as many zeros behind the rest,
-- for a shift of any size.
pub to_array-shift_left :
    (a : BitArray) (shift : ℕ)
    → IsValid a
    → to_array (shift_left a shift)
      ≡ drop shift (to_array a) ++ replicate (min shift a.bit_size) false
to_array-shift_left a shift v =
    left_view a shift v
    ∙ tabulate-append (a.bit_size - shift) (min shift a.bit_size) a.bit_size
        (λ i. read_bit a.data_ (shift + i)) (λ _. false) (left_bit a shift) (omega arith)
        (λ i lt. ground (arith, ap (read_bit a.data_) (add_comm i shift))) (λ i lt. ground arith)
    ∙ ap₂ ◌++◌ rest (sym (tabulate-const (min shift a.bit_size) false))
  where
    rest :
        tabulate (a.bit_size - shift) (λ i. read_bit a.data_ (shift + i)) ≡ drop shift (to_array a)
    rest = rw (to_array-tabulate a) (
        sym (elim (Bool-cases (leb shift a.bit_size)) [
          | inl e ↦
              drop-tabulate shift (a.bit_size - shift) a.bit_size (read_bit a.data_) (ground arith)
          | inr e ↦
              let none : a.bit_size - shift ≡ 0 = ground arith in
              rw none (drop-tabulate_past shift a.bit_size (read_bit a.data_) (ground arith))
        ]))

-- On a valid array the right shift puts zeros in front and drops as many bits at the end, for a
-- shift of any size.
pub to_array-shift_right :
    (a : BitArray) (shift : ℕ)
    → IsValid a
    → to_array (shift_right a shift)
      ≡ replicate (min shift a.bit_size) false ++ take (a.bit_size - shift) (to_array a)
to_array-shift_right a shift v =
    right_view a shift v
    ∙ tabulate-append (min shift a.bit_size) (a.bit_size - shift) a.bit_size (λ _. false)
        (read_bit a.data_) (right_bit a shift) (omega arith) (λ i lt. ground arith)
        (λ i lt.
          let all : min shift a.bit_size ≡ shift = omega arith in
          let past : leb shift (shift + i) ≡ true = ground arith in
          let back : shift + i - shift ≡ i = omega arith in
          let inside : ltb i a.bit_size ≡ true = ground arith in rw (all, past, back, inside))
    ∙ ap₂ ◌++◌ (sym (tabulate-const (min shift a.bit_size) false)) (
        rw (to_array-tabulate a)
          (sym (take-tabulate (a.bit_size - shift) a.bit_size (read_bit a.data_) (omega arith))))
