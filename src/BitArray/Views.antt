-- ===== src/BitArray/Views.antt =====
-- A bit array seen as the list of its bits, `to_array`: each operation is one on that list.
use jaytwo_library.Prelude.{
  ℕ, ◌+◌, ◌-◌, ◌^◌, ◌<◌, suc, min, Bool, true, false, [], ◌∷◌, ◌++◌, Bytes, leb, ◌==◌, ◌≡◌, refl,
  sym, ap, ap₂, ◌∙◌, arith, inl, inr, Bool-cases, take, drop, reverse, for_range, for_range_inv,
  tabulate, tabulate_ext, take-drop-tabulate, drop-tabulate, take-tabulate, take-tabulate-min,
  tabulate-append, tabulate-snoc, reverse-tabulate, is_empty, ◌||◌,
}
use native.Mathlib.Nat.{mod-eq_of_lt, add_assoc}
use jaytwo_library.BitArray.{
  BitArray, read_bit, write_bit, from, clip, get, merge, concat, to_array, reverser, byte_size,
}
use jaytwo_library.BitArray.Fill.{Filled}
use jaytwo_library.BitArray.Valid.{
  IsValid, from-IsValid, get_bits, get-Filled, get_lem, get-IsValid, all_bits, front-Filled,
  all-Filled, length-all_bits, merge-Filled, reversed_bits, reversed-Filled, length-zeros,
}

pub to_array-tabulate : (a : BitArray) → to_array a ≡ tabulate a.bit_size (read_bit a.data_)
unfolding to_array
to_array-tabulate a =
    for_range_inv (λ k out. out ≡ tabulate k (read_bit a.data_))
      (λ i out. out ++ read_bit a.data_ i ∷ []) a.bit_size 0 a.bit_size [] (omega arith)
      (λ k out _ _ e.
        ap (λ t. t ++ read_bit a.data_ k ∷ []) e ∙ sym (tabulate-snoc k (read_bit a.data_)))
      refl

-- An array of `n` bits that read as `f`.
pub view_of :
    (a : BitArray) (n : ℕ) (f : ℕ → Bool)
    → a.bit_size ≡ n
    → ((i : ℕ) → i < n → read_bit a.data_ i ≡ f i)
    → to_array a ≡ tabulate n f
view_of a n f size h = to_array-tabulate a ∙ rw size (tabulate_ext n (read_bit a.data_) f h)

-- Where the sum does not wrap, the clipped length is what there is of the range.
clip_lem :
    (a : BitArray) (off len : ℕ) → off + len < 2 ^ 64 → clip a off len ≡ min len (a.bit_size - off)
unfolding clip
clip_lem a off len h = ground (arith, mod-eq_of_lt h)

from-data : (d : Bytes) (n : ℕ) → (from d n).data_ ≡ d
unfolding from
from-data d n = refl

get_view :
    (a : BitArray) (off len : ℕ)
    → clip a off len + 7 < 2 ^ 64
    → to_array (get a off len) ≡ tabulate (clip a off len) (λ i. read_bit a.data_ (off + i))
get_view a off len lt =
    let n = clip a off len in
    let h = get-Filled a off n in
    ap to_array (get_lem a off len lt)
    ∙ view_of (from (get_bits a off n) n) n (λ i. read_bit a.data_ (off + i))
        (from-IsValid (get_bits a off n) n h.bytes (h.size ∙ length-zeros (byte_size n))).1
        (λ i lt. ap (λ t. read_bit t i) (from-data (get_bits a off n) n) ∙ h.written i lt)

-- `get` returns a valid array of the bits of the range, as many as there are of them: none from past the
-- end of the array. Neither the end of the range nor the rounding of the array's size up to whole bytes
-- wraps around in 64 bits.
pub to_array-get :
    (a : BitArray) (off len : ℕ)
    → off + len < 2 ^ 64
    → a.bit_size + 7 < 2 ^ 64
    → IsValid (get a off len) × (to_array (get a off len) ≡ take len (drop off (to_array a)))
to_array-get a off len h size =
    let clipped = clip_lem a off len h in
    let lt : clip a off len + 7 < 2 ^ 64 = omega (arith, clipped, size) in
    (
      get-IsValid a off len lt,
      get_view a off len lt
          ∙ rw (clipped, to_array-tabulate a)
              (sym (take-drop-tabulate a.bit_size off len (read_bit a.data_))),
    )

-- `operator+` puts the bits of the second array behind those of the first.
pub to_array-concat : (a b : BitArray) → to_array (concat a b) ≡ to_array a ++ to_array b
to_array-concat a b =
    view_of (concat a b) total (read_bit (all_bits a b)) size (λ i _. ap (λ d. read_bit d i) vector)
    ∙ tabulate-append a.bit_size b.bit_size total (read_bit a.data_) (read_bit b.data_)
        (read_bit (all_bits a b)) refl
        (λ i lt.
          (all-Filled a b).kept i (λ k _ e. absurd (omega arith))
          ∙ (front-Filled a total (omega arith)).written i lt)
        (λ i lt. (all-Filled a b).written i lt)
    ∙ sym (ap₂ ◌++◌ (to_array-tabulate a) (to_array-tabulate b))
  where
    total : ℕ
    total = a.bit_size + b.bit_size

    size : (concat a b).bit_size ≡ total
    size =
        unfold concat in
        (from-IsValid (all_bits a b) total (all-Filled a b).bytes (length-all_bits a b)).1

    vector : (concat a b).data_ ≡ all_bits a b
    vector = unfold concat in from-data (all_bits a b) total

-- On a valid array, at an offset within it, `merge` returns true and puts the bits of the other
-- array in their place, as many as there is room for, and leaves those around them.
pub to_array-merge :
    (a b : BitArray) (off : ℕ)
    → IsValid a
    → off < a.bit_size
    → ((merge a b off).1 ≡ true)
      × (to_array (merge a b off).0
          ≡ take off (to_array a)
            ++ (take (a.bit_size - off) (to_array b)
                ++ drop (off + min b.bit_size (a.bit_size - off)) (to_array a)))
to_array-merge a b off v lt = (
  (unfold merge in rw inside),
  view_of (merge a b off).0 a.bit_size (read_bit merged) (unfold merge in rw inside)
        (λ i _. unfold merge in rw inside)
      ∙ tabulate-append off (n + rest) a.bit_size (read_bit a.data_)
          (λ i. read_bit merged (off + i)) (read_bit merged) (omega arith)
          (λ i below. h.kept i (λ k _ e. absurd (omega arith))) (λ i _. refl)
      ∙ ap₂ ◌++◌ front (
          tabulate-append n rest (n + rest) (read_bit b.data_) (λ i. read_bit a.data_ (off + n + i))
            (λ i. read_bit merged (off + i)) refl (λ i below. h.written i below)
            (λ i below.
              ap (read_bit merged) (sym (add_assoc off n i))
              ∙ h.kept (off + n + i) (λ k less e. absurd (omega arith)))
          ∙ ap₂ ◌++◌ middle back),
)
  where
    n : ℕ
    n = min b.bit_size (a.bit_size - off)

    rest : ℕ
    rest = a.bit_size - off - n

    merged : Bytes
    merged = for_range n 0 (λ i d. write_bit d (off + i) (read_bit b.data_ i)) a.data_

    inside : leb a.bit_size off ≡ false
    inside = ground arith

    h : Filled a.data_ merged (λ i. off + i) (read_bit b.data_) n
    h = merge-Filled a b off n v (omega arith)

    front : tabulate off (read_bit a.data_) ≡ take off (to_array a)
    front =
        rw (to_array-tabulate a)
          (sym (take-tabulate off a.bit_size (read_bit a.data_) (omega arith)))

    middle : tabulate n (read_bit b.data_) ≡ take (a.bit_size - off) (to_array b)
    middle =
        let least : min (a.bit_size - off) b.bit_size ≡ n = omega arith in
        rw (to_array-tabulate b) (
          sym (
            take-tabulate-min (a.bit_size - off) b.bit_size (read_bit b.data_)
            ∙ ap (λ k. tabulate k (read_bit b.data_)) least))

    back : tabulate rest (λ i. read_bit a.data_ (off + n + i)) ≡ drop (off + n) (to_array a)
    back =
        rw (to_array-tabulate a)
          (sym (drop-tabulate (off + n) rest a.bit_size (read_bit a.data_) (omega arith)))

-- `reverser` reverses the bits of a valid array.
pub to_array-reverser : (a : BitArray) → IsValid a → to_array (reverser a) ≡ reverse (to_array a)
to_array-reverser a v = elim (Bool-cases (is_empty a.data_ || a.bit_size == 0)) [
  | inl e ↦
      let none : a.bit_size ≡ 0 = nothing e in
      let view : to_array a ≡ [] =
        to_array-tabulate a ∙ ap (λ k. tabulate k (read_bit a.data_)) none in
      let fixed : reverser a ≡ a = unfold reverser in rw e in rw (fixed, view)
  | inr e ↦
      view_of (reverser a) a.bit_size (read_bit (reversed_bits a)) (unfold reverser in rw e)
        (λ i _. unfold reverser in rw e)
      ∙ reverse-tabulate a.bit_size (read_bit a.data_) (read_bit (reversed_bits a)) (λ i lt.
        let from_back : a.bit_size - 1 - (a.bit_size - suc i) ≡ i = omega arith in
        ap (read_bit (reversed_bits a)) (sym from_back)
        ∙ (reversed-Filled a).written (a.bit_size - suc i) (omega arith))
      ∙ ap reverse (sym (to_array-tabulate a))
]
  where
    nothing : (is_empty a.data_ || a.bit_size == 0) ≡ true → a.bit_size ≡ 0
    nothing e = ground (arith, v.room)
