-- ===== src/BitArray/Valid.antt =====
-- The invariant of a bit array, under each operation.
use native.Mathlib.Nat.{mod-eq_of_lt}
use jaytwo_library.Prelude.{
  ◌<◌, ◌^◌, refl, subst, sym, ℕ, ◌+◌, ◌-◌, ◌*◌, ◌≤◌, zero, suc, min, Bytes, length, leb, ◌==◌, ◌≡◌,
  ◌∙◌, arith, inl, inr, Bool-cases, length-replicate, for_range, is_empty, ◌||◌,
}
use jaytwo_library.BitArray.{
  BitArray, read_bit, write_bit, or_bit, from, clip, get, merge, concat, reverser, byte_size, zeros,
}
use jaytwo_library.BitArray.Bits.{AllBytes, read_bit-zeros, zeros-AllBytes}
use jaytwo_library.BitArray.Fill.{Filled, write_Filled, or_Filled}

-- The vector holds every bit, in bytes, and an array of no bits has no bytes.
pub record IsValid (a : BitArray) : Type 0 where
  pub bytes : AllBytes a.data_
  pub room : a.bit_size ≤ length a.data_ * 8
  pub none_unused : a.bit_size ≡ 0 → length a.data_ ≡ 0

-- The vector that `n` bits were copied into is a valid array of `n` bits.
pub from-IsValid :
    (d : Bytes) (n : ℕ)
    → AllBytes d
    → length d ≡ byte_size n
    → IsValid (from d n) × ((from d n).bit_size ≡ n)
unfolding from
from-IsValid d zero h e =
    (record { bytes = h; room = omega arith; none_unused = λ _. omega arith }, omega arith)
from-IsValid d (suc n) h e =
    let size : (from d (suc n)).bit_size ≡ suc n = ground arith in
    (
      record {
        bytes = h;
        room = omega (arith, size);
        none_unused = λ z. absurd (omega (arith, size));
      },
      size,
    )

pub length-zeros : (n : ℕ) → length (zeros n) ≡ n
length-zeros n = length-replicate n 0

-- `get` fills a vector of its own.
abbrev pub get_bits : BitArray → ℕ → ℕ → Bytes
get_bits a off n =
    for_range n 0 (λ i sub. or_bit sub i (read_bit a.data_ (off + i))) (zeros (byte_size n))

pub get-Filled :
    (a : BitArray) (off n : ℕ)
    → Filled (zeros (byte_size n)) (get_bits a off n) (λ i. i) (λ i. read_bit a.data_ (off + i)) n
get-Filled a off n =
    or_Filled (zeros (byte_size n)) (λ i. i) (λ i. read_bit a.data_ (off + i)) n
      (zeros-AllBytes (byte_size n)) (λ i lt. omega (arith, length-zeros (byte_size n)))
      (λ i j _ _ e. e) (λ i _. read_bit-zeros (byte_size n) i)

-- A length that does not wrap has room in the vector.
pub get_lem :
    (a : BitArray) (off len : ℕ)
    → clip a off len + 7 < 2 ^ 64
    → get a off len ≡ from (get_bits a off (clip a off len)) (clip a off len)
unfolding get
get_lem a off len h = rw (mod-eq_of_lt h) refl

pub get-IsValid :
    (a : BitArray) (off len : ℕ) → clip a off len + 7 < 2 ^ 64 → IsValid (get a off len)
get-IsValid a off len lt =
    let n = clip a off len in
    let h = get-Filled a off n in
    subst IsValid (sym (get_lem a off len lt))
      ((from-IsValid (get_bits a off n) n h.bytes (h.size ∙ length-zeros (byte_size n))).0)

-- `operator+` fills the front, and then the back.
abbrev pub front_bits : BitArray → ℕ → Bytes
front_bits a total =
    for_range a.bit_size 0 (λ i d. or_bit d i (read_bit a.data_ i)) (zeros (byte_size total))

abbrev pub all_bits : BitArray → BitArray → Bytes
all_bits a b =
    for_range b.bit_size 0 (λ i d. or_bit d (a.bit_size + i) (read_bit b.data_ i))
      (front_bits a (a.bit_size + b.bit_size))

pub front-Filled :
    (a : BitArray) (total : ℕ)
    → a.bit_size ≤ total
    → Filled (zeros (byte_size total)) (front_bits a total) (λ i. i) (read_bit a.data_) a.bit_size
front-Filled a total le =
    or_Filled (zeros (byte_size total)) (λ i. i) (read_bit a.data_) a.bit_size
      (zeros-AllBytes (byte_size total)) (λ i lt. omega (arith, length-zeros (byte_size total)))
      (λ i j _ _ e. e) (λ i _. read_bit-zeros (byte_size total) i)

pub all-Filled :
    (a b : BitArray)
    → Filled
        (front_bits a (a.bit_size + b.bit_size))
        (all_bits a b)
        (λ i. a.bit_size + i)
        (read_bit b.data_)
        b.bit_size
all-Filled a b =
    let total = a.bit_size + b.bit_size in
    let front = front-Filled a total (omega arith) in
    or_Filled (front_bits a total) (λ i. a.bit_size + i) (read_bit b.data_) b.bit_size front.bytes
      (λ i lt. omega (arith, front.size, length-zeros (byte_size total))) (λ i j _ _ e. omega arith)
      (λ i _.
        front.kept (a.bit_size + i) (λ j below e. absurd (omega arith))
        ∙ read_bit-zeros (byte_size total) (a.bit_size + i))

pub length-all_bits : (a b : BitArray) → length (all_bits a b) ≡ byte_size (a.bit_size + b.bit_size)
length-all_bits a b =
    let total = a.bit_size + b.bit_size in
    (all-Filled a b).size
    ∙ (front-Filled a total (omega arith)).size
    ∙ length-zeros (byte_size total)

pub concat-IsValid : (a b : BitArray) → IsValid (concat a b)
unfolding concat
concat-IsValid a b =
    (from-IsValid (all_bits a b) (a.bit_size + b.bit_size) (all-Filled a b).bytes
      (length-all_bits a b)).0

-- Writing over bits within the vector keeps its size.
pub merge-Filled :
    (a b : BitArray) (off n : ℕ)
    → IsValid a
    → off + n ≤ a.bit_size
    → Filled a.data_
        (for_range n 0 (λ i d. write_bit d (off + i) (read_bit b.data_ i)) a.data_)
        (λ i. off + i)
        (read_bit b.data_)
        n
merge-Filled a b off n v le =
    write_Filled a.data_ (λ i. off + i) (read_bit b.data_) n v.bytes (λ i lt. omega (arith, v.room))
      (λ i j _ _ e. omega arith)

-- Merging into a valid array leaves it valid, at every offset and also where it refuses.
pub merge-IsValid : (a b : BitArray) (off : ℕ) → IsValid a → IsValid (merge a b off).0
unfolding merge
merge-IsValid a b off v = elim (Bool-cases (leb a.bit_size off)) [
  | inl e ↦ rw e v
  | inr e ↦
      let n = min b.bit_size (a.bit_size - off) in
      let h = merge-Filled a b off n v (ground arith) in
      rw e (record {
        bytes = h.bytes;
        room = omega (arith, h.size, v.room);
        none_unused = λ z. h.size ∙ v.none_unused z;
      })
]

-- `reverser` fills a vector of its own from the back.
abbrev pub reversed_bits : BitArray → Bytes
reversed_bits a =
    for_range a.bit_size 0 (λ i d. or_bit d (a.bit_size - 1 - i) (read_bit a.data_ i))
      (zeros (byte_size a.bit_size))

pub reversed-Filled :
    (a : BitArray)
    → Filled
        (zeros (byte_size a.bit_size))
        (reversed_bits a)
        (λ i. a.bit_size - 1 - i)
        (read_bit a.data_)
        a.bit_size
reversed-Filled a =
    or_Filled (zeros (byte_size a.bit_size)) (λ i. a.bit_size - 1 - i) (read_bit a.data_) a.bit_size
      (zeros-AllBytes (byte_size a.bit_size))
      (λ i lt. omega (arith, length-zeros (byte_size a.bit_size)))
      (λ i j below below' e. omega arith)
      (λ i _. read_bit-zeros (byte_size a.bit_size) (a.bit_size - 1 - i))

-- Reversing a valid array leaves it valid.
pub reverser-IsValid : (a : BitArray) → IsValid a → IsValid (reverser a)
unfolding reverser
reverser-IsValid a v = elim (Bool-cases (is_empty a.data_ || a.bit_size == 0)) [
  | inl e ↦ rw e v
  | inr e ↦
      let h = reversed-Filled a in
      rw e (record {
        bytes = h.bytes;
        room = omega (arith, h.size, length-zeros (byte_size a.bit_size));
        none_unused = λ z. omega (arith, h.size, length-zeros (byte_size a.bit_size));
      })
]
