-- ===== src/BitArray.antt =====
-- The class `bit_array` of j2_library/src/bit/bit_array.cpp. Bit `i` stands in byte `i / 8`, the
-- highest first. A read or write past the end of the vector is undefined in the source; the model
-- reads 0 and writes nothing there, and `IsValid` rules it out.
pub mod Bits
pub mod Fill
pub mod Valid
pub mod Views
pub mod Shifts
mod Tests
use Prim.Native.Nat.{bit_and, bit_or}
use jaytwo_library.Prelude.{
  ℕ, ◌+◌, ◌-◌, ◌*◌, ◌/◌, ◌%◌, ◌^◌, zero, suc, min, Bool, true, false, List, [], ◌∷◌, ◌++◌, Bytes,
  length, set, get_or, replicate, if◌then◌else◌, ltb, leb, ◌==◌, is_empty, ◌||◌, for_range,
}

pub record BitArray : Type 0 where
  pub data_ : Bytes
  pub bit_size : ℕ

-- `(b >> (7 - k)) & 1`.
abbrev pub bit : ℕ → ℕ → Bool
bit b k = (b / 2 ^ (7 - k)) % 2 == 1

-- `b | (1 << (7 - k))` and `b & ~(1 << (7 - k))`, stored in a byte.
abbrev pub put : ℕ → ℕ → Bool → ℕ
put b k true = bit_or b (2 ^ (7 - k))
put b k false = bit_and b (255 - 2 ^ (7 - k))

unfoldable pub read_bit : Bytes → ℕ → Bool
read_bit d i = bit (get_or d (i / 8) 0) (i % 8)

unfoldable pub write_bit : Bytes → ℕ → Bool → Bytes
write_bit d i v = set d (i / 8) (put (get_or d (i / 8) 0) (i % 8) v)

-- `b |= (bit << (7 - k))`: a bit that is not set leaves the byte.
unfoldable pub or_bit : Bytes → ℕ → Bool → Bytes
or_bit d i v = if v then write_bit d i true else d

abbrev pub byte_size : ℕ → ℕ
byte_size bits = (bits + 7) / 8

-- `std::vector<uint8_t>(n, 0)`.
abbrev pub zeros : ℕ → Bytes
zeros n = replicate n 0

-- `from`, and the constructor that calls it.
unfoldable pub from : Bytes → ℕ → BitArray
from bytes bits = record { data_ = bytes; bit_size = if bits == 0 then length bytes * 8 else bits }

unfoldable pub cleared : BitArray
cleared = record { data_ = []; bit_size = 0 }

unfoldable pub set_bytes : ℕ → BitArray
set_bytes size = record { data_ = zeros size; bit_size = size * 8 }

unfoldable pub set_bits : ℕ → BitArray
set_bits size = record { data_ = zeros (byte_size size); bit_size = size }

-- `bitOffset + bitLength` is computed in 64 bits, and so is `bitLength + 7` in `get`.
unfoldable pub clip : BitArray → ℕ → ℕ → ℕ
clip a off len =
    if ltb a.bit_size ((off + len) % 2 ^ 64)
    then if ltb off a.bit_size then a.bit_size - off else 0
    else len

unfoldable pub get : BitArray → ℕ → ℕ → BitArray
unfolding clip
get a off len =
    let n = clip a off len in
    from
      (for_range n 0 (λ i sub. or_bit sub i (read_bit a.data_ (off + i)))
        (zeros ((n + 7) % 2 ^ 64 / 8)))
      n

-- The array, and whether anything was merged.
unfoldable pub merge : BitArray → BitArray → ℕ → BitArray × Bool
merge a input off =
    if leb a.bit_size off
    then (a, false)
    else let n = min input.bit_size (a.bit_size - off) in
      (
        record a {
          data_ = for_range n 0 (λ i d. write_bit d (off + i) (read_bit input.data_ i)) a.data_;
        },
        true,
      )

-- `operator+`.
unfoldable pub concat : BitArray → BitArray → BitArray
concat a b =
    let total = a.bit_size + b.bit_size in
    let first =
      for_range a.bit_size 0 (λ i d. or_bit d i (read_bit a.data_ i)) (zeros (byte_size total)) in
    from (for_range b.bit_size 0 (λ i d. or_bit d (a.bit_size + i) (read_bit b.data_ i)) first)
      total

-- `to_array`: bit by bit, `push_back` for each.
unfoldable pub to_array : BitArray → List Bool
to_array a = for_range a.bit_size 0 (λ i out. out ++ read_bit a.data_ i ∷ []) []

-- `operator<<`: a bit that comes from past the end is cleared.
unfoldable pub shift_left : BitArray → ℕ → BitArray
shift_left a shift =
    let result = from a.data_ a.bit_size in
    if leb a.bit_size shift
    then record result { data_ = zeros (byte_size a.bit_size) }
    else record result {
      data_ =
          for_range a.bit_size 0
            (λ i d.
              write_bit d i
                (if ltb (i + shift) a.bit_size then read_bit a.data_ (i + shift) else false))
            result.data_;
    }

-- `operator>>`.
unfoldable pub shift_right : BitArray → ℕ → BitArray
shift_right a shift =
    let result = from a.data_ a.bit_size in
    if leb a.bit_size shift
    then record result { data_ = zeros (byte_size a.bit_size) }
    else record result {
      data_ =
          for_range a.bit_size 0
            (λ i d.
              let source = if leb shift i then i - shift else a.bit_size in
              write_bit d i (if ltb source a.bit_size then read_bit a.data_ source else false))
            result.data_;
    }

unfoldable pub reverser : BitArray → BitArray
reverser a = if is_empty a.data_ || a.bit_size == 0 then a else record a {
  data_ =
      for_range a.bit_size 0 (λ i d. or_bit d (a.bit_size - 1 - i) (read_bit a.data_ i))
        (zeros (byte_size a.bit_size));
}
