-- ===== src/BitArray/Tests.antt =====
-- The laws of the bit array at concrete arrays.
use jaytwo_library.Prelude.{◌≡◌, arith, true, [], ◌∷◌, ◌++◌, take, drop, reverse}
use jaytwo_library.BitArray.{BitArray, get, merge, to_array, reverser}
use jaytwo_library.BitArray.Valid.{IsValid}
use jaytwo_library.BitArray.Views.{to_array-get, to_array-merge, to_array-reverser}

-- Twelve bits, 10110000 1111.
abbrev twelve : BitArray
twelve = record { data_ = 176 ∷ 240 ∷ []; bit_size = 12 }

-- Three bits, 101.
abbrev three : BitArray
three = record { data_ = 160 ∷ []; bit_size = 3 }

twelve-IsValid : IsValid twelve
twelve-IsValid = record {
  bytes = (omega arith, (omega arith, tt));
  room = omega arith;
  none_unused = λ e. omega (arith, e);
}

to_array-merge_example :
    ((merge twelve three 10).1 ≡ true)
    × (to_array (merge twelve three 10).0
        ≡ take 10 (to_array twelve) ++ (take 2 (to_array three) ++ drop 12 (to_array twelve)))
to_array-merge_example = to_array-merge twelve three 10 twelve-IsValid (omega arith)

to_array-reverser_example : to_array (reverser twelve) ≡ reverse (to_array twelve)
to_array-reverser_example = to_array-reverser twelve twelve-IsValid

-- Three bits are left from the ninth on.
to_array-get_example :
    IsValid (get twelve 9 100) × (to_array (get twelve 9 100) ≡ take 100 (drop 9 (to_array twelve)))
to_array-get_example = to_array-get twelve 9 100 (omega arith) (omega arith)
