-- ===== src/BitArray/Bits.antt =====
-- Reading a bit that was written, over one byte by a table and over a vector of bytes.
use jaytwo_library.Prelude.{
  throughout, throughout_at, ℕ, ◌-◌, ◌*◌, ◌/◌, ◌%◌, ◌^◌, ◌<◌, zero, suc, Bool, true, false, not,
  ◌&&◌, [], ◌∷◌, Bytes, length, set, get_or, if◌then◌else◌, ltb, ◌==◌, ◌≡◌, ◌≢◌, refl, sym, ap, ◌∙◌,
  arith, All, length-set, inl, inr, Bool-cases, replicate, ltb→lt,
}
use jaytwo_library.BitArray.{bit, put, read_bit, write_bit, or_bit}

same : Bool → Bool → Bool
same true b = b
same false b = not b

same_eq : (a b : Bool) → same a b ≡ true → a ≡ b
unfolding same
same_eq true true h = refl
same_eq true false h = cc
same_eq false true h = cc
same_eq false false h = refl

-- What `put` must do to a byte, as a test.
put_test : Bool → ℕ → ℕ → ℕ → Bool
put_test v b k j = ltb (put b k v) 256 && same (bit (put b k v) j) (if k == j then v else bit b j)

-- The test for a byte and a bit of it, at every other bit; for a byte, at every bit.
put_row : Bool → ℕ → ℕ → Bool
unfolding throughout
put_row v b k = throughout (put_test v b k) 8

put_byte : Bool → ℕ → Bool
unfolding throughout
put_byte v b = throughout (put_row v b) 8

put_table : (v : Bool) → throughout (put_byte v) 256 ≡ true
unfolding throughout put_byte put_row put_test same
put_table true = refl
put_table false = refl

put_checked : (v : Bool) (b k j : ℕ) → b < 256 → k < 8 → j < 8 → put_test v b k j ≡ true
unfolding put_byte put_row
put_checked v b k j hb hk hj =
    let byte : put_byte v b ≡ true = throughout_at (put_byte v) 256 b hb (put_table v) in
    let row : put_row v b k ≡ true = throughout_at (put_row v b) 8 k hk byte in
    throughout_at (put_test v b k) 8 j hj row

and_left : (a b : Bool) → (a && b) ≡ true → a ≡ true
and_left true b h = refl
and_left false b h = cc

and_right : (a b : Bool) → (a && b) ≡ true → b ≡ true
and_right true b h = h
and_right false b h = cc

pub bit-put :
    (v : Bool) (b k j : ℕ)
    → b < 256
    → k < 8
    → j < 8
    → bit (put b k v) j ≡ (if k == j then v else bit b j)
unfolding put_test
bit-put v b k j hb hk hj = same_eq _ _ (and_right _ _ (put_checked v b k j hb hk hj))

pub put-byte : (v : Bool) (b k : ℕ) → b < 256 → k < 8 → put b k v < 256
unfolding put_test
put-byte v b k hb hk =
    ltb→lt (put b k v) 256 (and_left _ _ (put_checked v b k 0 hb hk (omega arith)))

abbrev pub AllBytes : Bytes → Type 0
AllBytes = All (λ b. b < 256)

get_or-byte : (d : Bytes) (i : ℕ) → AllBytes d → get_or d i 0 < 256
get_or-byte [] i h = omega arith
get_or-byte (b ∷ d) zero h = h.0
get_or-byte (b ∷ d) (suc i) h = get_or-byte d i h.1

set-AllBytes : (d : Bytes) (i v : ℕ) → AllBytes d → v < 256 → AllBytes (set d i v)
set-AllBytes [] i v h lt = tt
set-AllBytes (b ∷ d) zero v h lt = (lt, h.1)
set-AllBytes (b ∷ d) (suc i) v h lt = (h.0, set-AllBytes d i v h.1 lt)

get_or-set_self : (d : Bytes) (i v : ℕ) → i < length d → get_or (set d i v) i 0 ≡ v
get_or-set_self [] i v h = absurd (omega arith)
get_or-set_self (b ∷ d) zero v h = refl
get_or-set_self (b ∷ d) (suc i) v h = get_or-set_self d i v (omega arith)

get_or-set_ne : (d : Bytes) (i j v : ℕ) → i ≢ j → get_or (set d i v) j 0 ≡ get_or d j 0
get_or-set_ne [] i j v h = refl
get_or-set_ne (b ∷ d) zero zero v h = absurd (h refl)
get_or-set_ne (b ∷ d) zero (suc j) v h = refl
get_or-set_ne (b ∷ d) (suc i) zero v h = refl
get_or-set_ne (b ∷ d) (suc i) (suc j) v h = get_or-set_ne d i j v (λ e. h (ap suc e))

pub write_bit-AllBytes : (d : Bytes) (i : ℕ) (v : Bool) → AllBytes d → AllBytes (write_bit d i v)
unfolding write_bit
write_bit-AllBytes d i v h =
    set-AllBytes d (i / 8) _ h
      (put-byte v (get_or d (i / 8) 0) (i % 8) (get_or-byte d (i / 8) h) (omega arith))

pub length-write_bit : (d : Bytes) (i : ℕ) (v : Bool) → length (write_bit d i v) ≡ length d
unfolding write_bit
length-write_bit d i v = length-set d (i / 8) _

-- A bit within the vector reads what was written last there.
pub read_bit-write_bit :
    (d : Bytes) (i j : ℕ) (v : Bool)
    → AllBytes d
    → i < length d * 8
    → read_bit (write_bit d i v) j ≡ (if i == j then v else read_bit d j)
unfolding read_bit write_bit
read_bit-write_bit d i j v h lt = elim (Bool-cases (i / 8 == j / 8)) [
  | inl e ↦
      let at : i / 8 ≡ j / 8 = ground arith in
      let test : (i % 8 == j % 8) ≡ (i == j) = ground arith in
      rw (← at, get_or-set_self d (i / 8) _ (omega arith))
        (bit-put v (get_or d (i / 8) 0) (i % 8) (j % 8) (get_or-byte d (i / 8) h) (omega arith)
            (omega arith)
          ∙ ap (λ t. if t then v else bit (get_or d (i / 8) 0) (j % 8)) test)
  | inr e ↦
      let apart : i / 8 ≢ j / 8 = ground arith in
      let test : (i == j) ≡ false = ground arith in
      rw (get_or-set_ne d (i / 8) (j / 8) _ apart, test)
]

-- `|=` with a bit sets it, and keeps one that is set.
pub read_bit-or_bit :
    (d : Bytes) (i j : ℕ) (v : Bool)
    → AllBytes d
    → i < length d * 8
    → read_bit d i ≡ false
    → read_bit (or_bit d i v) j ≡ (if i == j then v else read_bit d j)
unfolding or_bit
read_bit-or_bit d i j true h lt clear = read_bit-write_bit d i j true h lt
read_bit-or_bit d i j false h lt clear = elim (Bool-cases (i == j)) [
  | inl e ↦ let at : i ≡ j = ground arith in rw e (ap (read_bit d) (sym at) ∙ clear)
  | inr e ↦ rw e
]

pub or_bit-AllBytes : (d : Bytes) (i : ℕ) (v : Bool) → AllBytes d → AllBytes (or_bit d i v)
unfolding or_bit
or_bit-AllBytes d i true h = write_bit-AllBytes d i true h
or_bit-AllBytes d i false h = h

pub length-or_bit : (d : Bytes) (i : ℕ) (v : Bool) → length (or_bit d i v) ≡ length d
unfolding or_bit
length-or_bit d i true = length-write_bit d i true
length-or_bit d i false = refl

zero_get : (n i : ℕ) → get_or {A = ℕ} (replicate n 0) i 0 ≡ 0
zero_get zero i = refl
zero_get (suc n) zero = refl
zero_get (suc n) (suc i) = zero_get n i

bit_zero : (k : ℕ) → bit 0 k ≡ false
bit_zero k = let none : 0 / 2 ^ (7 - k) ≡ 0 = omega arith in rw none

pub read_bit-zeros : (n i : ℕ) → read_bit (replicate n 0) i ≡ false
unfolding read_bit
read_bit-zeros n i = ap (λ b. bit b (i % 8)) (zero_get n (i / 8)) ∙ bit_zero (i % 8)

pub zeros-AllBytes : (n : ℕ) → AllBytes (replicate n 0)
zeros-AllBytes zero = tt
zeros-AllBytes (suc n) = (omega arith, zeros-AllBytes n)
