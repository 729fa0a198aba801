-- ===== src/U8String/Masks.antt =====
-- The masks of the decoder and the encoder as arithmetic on bytes.
use Prim.Native.Nat.{bit_and, bit_or}
use jaytwo_library.Prelude.{
  ℕ, ◌+◌, ◌*◌, ◌/◌, ◌%◌, ◌^◌, ◌<◌, Bool, true, ◌&&◌, ◌==◌, ◌≡◌, refl, ap, ◌∙◌, arith, throughout,
  throughout_at,
}
use jaytwo_library.Prelude.Mask.{bit_and-ones, bit_or-add}

-- The high bits of a byte.
high_test : ℕ → Bool
high_test b =
    (bit_and b 0x80 == b / 128 * 128)
    && ((bit_and b 0xC0 == b / 64 * 64)
        && ((bit_and b 0xE0 == b / 32 * 32)
            && ((bit_and b 0xF0 == b / 16 * 16) && (bit_and b 0xF8 == b / 8 * 8))))

pub record HighBits (b : ℕ) : Type 0 where
  pub one : bit_and b 0x80 ≡ b / 128 * 128
  pub two : bit_and b 0xC0 ≡ b / 64 * 64
  pub three : bit_and b 0xE0 ≡ b / 32 * 32
  pub four : bit_and b 0xF0 ≡ b / 16 * 16
  pub five : bit_and b 0xF8 ≡ b / 8 * 8

high_table : throughout high_test 256 ≡ true
unfolding throughout high_test
high_table = refl

pub high_bits : (b : ℕ) → b < 256 → HighBits b
unfolding high_test
high_bits b h =
    let e = throughout_at high_test 256 b h high_table in
    record {
      one = ground (arith, e);
      two = ground (arith, e);
      three = ground (arith, e);
      four = ground (arith, e);
      five = ground (arith, e);
    }

-- The low bits.
pub low_six : (b : ℕ) → bit_and b 0x3F ≡ b % 64
low_six b = bit_and-ones b 6

pub low_five : (b : ℕ) → bit_and b 0x1F ≡ b % 32
low_five b = bit_and-ones b 5

pub low_four : (b : ℕ) → bit_and b 0xF ≡ b % 16
low_four b = bit_and-ones b 4

pub low_three : (b : ℕ) → bit_and b 7 ≡ b % 8
low_three b = bit_and-ones b 3

-- The bits that the encoder puts under a mark.
pub cont_byte : (x : ℕ) → x < 64 → bit_or 0x80 x ≡ 128 + x
cont_byte x h = bit_or-add 2 6 x h

pub lead_two : (x : ℕ) → x < 32 → bit_or 0xC0 x ≡ 192 + x
lead_two x h = bit_or-add 6 5 x h

pub lead_three : (x : ℕ) → x < 16 → bit_or 0xE0 x ≡ 224 + x
lead_three x h = bit_or-add 14 4 x h

pub lead_four : (x : ℕ) → x < 8 → bit_or 0xF0 x ≡ 240 + x
lead_four x h = bit_or-add 30 3 x h

-- The bits that the decoder joins.
pub join_six : (a x : ℕ) → x < 64 → bit_or (a * 2 ^ 6) x ≡ a * 64 + x
join_six a x h = bit_or-add a 6 x h

pub join_three :
    (a b c : ℕ)
    → b < 64
    → c < 64
    → bit_or (bit_or (a * 2 ^ 12) (b * 2 ^ 6)) c ≡ a * 4096 + b * 64 + c
join_three a b c hb hc =
    ap (λ t. bit_or t c) (bit_or-add a 12 (b * 64) (omega (arith, hb)) ∙ regroup)
    ∙ bit_or-add (a * 64 + b) 6 c hc
    ∙ omega arith
  where
    regroup : a * 4096 + b * 64 ≡ (a * 64 + b) * 64
    regroup = omega arith

pub join_four :
    (a b c d : ℕ)
    → b < 64
    → c < 64
    → d < 64
    → bit_or (bit_or (bit_or (a * 2 ^ 18) (b * 2 ^ 12)) (c * 2 ^ 6)) d
      ≡ a * 262144 + b * 4096 + c * 64 + d
join_four a b c d hb hc hd =
    ap (λ t. bit_or (bit_or t (c * 64)) d)
      (bit_or-add a 18 (b * 4096) (omega (arith, hb)) ∙ regroup)
    ∙ join_three (a * 64 + b) c d hc hd
    ∙ omega arith
  where
    regroup : a * 262144 + b * 4096 ≡ (a * 64 + b) * 4096
    regroup = omega arith
