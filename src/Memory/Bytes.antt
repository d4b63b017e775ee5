-- ===== src/Memory/Bytes.antt =====
-- Little-endian words as sums of their bytes.
use rv64i_simulator.Base.{
  ℕ, ◌+◌, ◌*◌, ◌/◌, ◌%◌, ◌^◌, ◌<◌, ◌≡◌, bit_and, bit_or, ◌<<<◌, ◌>>>◌, arith,
}
use rv64i_simulator.Base.Bits.{bit_or_above, bit_and_mask}

-- `|` of shifted bytes is their sum.
pub or_of_two : (a b : ℕ) → a < 2 ^ 8 → bit_or a (b <<< 8) ≡ a + b * 2 ^ 8
or_of_two a b h = bit_or_above 8 b a h

pub or_of_four :
    (a b c d : ℕ)
    → a < 2 ^ 8
    → b < 2 ^ 8
    → c < 2 ^ 8
    → bit_or (bit_or (bit_or a (b <<< 8)) (c <<< 16)) (d <<< 24)
      ≡ a + b * 2 ^ 8 + c * 2 ^ 16 + d * 2 ^ 24
or_of_four a b c d ha hb hc =
    rw (or_of_two a b ha, bit_or_above 16 c (a + b * 2 ^ 8) (omega arith))
      (bit_or_above 24 d _ (omega arith))

pub or_of_eight :
    (a b c d e f g h : ℕ)
    → a < 2 ^ 8
    → b < 2 ^ 8
    → c < 2 ^ 8
    → d < 2 ^ 8
    → e < 2 ^ 8
    → f < 2 ^ 8
    → g < 2 ^ 8
    → bit_or
        (bit_or
          (bit_or
            (bit_or (bit_or (bit_or (bit_or a (b <<< 8)) (c <<< 16)) (d <<< 24)) (e <<< 32))
            (f <<< 40))
          (g <<< 48))
        (h <<< 56)
      ≡ a
        + b * 2 ^ 8
        + c * 2 ^ 16
        + d * 2 ^ 24
        + (e * 2 ^ 32 + f * 2 ^ 40 + g * 2 ^ 48 + h * 2 ^ 56)
or_of_eight a b c d e f g h ha hb hc hd he hf hg =
    rw
      (
        or_of_four a b c d ha hb hc,
        bit_or_above 32 e (a + b * 2 ^ 8 + c * 2 ^ 16 + d * 2 ^ 24) (omega arith),
        bit_or_above 40 f (a + b * 2 ^ 8 + c * 2 ^ 16 + d * 2 ^ 24 + e * 2 ^ 32) (omega arith),
        bit_or_above 48 g (a + b * 2 ^ 8 + c * 2 ^ 16 + d * 2 ^ 24 + e * 2 ^ 32 + f * 2 ^ 40)
            (omega arith),
      )
      (omega (
        arith,
        bit_or_above 56 h
            (a + b * 2 ^ 8 + c * 2 ^ 16 + d * 2 ^ 24 + e * 2 ^ 32 + f * 2 ^ 40 + g * 2 ^ 48)
            (omega arith),
      ))

pub byte_of : (k v : ℕ) → bit_and (v >>> k) 0xff ≡ v / 2 ^ k % 2 ^ 8
byte_of k v = bit_and_mask 8 (v / 2 ^ k)
