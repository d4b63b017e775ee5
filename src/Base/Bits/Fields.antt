-- ===== src/Base/Bits/Fields.antt =====
-- Clearing, setting and merging fields of a word.
use Prim.Native.Nat.{ℕ, zero, suc, ◌+◌, ◌-◌, ◌*◌, ◌/◌, ◌%◌, ◌^◌, ◌<◌, ◌≤◌, bit_and, bit_or}
use mathlib.Core.Path.{◌≡◌}
use native.Mathlib.Nat.{pow-suc, mod-eq_of_lt}
use native.Mathlib.Omega.{arith}
use rv64i_simulator.Base.Bits.Digits.{bit_and_step, bit_or_step}
use rv64i_simulator.Base.Bits.Laws.{
  bit_and-zero, zero-bit_and, zero-bit_or, bit_and_split, bit_and_field, pow-pos, div_of_mul,
  mod_of_mul, div_of_lt, div_of_fields, mod_of_fields,
}

-- `|` and `&` together have the digits of the sum.
bit_or-bit_and_fuel : (n a b : ℕ) → a ≤ n → bit_or a b + bit_and a b ≡ a + b
bit_or-bit_and_fuel n zero b h = omega (arith, bit_or_step 0 b, zero-bit_or b, zero-bit_and b)
bit_or-bit_and_fuel zero (suc a) b h = absurd (omega arith)
bit_or-bit_and_fuel (suc n) (suc a) b h = omega (
  arith,
  bit_or_step (suc a) b,
  bit_and_step (suc a) b,
  bit_or-bit_and_fuel n (suc a / 2) (b / 2) (omega arith),
)

pub bit_or-bit_and : (a b : ℕ) → bit_or a b + bit_and a b ≡ a + b
bit_or-bit_and a b = bit_or-bit_and_fuel a a b (omega arith)

-- A mask and its complement take a word apart.
pub bit_and_complement :
    (k x mask : ℕ) → x < 2 ^ k → mask < 2 ^ k → bit_and x (2 ^ k - 1 - mask) + bit_and x mask ≡ x
bit_and_complement zero x mask h g = ground (arith, zero-bit_and 0)
bit_and_complement (suc k) x mask h g = ground (
  arith,
  pow-suc 2 k,
  pow-pos k,
  bit_and_step x mask,
  bit_and_step x (2 ^ suc k - 1 - mask),
  bit_and_complement k (x / 2) (mask / 2),
)

-- What two disjoint masks keep does not overlap.
pub bit_and_disjoint :
    (k x y mask : ℕ) → mask < 2 ^ k → bit_and (bit_and x (2 ^ k - 1 - mask)) (bit_and y mask) ≡ 0
bit_and_disjoint zero x y mask g =
    let e : 2 ^ 0 - 1 - mask ≡ 0 = omega arith in rw (e, bit_and-zero, zero-bit_and)
bit_and_disjoint (suc k) x y mask g = ground (
  arith,
  pow-suc 2 k,
  pow-pos k,
  bit_and_step y mask,
  bit_and_step x (2 ^ suc k - 1 - mask),
  bit_and_step (bit_and x (2 ^ suc k - 1 - mask)) (bit_and y mask),
  bit_and_disjoint k (x / 2) (y / 2) (mask / 2),
)

-- A mask of `k` bits does not see what is above them.
pub bit_and_low : (k x mask : ℕ) → mask < 2 ^ k → bit_and x mask ≡ bit_and (x % 2 ^ k) mask
bit_and_low k x mask h =
    rw (bit_and_split k x mask, div_of_lt k mask h, bit_and-zero, mod-eq_of_lt h) (omega arith)

-- A field that is 0 is set by `|`.
pub bit_or_field :
    (k w x b : ℕ) → b < 2 ^ w → x / 2 ^ k % 2 ^ w ≡ 0 → bit_or x (b * 2 ^ k) ≡ x + b * 2 ^ k
bit_or_field k w x b h z = omega (arith, bit_or-bit_and x (b * 2 ^ k), overlap)
  where
    overlap : bit_and x (b * 2 ^ k) ≡ 0
    overlap =
        rw
          (
            bit_and_split k x (b * 2 ^ k),
            div_of_mul k b,
            mod_of_mul k b,
            bit_and-zero,
            bit_and_low w (x / 2 ^ k) b h,
            z,
            zero-bit_and,
          )
          (omega arith)

-- A merge of two words by a mask: the masked bits come from the second, the others from the first.
module _ (k x y mask : ℕ) (small : mask < 2 ^ k) where
  pub merge_sum :
      bit_or (bit_and x (2 ^ k - 1 - mask)) (bit_and y mask)
      ≡ bit_and x (2 ^ k - 1 - mask) + bit_and y mask
  merge_sum = omega (
    arith,
    bit_or-bit_and (bit_and x (2 ^ k - 1 - mask)) (bit_and y mask),
    bit_and_disjoint k x y mask small,
  )

-- Masking once more, with the mask or with its complement, on each digit.
pub bit_and_twice_fuel : (n a m : ℕ) → a ≤ n → bit_and (bit_and a m) m ≡ bit_and a m
bit_and_twice_fuel n zero m h = rw (zero-bit_and, zero-bit_and)
bit_and_twice_fuel zero (suc a) m h = absurd (omega arith)
bit_and_twice_fuel (suc n) (suc a) m h = ground (
  arith,
  bit_and_step (suc a) m,
  bit_and_step (bit_and (suc a) m) m,
  bit_and_twice_fuel n (suc a / 2) (m / 2),
)

pub bit_and_twice : (a m : ℕ) → bit_and (bit_and a m) m ≡ bit_and a m
bit_and_twice a m = bit_and_twice_fuel a a m (omega arith)

-- The merge read back through the mask is the second word, and through the complement the first.
pub merge_masked :
    (k x y mask : ℕ)
    → mask < 2 ^ k
    → bit_and (bit_or (bit_and x (2 ^ k - 1 - mask)) (bit_and y mask)) mask ≡ bit_and y mask
merge_masked zero x y mask g = let e : mask ≡ 0 = omega arith in rw e (simp bit_and-zero)
merge_masked (suc k) x y mask g = ground (
  arith,
  pow-suc 2 k,
  pow-pos k,
  bit_and_step y mask,
  bit_and_step x (2 ^ suc k - 1 - mask),
  bit_or_step (bit_and x (2 ^ suc k - 1 - mask)) (bit_and y mask),
  bit_and_step (bit_or (bit_and x (2 ^ suc k - 1 - mask)) (bit_and y mask)) mask,
  merge_masked k (x / 2) (y / 2) (mask / 2),
)

pub merge_unmasked :
    (k x y mask : ℕ)
    → mask < 2 ^ k
    → bit_and (bit_or (bit_and x (2 ^ k - 1 - mask)) (bit_and y mask)) (2 ^ k - 1 - mask)
      ≡ bit_and x (2 ^ k - 1 - mask)
merge_unmasked zero x y mask g =
    let e : 2 ^ 0 - 1 - mask ≡ 0 = omega arith in rw e (simp bit_and-zero)
merge_unmasked (suc k) x y mask g = ground (
  arith,
  pow-suc 2 k,
  pow-pos k,
  bit_and_step y mask,
  bit_and_step x (2 ^ suc k - 1 - mask),
  bit_or_step (bit_and x (2 ^ suc k - 1 - mask)) (bit_and y mask),
  bit_and_step (bit_or (bit_and x (2 ^ suc k - 1 - mask)) (bit_and y mask)) (2 ^ suc k - 1 - mask),
  merge_unmasked k (x / 2) (y / 2) (mask / 2),
)

-- A mask in two parts keeps the two fields apart.
pub bit_and_join :
    (k x hi lo : ℕ)
    → lo < 2 ^ k
    → bit_and x (hi * 2 ^ k + lo) ≡ bit_and (x / 2 ^ k) hi * 2 ^ k + bit_and x lo
bit_and_join k x hi lo h = rw (
  bit_and_split k x (hi * 2 ^ k + lo),
  div_of_fields k hi lo h,
  mod_of_fields k hi lo h,
  bit_and_low k x lo h,
)

-- Setting one bit adds its weight, unless it is set already.
pub bit_or_bit : (k x : ℕ) → bit_or x (1 * 2 ^ k) + x / 2 ^ k % 2 * 2 ^ k ≡ x + 1 * 2 ^ k
bit_or_bit k x = omega (arith, bit_or-bit_and x (1 * 2 ^ k), bit_and_field k 1 x)
