-- ===== src/Base/Bits/Laws.antt =====
-- Laws of `&` and `|` at variables: each splits at any bit position, so that an operation with a
-- numeral mask becomes linear arithmetic on quotients and remainders by powers of two.
use rv64i_simulator.Base.Bits.Digits.{bit_and_step, bit_or_step, bit_xor_step}
use Prim.Native.Nat.{
  ℕ, zero, suc, ◌+◌, ◌-◌, ◌*◌, ◌/◌, ◌%◌, ◌^◌, ◌<◌, ◌≤◌, bit_and, bit_or, min, max, bit_and-bitwise,
  bit_xor, differ, bit_or-bitwise,
}
use mathlib.Core.Path.{◌≡◌, refl}
use native.Mathlib.Nat.{pow-suc, one-le-pow, mod-eq_of_lt, mul_comm}
use native.Mathlib.Omega.{arith}

and_zero_upto : (bound x : ℕ) → x ≤ bound → bit_and x 0 ≡ 0
and_zero_upto zero zero below = refl
and_zero_upto (suc bound) zero below = refl
and_zero_upto zero (suc x) below = absurd (omega arith)
and_zero_upto (suc bound) (suc x) below =
    omega (bit_and_step (suc x) 0, and_zero_upto bound (suc x / 2) (omega arith), arith)

pub bit_and-zero : (x : ℕ) → bit_and x 0 ≡ 0
bit_and-zero x = and_zero_upto x x (omega arith)

or_zero_upto : (bound x : ℕ) → x ≤ bound → bit_or x 0 ≡ x
or_zero_upto zero zero below = refl
or_zero_upto (suc bound) zero below = refl
or_zero_upto zero (suc x) below = absurd (omega arith)
or_zero_upto (suc bound) (suc x) below =
    omega (bit_or_step (suc x) 0, or_zero_upto bound (suc x / 2) (omega arith), arith)

pub bit_or-zero : (x : ℕ) → bit_or x 0 ≡ x
bit_or-zero x = or_zero_upto x x (omega arith)

div-two-mul : (a p : ℕ) → 0 < p → a / (2 * p) ≡ a / 2 / p
div-two-mul a p h = grind arith

mod-two-mul : (a p : ℕ) → 0 < p → a % (2 * p) ≡ a / 2 % p * 2 + a % 2
mod-two-mul a p h = grind arith

pub pow-pos : (k : ℕ) → 0 < 2 ^ k
pow-pos k = one-le-pow k 2 (omega arith)

bit_and-double :
    (x y c d : ℕ) → c < 2 → d < 2 → bit_and (x * 2 + c) (y * 2 + d) ≡ bit_and x y * 2 + min c d
bit_and-double x y c d h k = ground (arith, bit_and_step (x * 2 + c) (y * 2 + d))

bit_or-double :
    (x y c d : ℕ) → c < 2 → d < 2 → bit_or (x * 2 + c) (y * 2 + d) ≡ bit_or x y * 2 + max c d
bit_or-double x y c d h k = ground (arith, bit_or_step (x * 2 + c) (y * 2 + d))

-- `&` works on the bits above a position and on those below it apart.
pub bit_and_split :
    (k a b : ℕ)
    → bit_and a b ≡ bit_and (a / 2 ^ k) (b / 2 ^ k) * 2 ^ k + bit_and (a % 2 ^ k) (b % 2 ^ k)
bit_and_split zero a b = ground arith
bit_and_split (suc k) a b =
    rw
      (
        pow-suc 2 k,
        mul_comm (2 ^ k) 2,
        div-two-mul a (2 ^ k) (pow-pos k),
        div-two-mul b (2 ^ k) (pow-pos k),
        mod-two-mul a (2 ^ k) (pow-pos k),
        mod-two-mul b (2 ^ k) (pow-pos k),
        bit_and-double _ _ (a % 2) (b % 2) (omega arith) (omega arith),
      )
      (omega (arith, bit_and_step a b, bit_and_split k (a / 2) (b / 2)))

pub bit_or_split :
    (k a b : ℕ)
    → bit_or a b ≡ bit_or (a / 2 ^ k) (b / 2 ^ k) * 2 ^ k + bit_or (a % 2 ^ k) (b % 2 ^ k)
bit_or_split zero a b = ground arith
bit_or_split (suc k) a b =
    rw
      (
        pow-suc 2 k,
        mul_comm (2 ^ k) 2,
        div-two-mul a (2 ^ k) (pow-pos k),
        div-two-mul b (2 ^ k) (pow-pos k),
        mod-two-mul a (2 ^ k) (pow-pos k),
        mod-two-mul b (2 ^ k) (pow-pos k),
        bit_or-double _ _ (a % 2) (b % 2) (omega arith) (omega arith),
      )
      (omega (arith, bit_or_step a b, bit_or_split k (a / 2) (b / 2)))

-- A mask of `k` low bits is the remainder by `2 ^ k`.
pub bit_and_mask : (k a : ℕ) → bit_and a (2 ^ k - 1) ≡ a % 2 ^ k
bit_and_mask zero a = ground (arith, bit_and-zero a)
bit_and_mask (suc k) a =
    rw (pow-suc 2 k, mul_comm (2 ^ k) 2, mod-two-mul a (2 ^ k) (pow-pos k))
      (ground (arith, pow-pos k, bit_and_step a (2 * 2 ^ k - 1), bit_and_mask k (a / 2)))

pub zero-bit_and : (a : ℕ) → bit_and 0 a ≡ 0
zero-bit_and a = bit_and-bitwise 0 a

pub zero-bit_or : (a : ℕ) → bit_or 0 a ≡ a
zero-bit_or a = bit_or-bitwise 0 a

pub div_of_lt : (k r : ℕ) → r < 2 ^ k → r / 2 ^ k ≡ 0
div_of_lt k r h = grind arith

pub div_of_fields : (k q r : ℕ) → r < 2 ^ k → (q * 2 ^ k + r) / 2 ^ k ≡ q
div_of_fields k q r h = grind arith

pub mod_of_fields : (k q r : ℕ) → r < 2 ^ k → (q * 2 ^ k + r) % 2 ^ k ≡ r
mod_of_fields k q r h = grind arith

pub div_of_mul : (k q : ℕ) → q * 2 ^ k / 2 ^ k ≡ q
div_of_mul k q = grind (arith, pow-pos k)

pub mod_of_mul : (k q : ℕ) → q * 2 ^ k % 2 ^ k ≡ 0
mod_of_mul k q = grind (arith, pow-pos k)

-- Fields that do not overlap are joined by `|` as by `+`.
pub bit_or_fields : (k q r : ℕ) → r < 2 ^ k → bit_or (q * 2 ^ k) r ≡ q * 2 ^ k + r
bit_or_fields k q r h = rw (
  bit_or_split k (q * 2 ^ k) r,
  div_of_mul k q,
  mod_of_mul k q,
  div_of_lt k r h,
  mod-eq_of_lt h,
  bit_or-zero,
  zero-bit_or,
)

pub bit_or_above : (k q r : ℕ) → r < 2 ^ k → bit_or r (q * 2 ^ k) ≡ r + q * 2 ^ k
bit_or_above k q r h =
    rw
      (
        bit_or_split k r (q * 2 ^ k),
        div_of_mul k q,
        mod_of_mul k q,
        div_of_lt k r h,
        mod-eq_of_lt h,
        bit_or-zero,
        zero-bit_or,
      )
      (omega arith)

-- A mask of `w` bits from position `k` keeps that field of `a` in its place.
pub bit_and_field : (k w a : ℕ) → bit_and a ((2 ^ w - 1) * 2 ^ k) ≡ a / 2 ^ k % 2 ^ w * 2 ^ k
bit_and_field k w a =
    rw
      (
        bit_and_split k a ((2 ^ w - 1) * 2 ^ k),
        div_of_mul k (2 ^ w - 1),
        mod_of_mul k (2 ^ w - 1),
        bit_and-zero,
        bit_and_mask w (a / 2 ^ k),
      )
      (omega arith)

pub bit_and-le_left : (n a b : ℕ) → a ≤ n → bit_and a b ≤ a
bit_and-le_left n zero b h = omega (arith, zero-bit_and b)
bit_and-le_left zero (suc a) b h = absurd (omega arith)
bit_and-le_left (suc n) (suc a) b h =
    omega (arith, bit_and_step (suc a) b, bit_and-le_left n (suc a / 2) (b / 2) (omega arith))

-- `&` is at most its first operand.
pub bit_and-le : (a b : ℕ) → bit_and a b ≤ a
bit_and-le a b = bit_and-le_left a a b (omega arith)

pub bit_and_comm_fuel : (n a b : ℕ) → a ≤ n → bit_and a b ≡ bit_and b a
bit_and_comm_fuel n zero b h = omega (arith, zero-bit_and b, bit_and-zero b)
bit_and_comm_fuel zero (suc a) b h = absurd (omega arith)
bit_and_comm_fuel (suc n) (suc a) b h = omega (
  arith,
  bit_and_step (suc a) b,
  bit_and_step b (suc a),
  bit_and_comm_fuel n (suc a / 2) (b / 2) (omega arith),
)

pub bit_and_comm : (a b : ℕ) → bit_and a b ≡ bit_and b a
bit_and_comm a b = bit_and_comm_fuel a a b (omega arith)

-- `|` of two words of `k` bits is a word of `k` bits.
pub bit_or-lt : (k a b : ℕ) → a < 2 ^ k → b < 2 ^ k → bit_or a b < 2 ^ k
bit_or-lt zero a b h p = ground (arith, bit_or-zero 0)
bit_or-lt (suc k) a b h p =
    ground (arith, pow-suc 2 k, bit_or_step a b, bit_or-lt k (a / 2) (b / 2))

differ-lt : (x y : ℕ) → x < 2 → y < 2 → differ x y < 2
differ-lt zero y h p = p
differ-lt (suc zero) zero h p = omega arith
differ-lt (suc zero) (suc zero) h p = omega arith
differ-lt (suc zero) (suc (suc y)) h p = absurd (omega arith)
differ-lt (suc (suc x)) y h p = absurd (omega arith)

pub bit_xor-lt : (k a b : ℕ) → a < 2 ^ k → b < 2 ^ k → bit_xor a b < 2 ^ k
bit_xor-lt zero a b h p =
    let none_a : a ≡ 0 = omega arith in
    let none_b : b ≡ 0 = omega arith in rw (none_a, none_b) (omega arith)
bit_xor-lt (suc k) a b h p =
    ground (
      arith,
      pow-suc 2 k,
      bit_xor_step a b,
      differ-lt (a % 2) (b % 2),
      bit_xor-lt k (a / 2) (b / 2),
    )
