-- ===== src/Base/Words.antt =====
-- The fixed-width integers of C++: a `uintN_t` is a number below 2 ^ N, an `intN_t` is its bit
-- pattern. Casts, shifts, complement, sign extension, signed comparison and arithmetic shift.
use Prim.Native.Nat.{ℕ, ◌+◌, ◌-◌, ◌*◌, ◌/◌, ◌%◌, ◌^◌, ◌<◌, bit_and}
use mathlib.Core.Bool.{Bool, not}
use native.Mathlib.Omega.{arith}
use rv64i_simulator.Base.Tests.{ltb, ◌==◌, if◌then◌else◌}

abbrev pub u8 : ℕ → ℕ
u8 n = n % 2 ^ 8

abbrev pub u16 : ℕ → ℕ
u16 n = n % 2 ^ 16

abbrev pub u32 : ℕ → ℕ
u32 n = n % 2 ^ 32

abbrev pub u64 : ℕ → ℕ
u64 n = n % 2 ^ 64

-- The largest `uint64_t`.
abbrev pub ones64 : ℕ
ones64 = 2 ^ 64 - 1

infixl 75 ◌<<<◌ ◌>>>◌
abbrev pub ◌<<<◌ : ℕ → ℕ → ℕ
x <<< k = x * 2 ^ k

abbrev pub ◌>>>◌ : ℕ → ℕ → ℕ
x >>> k = x / 2 ^ k

-- `~x` on `uint64_t` and on `uint32_t`.
abbrev pub not64 : ℕ → ℕ
not64 x = ones64 - x

abbrev pub not32 : ℕ → ℕ
not32 x = 2 ^ 32 - 1 - x

-- `a - b` on `uint64_t` and on `uint32_t`.
abbrev pub sub64 : ℕ → ℕ → ℕ
sub64 a b = u64 (a + 2 ^ 64 - b)

abbrev pub sub32 : ℕ → ℕ → ℕ
sub32 a b = u32 (a + 2 ^ 32 - b)

-- An array or a register file with one entry replaced.
abbrev pub update {ℓ} : {A : Type ℓ} → (ℕ → A) → ℕ → A → ℕ → A
update f i v j = if j == i then v else f j

-- `(x & mask) != 0`.
abbrev pub any_set : ℕ → ℕ → Bool
any_set x mask = not (bit_and x mask == 0)

-- A signed pattern of 8, 16 or 32 bits, converted to 64 bits.
abbrev pub sx8 : ℕ → ℕ
sx8 x = if ltb x (2 ^ 7) then x else x + (2 ^ 64 - 2 ^ 8)

abbrev pub sx16 : ℕ → ℕ
sx16 x = if ltb x (2 ^ 15) then x else x + (2 ^ 64 - 2 ^ 16)

abbrev pub sx32 : ℕ → ℕ
sx32 x = if ltb x (2 ^ 31) then x else x + (2 ^ 64 - 2 ^ 32)

-- `a < b` on `int64_t` and on `int32_t`: flipping the sign bit turns it into the unsigned order.
abbrev pub slt64 : ℕ → ℕ → Bool
slt64 a b = ltb (u64 (a + 2 ^ 63)) (u64 (b + 2 ^ 63))

abbrev pub slt32 : ℕ → ℕ → Bool
slt32 a b = ltb (u32 (a + 2 ^ 31)) (u32 (b + 2 ^ 31))

-- `a >> k` on `int64_t` and on `int32_t` rounds down: the vacated bits are copies of the sign.
abbrev pub asr64 : ℕ → ℕ → ℕ
asr64 a k = if ltb a (2 ^ 63) then a / 2 ^ k else not64 (not64 a / 2 ^ k)

abbrev pub asr32 : ℕ → ℕ → ℕ
asr32 a k = if ltb a (2 ^ 31) then a / 2 ^ k else not32 (not32 a / 2 ^ k)

pub sx8-lt : (x : ℕ) → x < 2 ^ 8 → sx8 x < 2 ^ 64
sx8-lt x h = ground arith

pub sx16-lt : (x : ℕ) → x < 2 ^ 16 → sx16 x < 2 ^ 64
sx16-lt x h = ground arith

pub sx32-lt : (x : ℕ) → x < 2 ^ 32 → sx32 x < 2 ^ 64
sx32-lt x h = ground arith
