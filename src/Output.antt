-- ===== src/Output.antt =====
-- include/core/IO.h and Core/Utility/hexcode.cpp: numbers as characters, a text being the list of its
-- character codes. A loop that would leave its buffer gives `none`.
pub mod Digits
pub mod Hex
use Prim.Native.Char.{code}
use Prim.Native.String.{String}
use rv64i_simulator.Base.{
  ℕ, zero, suc, ◌+◌, ◌-◌, ◌*◌, ◌/◌, ◌%◌, ◌^◌, Bool, Option, none, some, List, [], ◌∷◌, ltb, ◌==◌,
  if◌then◌else◌, bit_and, ◌>>>◌, not64, u64,
}

-- The characters of a literal.
abbrev pub codes : String → List ℕ
codes String.[] = []
codes (String.◌∷◌ c s) = code c ∷ codes s

-- `while (value > 0) { buffer[i++] = digit(value % base); value /= base; }` into a buffer with `room`
-- places left, read back from its end: the last digit is the first of the list's `rest`.
unfoldable pub push_digits : (ℕ → ℕ) → ℕ → ℕ → ℕ → List ℕ → Option (List ℕ)
push_digits digit base zero value rest = if value == 0 then some rest else none
push_digits digit base (suc room) value rest =
    let more = push_digits digit base room (value / base) (digit (value % base) ∷ rest) in
    if value == 0 then some rest else more

-- `'0' + d`.
unfoldable pub decimal_digit : ℕ → ℕ
decimal_digit d = 48 + d

unfoldable pub write_int : ℕ → Option (List ℕ)
write_int value = if value == 0 then some (48 ∷ []) else push_digits decimal_digit 10 21 value []

-- The pattern of an `int64_t`; the sign is written before the digits.
unfoldable pub write_signed_int : ℕ → Option (List ℕ)
write_signed_int value =
    if value == 0
    then some (48 ∷ [])
    else if ltb value (2 ^ 63)
    then push_digits decimal_digit 10 21 value []
    else elim (push_digits decimal_digit 10 21 (u64 (not64 value + 1)) []) [
      | some digits ↦ some (45 ∷ digits)
      | none ↦ none
    ]

-- `"0123456789ABCDEF"[digit]`.
unfoldable pub upper_hex : ℕ → ℕ
upper_hex d = if ltb d 10 then 48 + d else 55 + d

-- The loop of `int64_to_hex`, with `n` digits to go.
unfoldable pub hex_from : ℕ → ℕ → List ℕ
hex_from zero value = []
hex_from (suc n) value = upper_hex (bit_and (value >>> (n * 4)) 0xf) ∷ hex_from n value

unfoldable pub int64_to_hex : ℕ → List ℕ
int64_to_hex value = 48 ∷ 120 ∷ hex_from 16 value
