-- ===== src/Output/Hex.antt =====
-- Core/Utility/hexcode.cpp: the sixteen digits are the number.
use rv64i_simulator.Base.{
  ℕ, zero, suc, ◌+◌, ◌-◌, ◌*◌, ◌/◌, ◌%◌, ◌^◌, ◌<◌, ◌≡◌, refl, sym, ap, subst, ◌∙◌, List, [], ◌∷◌,
  ltb, if◌then◌else◌, bit_and, ◌>>>◌, arith,
}
use rv64i_simulator.Base.Bits.{bit_and_mask}
use native.Mathlib.Nat.{pow-suc, div-div-eq-div-mul}
use rv64i_simulator.Output.{upper_hex, hex_from, int64_to_hex}
use rv64i_simulator.Output.Digits.{number, length}

-- The digit that a character stands for.
abbrev pub hex_value : ℕ → ℕ
hex_value c = if ltb c 65 then c - 48 else c - 55

upper_hex-value : (d : ℕ) → d < 16 → hex_value (upper_hex d) ≡ d
unfolding upper_hex
upper_hex-value d h = ground arith

-- The number after `0x`.
unfoldable pub read_hex : List ℕ → ℕ
read_hex [] = 0
read_hex (zero_char ∷ []) = 0
read_hex (zero_char ∷ x_char ∷ digits) = number hex_value 16 0 digits

next_power : (n : ℕ) → 2 ^ (suc n * 4) ≡ 2 ^ (n * 4) * 16
next_power n =
    let e : suc n * 4 ≡ suc (suc (suc (suc (n * 4)))) = omega arith in
    rw
      (
        e,
        pow-suc 2 (suc (suc (suc (n * 4)))),
        pow-suc 2 (suc (suc (n * 4))),
        pow-suc 2 (suc (n * 4)),
        pow-suc 2 (n * 4),
      )
      (omega arith)

-- The digits that were written are the number's upper part.
next_digit :
    (n value : ℕ)
    → value / 2 ^ (suc n * 4) * 16 + hex_value (upper_hex (bit_and (value >>> (n * 4)) 0xf))
      ≡ value / 2 ^ (n * 4)
next_digit n value =
    let upper = value / 2 ^ (n * 4) in
    let digit : bit_and upper 0xf ≡ upper % 16 = bit_and_mask 4 upper in
    let read = upper_hex-value (upper % 16) (omega arith) in
    rw (next_power n, sym (div-div-eq-div-mul value (2 ^ (n * 4)) 16), digit, read) (omega arith)

hex_from-number :
    (n value : ℕ) → number hex_value 16 (value / 2 ^ (n * 4)) (hex_from n value) ≡ value
unfolding hex_from number
hex_from-number zero value = omega arith
hex_from-number (suc n) value =
    ap (λ v. number hex_value 16 v (hex_from n value)) (next_digit n value)
    ∙ hex_from-number n value

hex_from-length : (n value : ℕ) → length (hex_from n value) ≡ n
unfolding hex_from
hex_from-length zero value = refl
hex_from-length (suc n) value = omega (arith, hex_from-length n value)

-- int64_to_hex of a 64-bit number has 18 characters, and those after the first two are the
-- number's digits to base 16.
pub int64_to_hex-read_hex :
    (value : ℕ)
    → value < 2 ^ 64
    → (read_hex (int64_to_hex value) ≡ value) × (length (int64_to_hex value) ≡ 18)
unfolding int64_to_hex read_hex
int64_to_hex-read_hex value h =
    let above : value / 2 ^ (16 * 4) ≡ 0 = omega arith in
    (
      subst (λ v. number hex_value 16 v (hex_from 16 value) ≡ value) above
          (hex_from-number 16 value),
      omega (arith, hex_from-length 16 value),
    )
