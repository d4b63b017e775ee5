-- ===== src/Output/Digits.antt =====
-- The digit loops of IO.h and DTBBuilder.h write the number and stay in their buffers.
use rv64i_simulator.Base.{
  ℕ, zero, suc, ◌+◌, ◌-◌, ◌*◌, ◌/◌, ◌%◌, ◌^◌, ◌≤◌, ◌<◌, ◌≡◌, refl, ap, sym, subst, ◌∙◌, Option,
  none, leb, ◌&&◌, Bool, true, false, some, List, [], ◌∷◌, ◌++◌, ltb, ◌==◌, if◌then◌else◌, not64,
  u64, Bool-cases, inl, inr, arith,
}
use native.Mathlib.Nat.{div-add-mod', div-lt_iff_lt-mul, mod-lt, pow-suc, pow-zero}
use rv64i_simulator.Output.{push_digits, decimal_digit, write_int, write_signed_int}

-- The number that digits stand for, after `before`.
unfoldable pub number : (ℕ → ℕ) → ℕ → ℕ → List ℕ → ℕ
number value_of base before [] = before
number value_of base before (c ∷ cs) = number value_of base (before * base + value_of c) cs

abbrev pub length : List ℕ → ℕ
length [] = 0
length (c ∷ cs) = length cs + 1

pub ++-length : (a b : List ℕ) → length (a ++ b) ≡ length a + length b
++-length [] b = omega arith
++-length (c ∷ a) b = omega (arith, ++-length a b)

-- Digits that were written: what they stand for, and how many.
pub record Writes (value_of : ℕ → ℕ) (base : ℕ) (result : Option (List ℕ)) (value longest : ℕ)
    : Type 0 where
  pub digits : List ℕ
  pub written : result ≡ some digits
  pub reads : number value_of base 0 digits ≡ value
  pub short : length digits ≤ longest

module _ (digit value_of : ℕ → ℕ) (base : ℕ) (big : 1 < base)
    (inverse : (d : ℕ) → d < base → value_of (digit d) ≡ d) where
  positive : 0 < base
  positive = omega arith

  zero_power : {value : ℕ} → value < base ^ 0 → value ≡ 0
  zero_power {value} h = omega (arith, pow-zero base)

  below : (room value : ℕ) → value < base ^ suc room → value / base < base ^ room
  below room value h =
      let grown : value < base ^ room * base = rw (sym (pow-suc base room)) h in
      (div-lt_iff_lt-mul positive).1 grown

  -- The last digit, and the others.
  unfolded :
      (value : ℕ) (rest : List ℕ)
      → number value_of base (value / base) (digit (value % base) ∷ rest)
        ≡ number value_of base value rest
  unfolding number
  unfolded value rest =
      let last = inverse (value % base) (mod-lt value positive) in
      ap (λ v. number value_of base v rest) (rw last (div-add-mod' value base))

  nothing_left :
      (value : ℕ) (rest : List ℕ)
      → value ≡ 0
      → number value_of base 0 rest ≡ number value_of base value rest
  nothing_left value rest e = ap (λ v. number value_of base v rest) (sym e)

  -- `n` digits are enough for the value, and the buffer has room for them.
  pub push_digits-Writes :
      (room n value : ℕ) (rest : List ℕ)
      → value < base ^ n
      → n ≤ room
      → Writes value_of base
          (push_digits digit base room value rest)
          (number value_of base value rest)
          (length rest + n)
  unfolding push_digits number
  push_digits-Writes zero n value rest h p =
      let empty : n ≡ 0 = omega arith in
      let e = zero_power (subst (λ k. value < base ^ k) empty h) in
      record {
        digits = rest;
        written = rw e refl;
        reads = nothing_left value rest e;
        short = omega arith;
      }
  push_digits-Writes (suc room) zero value rest h p =
      let e = zero_power h in
      record {
        digits = rest;
        written = rw e refl;
        reads = nothing_left value rest e;
        short = omega arith;
      }
  push_digits-Writes (suc room) (suc n) value rest h p = elim (Bool-cases (value == 0)) [
    | inl q ↦ record {
      digits = rest;
      written = rw q refl;
      reads = nothing_left value rest (ground arith);
      short = omega arith;
    }
    | inr q ↦
        let more =
          push_digits-Writes room n (value / base) (digit (value % base) ∷ rest) (below n value h)
            (omega arith) in
        record {
          digits = more.digits;
          written = rw q more.written;
          reads = more.reads ∙ unfolded value rest;
          short = let s = more.short in omega arith;
        }
  ]

abbrev decimal_value : ℕ → ℕ
decimal_value c = c - 48

-- The number that decimal digits stand for.
unfoldable pub decimal : List ℕ → ℕ
decimal digits = number decimal_value 10 0 digits

decimal_digit-value : (d : ℕ) → d < 10 → decimal_value (decimal_digit d) ≡ d
unfolding decimal_digit
decimal_digit-value d h = omega arith

decimal-Writes :
    (value : ℕ)
    → value < 2 ^ 64
    → Writes decimal_value 10 (push_digits decimal_digit 10 21 value []) value 20
unfolding number
decimal-Writes value h =
    push_digits-Writes decimal_digit decimal_value 10 (omega arith) decimal_digit-value 21 20 value
      [] (omega arith) (omega arith)

pub write_int-decimal :
    (value : ℕ)
    → value < 2 ^ 64
    → (digits : List ℕ) × (write_int value ≡ some digits)
      × (decimal digits ≡ value)
      × (length digits ≤ 20)
unfolding write_int decimal number
write_int-decimal value h =
    let w = decimal-Writes value h in
    elim (Bool-cases (value == 0)) [
      | inl q ↦ (48 ∷ [], rw q refl, ground arith, omega arith)
      | inr q ↦ (w.digits, rw q w.written, w.reads, w.short)
    ]

-- The characters '0' to '9'.
abbrev is_digit : ℕ → Bool
is_digit c = leb 48 c && leb c 57

unfoldable pub all_digits : List ℕ → Bool
all_digits [] = true
all_digits (c ∷ cs) = if is_digit c then all_digits cs else false

decimal_digit-is_digit : (d : ℕ) → d < 10 → is_digit (decimal_digit d) ≡ true
unfolding decimal_digit
decimal_digit-is_digit d h = ground arith

-- What was written, if it was, has digits only.
abbrev digits_only : Option (List ℕ) → Bool
digits_only none = true
digits_only (some digits) = all_digits digits

push_digits-all_digits :
    (room value : ℕ) (rest : List ℕ)
    → all_digits rest ≡ true
    → digits_only (push_digits decimal_digit 10 room value rest) ≡ true
unfolding push_digits all_digits
push_digits-all_digits zero value rest h = elim (Bool-cases (value == 0)) [
  | inl q ↦ rw q h
  | inr q ↦ rw q refl
]
push_digits-all_digits (suc room) value rest h =
    let c = decimal_digit (value % 10) in
    let digit = decimal_digit-is_digit (value % 10) (omega arith) in
    let more : all_digits (c ∷ rest) ≡ true =
      ap (λ b. if b then all_digits rest else false) digit ∙ h in
    let others = push_digits-all_digits room (value / 10) (c ∷ rest) more in
    elim (Bool-cases (value == 0)) [ inl q ↦ rw q h | inr q ↦ rw q others ]

written-all_digits :
    (value : ℕ) (digits : List ℕ)
    → push_digits decimal_digit 10 21 value [] ≡ some digits
    → all_digits digits ≡ true
unfolding all_digits
written-all_digits value digits e = sym (ap digits_only e) ∙ push_digits-all_digits 21 value [] refl

-- The number without its sign.
abbrev pub magnitude : ℕ → ℕ
magnitude value = if ltb value (2 ^ 63) then value else 2 ^ 64 - value

-- The digits after their sign.
abbrev pub with_sign : ℕ → List ℕ → List ℕ
with_sign value digits = if ltb value (2 ^ 63) then digits else 45 ∷ digits

-- For a 64-bit pattern, writeSignedInt writes a minus sign exactly if the top bit is set, and
-- then only the characters 0 to 9, which read to base 10 give the number's magnitude, at most 20
-- of them, so its buffer of 21 is enough.
pub write_signed_int-decimal :
    (value : ℕ)
    → value < 2 ^ 64
    → (digits : List ℕ) × (write_signed_int value ≡ some (with_sign value digits))
      × (all_digits digits ≡ true)
      × (decimal digits ≡ magnitude value)
      × (length digits ≤ 20)
unfolding write_signed_int decimal number all_digits
write_signed_int-decimal value h =
    let w = decimal-Writes value h in
    let negative = decimal-Writes (u64 (not64 value + 1)) (omega arith) in
    elim (Bool-cases (value == 0)) [
      | inl q ↦ let e : value ≡ 0 = ground arith in rw e (48 ∷ [], refl, refl, refl, omega arith)
      | inr q ↦ elim (Bool-cases (ltb value (2 ^ 63))) [
        | inl p ↦ rw p (
          w.digits,
          rw q w.written,
          written-all_digits value w.digits w.written,
          w.reads,
          w.short,
        )
        | inr p ↦
            let same : u64 (not64 value + 1) ≡ 2 ^ 64 - value = ground arith in
            rw p (
              negative.digits,
              rw (q, negative.written) refl,
              written-all_digits (u64 (not64 value + 1)) negative.digits negative.written,
              negative.reads ∙ same,
              negative.short,
            )
      ]
    ]
