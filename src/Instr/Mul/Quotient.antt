-- ===== src/Instr/Mul/Quotient.antt =====
-- Mul.cpp: quotients and remainders by the magnitudes of dividend and divisor, which are natural numbers,
-- and by their signs.
use rv64i_simulator.Base.{
  ℕ, zero, suc, ◌-◌, ◌/◌, ◌%◌, ◌^◌, ◌≤◌, ◌<◌, ◌≡◌, refl, ◌∙◌, sym, ap, Bool, true, false, not, ltb,
  ◌==◌, if◌then◌else◌, u64, arith, ◌&&◌, ones64, Bool-cases, inl, inr,
}
use rv64i_simulator.Base.Int.{ℤ, pos, negsuc, int64, to_u64, neg_ℕ, ◌/ℤ◌, ◌%ℤ◌}
use rv64i_simulator.Instr.Mul.{exec_div, exec_rem, exec_divu, exec_remu}
use rv64i_simulator.Machine.{Machine, write_reg}
use rv64i_simulator.Decode.{DecodedInstruction}

abbrev pub negative : ℕ → Bool
negative w = not (ltb w (2 ^ 63))

abbrev pub absolute : ℕ → ℕ
absolute w = if ltb w (2 ^ 63) then w else 2 ^ 64 - w

-- The 64-bit pattern of a magnitude with its sign.
abbrev pub signed : Bool → ℕ → ℕ
signed true n = u64 (2 ^ 64 - n)
signed false n = n

abbrev pub differ : Bool → Bool → Bool
differ true b = not b
differ false b = b

quotient-le : (a b : ℕ) → a / b ≤ a
quotient-le a b = grind arith

remainder-le : (a b : ℕ) → a % b ≤ a
remainder-le a b = grind arith

to_u64-neg_ℕ : (n : ℕ) → n < 2 ^ 64 → to_u64 (neg_ℕ n) ≡ signed true n
to_u64-neg_ℕ zero h = refl
to_u64-neg_ℕ (suc n) h = omega arith

-- What the sign and the magnitude of a word are, from its integer.
record Splits (w : ℕ) (sign : Bool) (size : ℕ) : Type 0 where
  sign_is : negative w ≡ sign
  size_is : absolute w ≡ size
  bound : size < 2 ^ 64

pos-Splits : (w x : ℕ) → w < 2 ^ 64 → int64 w ≡ pos x → Splits w false x
pos-Splits w x h e = record { sign_is = ground arith; size_is = ground arith; bound = ground arith }

negsuc-Splits : (w x : ℕ) → w < 2 ^ 64 → int64 w ≡ negsuc x → Splits w true (suc x)
negsuc-Splits w x h e = record {
  sign_is = ground arith;
  size_is = ground arith;
  bound = ground arith;
}

module _ (a b : ℕ) (ha : a < 2 ^ 64) (hb : b < 2 ^ 64) where
  abbrev pub quotient : ℕ
  quotient = signed (differ (negative a) (negative b)) (absolute a / absolute b)

  abbrev pub remainder : ℕ
  remainder = signed (negative a) (absolute a % absolute b)

  module _ (s t : Bool) (x y : ℕ) (first : Splits a s x) (second : Splits b t y) where
    quotient_is : quotient ≡ signed (differ s t) (x / y)
    quotient_is =
        ap (λ k. signed (differ k (negative b)) (absolute a / absolute b)) first.sign_is
        ∙ ap (λ k. signed (differ s k) (absolute a / absolute b)) second.sign_is
        ∙ ap (λ k. signed (differ s t) (k / absolute b)) first.size_is
        ∙ ap (λ k. signed (differ s t) (x / k)) second.size_is

    remainder_is : remainder ≡ signed s (x % y)
    remainder_is =
        ap (λ k. signed k (absolute a % absolute b)) first.sign_is
        ∙ ap (λ k. signed s (k % absolute b)) first.size_is
        ∙ ap (λ k. signed s (x % k)) second.size_is

  small : (n x : ℕ) → n ≤ x → x < 2 ^ 64 → u64 n ≡ n
  small n x h k = omega arith

  by_signs :
      (A B : ℤ)
      → int64 a ≡ A
      → int64 b ≡ B
      → (to_u64 (A /ℤ B) ≡ quotient) × (to_u64 (A %ℤ B) ≡ remainder)
  unfolding ◌/ℤ◌ ◌%ℤ◌
  by_signs (pos x) (pos y) e f =
      let r = pos-Splits a x ha e in
      let q = pos-Splits b y hb f in
      (
        small (x / y) x (quotient-le x y) r.bound ∙ sym (quotient_is false false x y r q),
        small (x % y) x (remainder-le x y) r.bound ∙ sym (remainder_is false false x y r q),
      )
  by_signs (pos x) (negsuc y) e f =
      let r = pos-Splits a x ha e in
      let q = negsuc-Splits b y hb f in
      let h = r.bound in
      (
        to_u64-neg_ℕ (x / suc y) (omega (arith, quotient-le x (suc y)))
            ∙ sym (quotient_is false true x (suc y) r q),
        small (x % suc y) x (remainder-le x (suc y)) h
            ∙ sym (remainder_is false true x (suc y) r q),
      )
  by_signs (negsuc x) (pos y) e f =
      let r = negsuc-Splits a x ha e in
      let q = pos-Splits b y hb f in
      let h = r.bound in
      (
        to_u64-neg_ℕ (suc x / y) (omega (arith, quotient-le (suc x) y))
            ∙ sym (quotient_is true false (suc x) y r q),
        to_u64-neg_ℕ (suc x % y) (omega (arith, remainder-le (suc x) y))
            ∙ sym (remainder_is true false (suc x) y r q),
      )
  by_signs (negsuc x) (negsuc y) e f =
      let r = negsuc-Splits a x ha e in
      let q = negsuc-Splits b y hb f in
      let h = r.bound in
      (
        small (suc x / suc y) (suc x) (quotient-le (suc x) (suc y)) h
            ∙ sym (quotient_is true true (suc x) (suc y) r q),
        to_u64-neg_ℕ (suc x % suc y) (omega (arith, remainder-le (suc x) (suc y)))
            ∙ sym (remainder_is true true (suc x) (suc y) r q),
      )

  integer_division :
      (to_u64 (int64 a /ℤ int64 b) ≡ quotient) × (to_u64 (int64 a %ℤ int64 b) ≡ remainder)
  integer_division = by_signs (int64 a) (int64 b) refl refl

-- The one quotient that is too large.
overflow :
    (a b : ℕ)
    → a ≡ 0x8000_0000_0000_0000
    → b ≡ 2 ^ 64 - 1
    → (a < 2 ^ 64) × (b < 2 ^ 64)
    → (a ≡ signed (differ (negative a) (negative b)) (absolute a / absolute b))
      × (0 ≡ signed (negative a) (absolute a % absolute b))
overflow a b e f h = rw (e, f) (refl, refl)

module _ (a b : ℕ) (ha : a < 2 ^ 64) (hb : b < 2 ^ 64) where
  -- The tests of the two signed instructions, on what they lead to.
  chosen :
      (q : ℤ → ℤ → ℤ) (undivided large by_signs : ℕ)
      → to_u64 (q (int64 a) (int64 b)) ≡ by_signs
      → (a ≡ 0x8000_0000_0000_0000 → b ≡ 2 ^ 64 - 1 → large ≡ by_signs)
      → (if b == 0
          then undivided
          else if a == 0x8000_0000_0000_0000 && b == ones64
          then large
          else to_u64 (q (int64 a) (int64 b)))
        ≡ (if b == 0 then undivided else by_signs)
  chosen q undivided large by_signs e f = elim (Bool-cases (b == 0)) [
    | inl z ↦ rw z refl
    | inr z ↦ elim (Bool-cases (a == 0x8000_0000_0000_0000 && b == ones64)) [
      | inl o ↦ rw (z, o) (f (ground arith) (ground arith))
      | inr o ↦ rw (z, o) e
    ]
  ]

-- Where a write of each branch goes, the branches' value goes.
one_write :
    (c d : Bool) (rd x y z : ℕ) (m : Machine)
    → (if c then write_reg rd x m else if d then write_reg rd y m else write_reg rd z m)
      ≡ write_reg rd (if c then x else if d then y else z) m
one_write true d rd x y z m = refl
one_write false true rd x y z m = refl
one_write false false rd x y z m = refl

one_write_of_two :
    (c : Bool) (rd x y : ℕ) (m : Machine)
    → (if c then write_reg rd x m else write_reg rd y m) ≡ write_reg rd (if c then x else y) m
one_write_of_two true rd x y m = refl
one_write_of_two false rd x y m = refl

module _ (inst : DecodedInstruction) (m : Machine) (first : m.registers inst.rs1 < 2 ^ 64)
    (second : m.registers inst.rs2 < 2 ^ 64) where
  -- For 64-bit sources, div and rem write the quotient and the remainder of the magnitudes, the
  -- first negated if the signs of the sources differ and the second if the dividend is negative, on
  -- 64 bits, also where the quotient overflows; divu and remu write those of the words; for a
  -- divisor of 0 the quotient is all ones and the remainder is the dividend. Nothing but the
  -- destination changes.
  pub exec_div-quotient :
      let a = m.registers inst.rs1 in
      let b = m.registers inst.rs2 in
      (exec_div inst m
        ≡ write_reg inst.rd
            (if b == 0
              then 2 ^ 64 - 1
              else signed (differ (negative a) (negative b)) (absolute a / absolute b))
            m)
      × (exec_rem inst m
          ≡ write_reg inst.rd
              (if b == 0 then a else signed (negative a) (absolute a % absolute b))
              m)
      × (exec_divu inst m ≡ write_reg inst.rd (if b == 0 then 2 ^ 64 - 1 else a / b) m)
      × (exec_remu inst m ≡ write_reg inst.rd (if b == 0 then a else a % b) m)
  unfolding exec_div exec_rem exec_divu exec_remu
  exec_div-quotient =
      let a = m.registers inst.rs1 in
      let b = m.registers inst.rs2 in
      let rd = inst.rd in
      let whole = integer_division a b first second in
      let is_large = a == 0x8000_0000_0000_0000 && b == ones64 in
      (
        one_write (b == 0) is_large rd ones64 a (to_u64 (int64 a /ℤ int64 b)) m
            ∙ ap (λ v. write_reg rd v m)
                (chosen a b first second (λ x y. x /ℤ y) ones64 a (quotient a b first second)
                  whole.0 (λ e f. (overflow a b e f (first, second)).0)),
        one_write (b == 0) is_large rd a 0 (to_u64 (int64 a %ℤ int64 b)) m
            ∙ ap (λ v. write_reg rd v m)
                (chosen a b first second (λ x y. x %ℤ y) a 0 (remainder a b first second) whole.1
                  (λ e f. (overflow a b e f (first, second)).1)),
        one_write_of_two (b == 0) rd ones64 (a / b) m,
        one_write_of_two (b == 0) rd a (a % b) m,
      )
