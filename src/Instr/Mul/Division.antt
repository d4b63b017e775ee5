-- ===== src/Instr/Mul/Division.antt =====
-- Mul.cpp: quotient and remainder belong together, at every dividend and divisor.
use native.Mathlib.Nat.{mod-lt}
use rv64i_simulator.Base.{
  ◌⊎◌, ℕ, zero, suc, ◌+◌, ◌-◌, ◌*◌, ◌/◌, ◌%◌, ◌^◌, ◌≤◌, ◌<◌, ◌≡◌, ap, arith, u64, refl,
}
use rv64i_simulator.Base.Int.{ℤ, pos, negsuc, int64, to_u64, neg_ℕ, ◌/ℤ◌, ◌%ℤ◌}
use rv64i_simulator.Instr.Mul.{exec_div, exec_rem, exec_divu, exec_remu}
use rv64i_simulator.Machine.{Machine, write_reg}
use rv64i_simulator.Decode.{DecodedInstruction}

divide : (a b : ℕ) → a / b * b + a % b ≡ a
divide a b = grind arith

-- A negated number and the number add up to a multiple of 2 ^ 64.
to_u64-neg_ℕ : (n : ℕ) → n < 2 ^ 64 → (k : ℕ) × (to_u64 (neg_ℕ n) + n ≡ k * 2 ^ 64)
to_u64-neg_ℕ zero h = (0, omega arith)
to_u64-neg_ℕ (suc n) h = (1, omega arith)

quotient-le : (a b : ℕ) → a / b ≤ a
quotient-le a b = grind arith

remainder-le : (a b : ℕ) → a % b ≤ a
remainder-le a b = grind arith

-- The four cases of the signs: `q` and `r` divide the magnitudes, `Q` and `R` are the patterns.
module _ (a b q r : ℕ) (ha : a < 2 ^ 64) (hb : b < 2 ^ 64) where
  negative_dividend :
      (A Q R k l : ℕ)
      → q * b + r ≡ A
      → a + A ≡ 2 ^ 64
      → Q + q ≡ k * 2 ^ 64
      → R + r ≡ l * 2 ^ 64
      → u64 (Q * b + R) ≡ a
  negative_dividend A Q R k l e s eq er = omega (arith, ap (λ (t : ℕ). t * b) eq)

  negative_divisor :
      (B Q k : ℕ) → q * B + r ≡ a → b + B ≡ 2 ^ 64 → Q + q ≡ k * 2 ^ 64 → u64 (Q * b + r) ≡ a
  negative_divisor B Q k e s eq = omega (arith, ap (λ (t : ℕ). t * b) eq, ap (λ (t : ℕ). q * t) s)

  negative_both :
      (A B R l : ℕ)
      → q * B + r ≡ A
      → a + A ≡ 2 ^ 64
      → b + B ≡ 2 ^ 64
      → R + r ≡ l * 2 ^ 64
      → u64 (q * b + R) ≡ a
  negative_both A B R l e s t er = omega (arith, ap (λ (t : ℕ). q * t) t)

small_mod : (n a : ℕ) → n ≤ a → a < 2 ^ 64 → n % 2 ^ 64 ≡ n
small_mod n a h k = omega arith

-- Division of C++ on the patterns of `int64_t`.
module _ (a b : ℕ) (ha : a < 2 ^ 64) (hb : b < 2 ^ 64) (h : 0 < b) where
  by_cases : (A B : ℤ) → int64 a ≡ A → int64 b ≡ B → u64 (to_u64 (A /ℤ B) * b + to_u64 (A %ℤ B)) ≡ a
  unfolding ◌/ℤ◌ ◌%ℤ◌
  by_cases (pos x) (pos y) e f =
      let ea : x ≡ a = ground arith in
      let eb : y ≡ b = ground arith in
      rw
        (
          small_mod (x / y) x (quotient-le x y) (omega arith),
          small_mod (x % y) x (remainder-le x y) (omega arith),
        )
        (omega (arith, divide x y, ap (λ (t : ℕ). x / y * t) eb))
  by_cases (negsuc x) (pos y) e f =
      let ea : a + suc x ≡ 2 ^ 64 = ground arith in
      let bx : suc x < 2 ^ 64 = ground arith in
      let eb : y ≡ b = ground arith in
      let (k, eq) = to_u64-neg_ℕ (suc x / y) (omega (arith, quotient-le (suc x) y)) in
      let (l, er) = to_u64-neg_ℕ (suc x % y) (omega (arith, remainder-le (suc x) y)) in
      negative_dividend a b (suc x / y) (suc x % y) ha hb (suc x) _ _ k l
        (omega (arith, divide (suc x) y, ap (λ (t : ℕ). suc x / y * t) eb)) ea eq er
  by_cases (pos x) (negsuc y) e f =
      let ea : x ≡ a = ground arith in
      let eb : b + suc y ≡ 2 ^ 64 = ground arith in
      let (k, eq) = to_u64-neg_ℕ (x / suc y) (omega (arith, quotient-le x (suc y))) in
      rw (small_mod (x % suc y) x (remainder-le x (suc y)) (omega arith)) (
        negative_divisor a b (x / suc y) (x % suc y) ha hb (suc y) _ k
          (omega (arith, divide x (suc y))) eb eq)
  by_cases (negsuc x) (negsuc y) e f =
      let ea : a + suc x ≡ 2 ^ 64 = ground arith in
      let bx : suc x < 2 ^ 64 = ground arith in
      let eb : b + suc y ≡ 2 ^ 64 = ground arith in
      let (l, er) = to_u64-neg_ℕ (suc x % suc y) (omega (arith, remainder-le (suc x) (suc y))) in
      rw
        (small_mod (suc x / suc y) (2 ^ 64 - 1) (omega (arith, quotient-le (suc x) (suc y)))
          (omega arith))
        (negative_both a b (suc x / suc y) (suc x % suc y) ha hb (suc x) (suc y) _ l
          (divide (suc x) (suc y)) ea eb er)

  signed_divide : u64 (to_u64 (int64 a /ℤ int64 b) * b + to_u64 (int64 a %ℤ int64 b)) ≡ a
  signed_divide = by_cases (int64 a) (int64 b) refl refl

remainder-lt : (x y : ℕ) → 0 < y → x % y < y
remainder-lt x y h = mod-lt x h

module _ (inst : DecodedInstruction) (m : Machine) (nonzero : 0 < inst.rd) (small : inst.rd < 32)
    (first : m.registers inst.rs1 < 2 ^ 64) (second : m.registers inst.rs2 < 2 ^ 64) where
  -- For a destination other than x0 and 64-bit sources, quotient times divisor plus remainder is
  -- the dividend modulo 2^64, signed and unsigned, division by zero and overflow included, and the
  -- unsigned remainder is less than a divisor other than 0.
  pub exec_div-exec_rem :
      let a = m.registers inst.rs1 in
      let b = m.registers inst.rs2 in
      (u64 ((exec_div inst m).registers inst.rd * b + (exec_rem inst m).registers inst.rd) ≡ a)
      × (u64 ((exec_divu inst m).registers inst.rd * b + (exec_remu inst m).registers inst.rd) ≡ a)
      × (b ≡ 0 ⊎ (exec_remu inst m).registers inst.rd < b)
  unfolding exec_div exec_rem exec_divu exec_remu write_reg
  exec_div-exec_rem =
      let a = m.registers inst.rs1 in
      let b = m.registers inst.rs2 in
      (
        ground (arith, signed_divide a b),
        ground (arith, divide a b),
        ground (arith, remainder-lt a b),
      )
