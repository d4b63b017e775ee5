-- ===== src/Instr/Mul/High.antt =====
-- Mul.cpp: the high halves of the 128-bit products.
use rv64i_simulator.Base.{
  ℕ, ◌+◌, ◌-◌, ◌*◌, ◌/◌, ◌%◌, ◌^◌, ◌≤◌, ◌<◌, ◌≡◌, ap₂, ◌∙◌, ltb, leb, sub64, true, false,
  Bool-cases, inl, inr, if◌then◌else◌, arith, u64,
}
use rv64i_simulator.Base.Bits.{bit_and_mask}
use rv64i_simulator.Instr.Mul.{multiply_high_u64, exec_mul, exec_mulh, exec_mulhsu, exec_mulhu}
use rv64i_simulator.Machine.{Machine, write_reg-written}
use rv64i_simulator.Decode.{DecodedInstruction}

mul_mono : (a b c d : ℕ) → a ≤ c → b ≤ d → a * b ≤ c * d
mul_mono a b c d h k = grind arith

product-le : (a b : ℕ) → a < 2 ^ 32 → b < 2 ^ 32 → a * b ≤ (2 ^ 32 - 1) * (2 ^ 32 - 1)
product-le a b h k = mul_mono a b (2 ^ 32 - 1) (2 ^ 32 - 1) (omega arith) (omega arith)

-- The schoolbook product on halves: no step overflows, and the carries are counted exactly.
high_of_halves :
    (a b c d : ℕ)
    → a < 2 ^ 32
    → b < 2 ^ 32
    → c < 2 ^ 32
    → d < 2 ^ 32
    → let t = u64 (a * d + u64 (b * d) / 2 ^ 32) in
      u64 (a * c + t / 2 ^ 32 + u64 (b * c + t % 2 ^ 32) / 2 ^ 32)
      ≡ (a * 2 ^ 32 + b) * (c * 2 ^ 32 + d) / 2 ^ 64
high_of_halves a b c d ha hb hc hd =
    omega (
      arith,
      product-le a c ha hc,
      product-le a d ha hd,
      product-le b c hb hc,
      product-le b d hb hd,
    )

split32 : (u : ℕ) → u / 2 ^ 32 * 2 ^ 32 + u % 2 ^ 32 ≡ u
split32 u = omega arith

product64-le : (a b : ℕ) → a < 2 ^ 64 → b < 2 ^ 64 → a * b ≤ (2 ^ 64 - 1) * (2 ^ 64 - 1)
product64-le a b h k = mul_mono a b (2 ^ 64 - 1) (2 ^ 64 - 1) (omega arith) (omega arith)

-- `multiply_high_u64` is the high half of the product.
pub multiply_high_u64_lem :
    (u v : ℕ) → u < 2 ^ 64 → v < 2 ^ 64 → multiply_high_u64 u v ≡ u * v / 2 ^ 64
unfolding multiply_high_u64
multiply_high_u64_lem u v hu hv =
    rw
      (
        bit_and_mask 32 u,
        bit_and_mask 32 v,
        bit_and_mask 32
            (u64 (u / 2 ^ 32 * (v % 2 ^ 32) + u64 (u % 2 ^ 32 * (v % 2 ^ 32)) / 2 ^ 32)),
      )
      (high_of_halves (u / 2 ^ 32) (u % 2 ^ 32) (v / 2 ^ 32) (v % 2 ^ 32) (omega arith)
          (omega arith) (omega arith) (omega arith)
        ∙ ap₂ (λ (x y : ℕ). x * y / 2 ^ 64) (split32 u) (split32 v))

ltb→leb_false : (x : ℕ) → ltb x (2 ^ 63) ≡ true → leb (2 ^ 63) x ≡ false
ltb→leb_false x h = ground arith

ltb→leb_true : (x : ℕ) → ltb x (2 ^ 63) ≡ false → leb (2 ^ 63) x ≡ true
ltb→leb_true x h = ground arith

-- A signed word extended to 128 bits.
abbrev pub sx128 : ℕ → ℕ
sx128 u = if ltb u (2 ^ 63) then u else u + (2 ^ 128 - 2 ^ 64)

-- The high half of a product modulo 2 ^ 128.
abbrev pub high128 : ℕ → ℕ
high128 x = x % 2 ^ 128 / 2 ^ 64

-- Subtracting an operand from the high half for each negative factor, in each case of the signs.
module _ (u v : ℕ) (hu : u < 2 ^ 64) (hv : v < 2 ^ 64) where
  signed_high :
      let h = u * v / 2 ^ 64 in
      let h1 = if leb (2 ^ 63) u then sub64 h v else h in
      (if leb (2 ^ 63) v then sub64 h1 u else h1) ≡ high128 (sx128 u * sx128 v)
  signed_high = elim (Bool-cases (ltb u (2 ^ 63))) [
    | inl p ↦ elim (Bool-cases (ltb v (2 ^ 63))) [
      | inl q ↦
          rw (p, q, ltb→leb_false u p, ltb→leb_false v q) (omega (arith, product64-le u v hu hv))
      | inr q ↦
          rw (p, q, ltb→leb_false u p, ltb→leb_true v q) (omega (arith, product64-le u v hu hv))
    ]
    | inr p ↦ elim (Bool-cases (ltb v (2 ^ 63))) [
      | inl q ↦
          rw (p, q, ltb→leb_true u p, ltb→leb_false v q) (omega (arith, product64-le u v hu hv))
      | inr q ↦
          rw (p, q, ltb→leb_true u p, ltb→leb_true v q) (omega (arith, product64-le u v hu hv))
    ]
  ]

  mixed_high :
      let h = u * v / 2 ^ 64 in (if leb (2 ^ 63) u then sub64 h v else h) ≡ high128 (sx128 u * v)
  mixed_high = elim (Bool-cases (ltb u (2 ^ 63))) [
    | inl p ↦ rw (p, ltb→leb_false u p) (omega (arith, product64-le u v hu hv))
    | inr p ↦ rw (p, ltb→leb_true u p) (omega (arith, product64-le u v hu hv))
  ]

  low_half : u64 (u * v) ≡ sx128 u * sx128 v % 2 ^ 64
  low_half = elim (Bool-cases (ltb u (2 ^ 63))) [
    | inl p ↦ elim (Bool-cases (ltb v (2 ^ 63))) [
      | inl q ↦ rw (p, q) (omega arith)
      | inr q ↦ rw (p, q) (omega arith)
    ]
    | inr p ↦ elim (Bool-cases (ltb v (2 ^ 63))) [
      | inl q ↦ rw (p, q) (omega arith)
      | inr q ↦ rw (p, q) (omega arith)
    ]
  ]

module _ (inst : DecodedInstruction) (m : Machine) (nonzero : 0 < inst.rd) (small : inst.rd < 32)
    (first : m.registers inst.rs1 < 2 ^ 64) (second : m.registers inst.rs2 < 2 ^ 64) where
  -- For a destination other than x0 and 64-bit sources, mulh, mulhsu and mulhu give the upper half
  -- of the 128-bit signed, mixed and unsigned product, and mul the lower half, although the code
  -- computes them from 32-bit pieces.
  pub exec_mulh-high128 :
      let u = m.registers inst.rs1 in
      let v = m.registers inst.rs2 in
      ((exec_mulh inst m).registers inst.rd ≡ high128 (sx128 u * sx128 v))
      × ((exec_mulhsu inst m).registers inst.rd ≡ high128 (sx128 u * v))
      × ((exec_mulhu inst m).registers inst.rd ≡ high128 (u * v))
      × ((exec_mul inst m).registers inst.rd ≡ sx128 u * sx128 v % 2 ^ 64)
  unfolding exec_mulh exec_mulhsu exec_mulhu exec_mul
  exec_mulh-high128 =
      let u = m.registers inst.rs1 in
      let v = m.registers inst.rs2 in
      let product = multiply_high_u64_lem u v first second in
      (
        write_reg-written inst.rd _ m nonzero small ∙ rw product (signed_high u v first second),
        write_reg-written inst.rd _ m nonzero small ∙ rw product (mixed_high u v first second),
        ground (arith, product, product64-le u v),
        write_reg-written inst.rd _ m nonzero small ∙ low_half u v first second,
      )
