-- ===== src/Cpu/Raise/Status.antt =====
-- The status words that traps and returns from traps compute, as sums of fields.
use rv64i_simulator.Base.{
  ℕ, ◌+◌, ◌*◌, ◌/◌, ◌%◌, ◌^◌, ◌<◌, ◌≤◌, ◌≡◌, bit_and, bit_or, ◌<<<◌, ◌>>>◌, not64, arith, any_set,
  if◌then◌else◌, Bool-cases, inl, inr,
}
use rv64i_simulator.Base.Bits.{
  bit_and_join, bit_and_complement, bit_and_field, bit_and_mask, bit_or_field, bit_or_bit,
  bit_and-le, bit_or-lt,
}

-- `MPP`, `MPIE` and `MIE` together.
and_m_fields :
    (s : ℕ)
    → bit_and s 0x1888 ≡ s / 2 ^ 11 % 4 * 2 ^ 11 + (s / 2 ^ 7 % 2 * 2 ^ 7 + s / 2 ^ 3 % 2 * 2 ^ 3)
and_m_fields s = omega (
  arith,
  bit_and_join 11 s 3 0x88 (omega arith),
  bit_and_join 7 s 1 0x8 (omega arith),
  bit_and_mask 2 (s / 2 ^ 11),
  bit_and_mask 1 (s / 2 ^ 7),
  bit_and_field 3 1 s,
)

-- Three fields cleared at once.
pub clear_m_fields :
    (s : ℕ)
    → s < 2 ^ 64
    → bit_and s (not64 0x1888)
        + (s / 2 ^ 11 % 4 * 2 ^ 11 + (s / 2 ^ 7 % 2 * 2 ^ 7 + s / 2 ^ 3 % 2 * 2 ^ 3))
      ≡ s
clear_m_fields s h = omega (arith, bit_and_complement 64 s 0x1888 h (omega arith), and_m_fields s)

-- The status that a trap to machine mode leaves: MPP is the mode, MPIE is MIE, MIE is 0.
pub m_trap_status :
    (s mode : ℕ)
    → s < 2 ^ 64
    → mode ≤ 3
    → bit_or (bit_or (bit_and s (not64 0x1888)) (bit_and (s >>> 3) 0x1 <<< 7)) (mode <<< 11)
      ≡ bit_and s (not64 0x1888) + s / 2 ^ 3 % 2 * 2 ^ 7 + mode * 2 ^ 11
m_trap_status s mode h k =
    let c = clear_m_fields s h in
    rw
      (
        bit_and_mask 1 (s / 2 ^ 3),
        bit_or_field 7 1 (bit_and s (not64 0x1888)) (s / 2 ^ 3 % 2 ^ 1) (omega arith) (omega arith),
      )
      (bit_or_field 11 2 (bit_and s (not64 0x1888) + s / 2 ^ 3 % 2 ^ 1 * 2 ^ 7) mode (omega arith)
        (omega arith))

-- `mret`: MIE is MPIE, MPIE is 1, MPP is 0.
pub m_return_status :
    (s : ℕ)
    → s < 2 ^ 64
    → bit_and
        (bit_or
          (if any_set s (1 <<< 7) then bit_or s (1 <<< 3) else bit_and s (not64 (1 <<< 3)))
          (1 <<< 7))
        (not64 (3 <<< 11))
      ≡ bit_and s (not64 0x1888) + s / 2 ^ 7 % 2 * 2 ^ 3 + 2 ^ 7
m_return_status s h = elim (Bool-cases (any_set s (1 <<< 7))) [
  | inl p ↦
      let high : s / 2 ^ 7 % 2 ≡ 1 = ground (arith, bit_and_field 7 1 s) in
      let x = bit_or s (1 <<< 3) in
      let y = bit_or x (1 <<< 7) in
      let small : y < 2 ^ 64 =
        bit_or-lt 64 x (1 <<< 7) (bit_or-lt 64 s (1 <<< 3) h (omega arith)) (omega arith) in
      rw p (
        omega (
          arith,
          clear_m_fields s h,
          bit_or_bit 3 s,
          bit_or_bit 7 x,
          bit_and_complement 64 y (3 <<< 11) small (omega arith),
          bit_and_field 11 2 y,
        ))
  | inr p ↦
      let low : s / 2 ^ 7 % 2 ≡ 0 = ground (arith, bit_and_field 7 1 s) in
      let x = bit_and s (not64 (1 <<< 3)) in
      let y = bit_or x (1 <<< 7) in
      let below : x < 2 ^ 64 = omega (arith, bit_and-le s (not64 (1 <<< 3))) in
      let small : y < 2 ^ 64 = bit_or-lt 64 x (1 <<< 7) below (omega arith) in
      rw p (
        omega (
          arith,
          clear_m_fields s h,
          bit_and_complement 64 s (1 <<< 3) h (omega arith),
          bit_and_field 3 1 s,
          bit_or_bit 7 x,
          bit_and_complement 64 y (3 <<< 11) small (omega arith),
          bit_and_field 11 2 y,
        ))
]

-- Everything but MPP and MPIE.
pub and_not_stacked :
    (s : ℕ)
    → s < 2 ^ 64
    → bit_and s (not64 0x1880) + (s / 2 ^ 11 % 4 * 2 ^ 11 + s / 2 ^ 7 % 2 * 2 ^ 7) ≡ s
and_not_stacked s h = omega (
  arith,
  bit_and_complement 64 s 0x1880 h (omega arith),
  bit_and_join 11 s 3 0x80 (omega arith),
  bit_and_mask 2 (s / 2 ^ 11),
  bit_and_field 7 1 s,
)
