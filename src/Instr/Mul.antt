-- ===== src/Instr/Mul.antt =====
-- src/Instructions/Mul.cpp. Signed division is that of the integers that the patterns stand for.
pub mod High
pub mod Division
pub mod Quotient
use rv64i_simulator.Base.{
  ℕ, ◌+◌, ◌*◌, ◌/◌, ◌%◌, ◌^◌, Bool, ◌&&◌, leb, ◌==◌, if◌then◌else◌, bit_and, ◌>>>◌, u32, u64, sub64,
  sx32, update, ones64,
}
use rv64i_simulator.Machine.{Machine, write_reg}
use rv64i_simulator.Decode.{DecodedInstruction}
use rv64i_simulator.Base.Int.{int64, int32, to_u64, ◌/ℤ◌, ◌%ℤ◌}

unfoldable pub multiply_high_u64 : ℕ → ℕ → ℕ
multiply_high_u64 u v =
    let u_lo = bit_and u 0xffff_ffff in
    let u_hi = u >>> 32 in
    let v_lo = bit_and v 0xffff_ffff in
    let v_hi = v >>> 32 in
    let t = u64 (u_lo * v_lo) in
    let k = t >>> 32 in
    let t1 = u64 (u_hi * v_lo + k) in
    let w1 = bit_and t1 0xffff_ffff in
    let w2 = t1 >>> 32 in
    let t2 = u64 (u_lo * v_hi + w1) in let k1 = t2 >>> 32 in u64 (u_hi * v_hi + w2 + k1)

unfoldable pub exec_mul : DecodedInstruction → Machine → Machine
exec_mul inst m = write_reg inst.rd (u64 ((m.registers inst.rs1) * (m.registers inst.rs2))) m

unfoldable pub exec_div : DecodedInstruction → Machine → Machine
exec_div inst m =
    let a = (m.registers inst.rs1) in
    let b = (m.registers inst.rs2) in
    if b == 0
    then write_reg inst.rd (ones64) m
    else if a == 0x8000_0000_0000_0000 && b == ones64
    then write_reg inst.rd (a) m
    else write_reg inst.rd (to_u64 (int64 a /ℤ int64 b)) m

unfoldable pub exec_divu : DecodedInstruction → Machine → Machine
exec_divu inst m =
    let a = (m.registers inst.rs1) in
    let b = (m.registers inst.rs2) in
    if b == 0 then write_reg inst.rd (ones64) m else write_reg inst.rd (a / b) m

unfoldable pub exec_rem : DecodedInstruction → Machine → Machine
exec_rem inst m =
    let a = (m.registers inst.rs1) in
    let b = (m.registers inst.rs2) in
    if b == 0
    then write_reg inst.rd (a) m
    else if a == 0x8000_0000_0000_0000 && b == ones64
    then write_reg inst.rd (0) m
    else write_reg inst.rd (to_u64 (int64 a %ℤ int64 b)) m

unfoldable pub exec_remu : DecodedInstruction → Machine → Machine
exec_remu inst m =
    let a = (m.registers inst.rs1) in
    let b = (m.registers inst.rs2) in
    if b == 0 then write_reg inst.rd (a) m else write_reg inst.rd (a % b) m

-- C++ leaves the overflow of the product of two `int32_t` undefined; it wraps here.
unfoldable pub exec_mulw : DecodedInstruction → Machine → Machine
exec_mulw inst m =
    write_reg inst.rd (sx32 (u32 (u32 (m.registers inst.rs1) * u32 (m.registers inst.rs2)))) m

unfoldable pub exec_divw : DecodedInstruction → Machine → Machine
exec_divw inst m =
    let a = u32 (m.registers inst.rs1) in
    let b = u32 (m.registers inst.rs2) in
    if b == 0
    then write_reg inst.rd (ones64) m
    else if a == 0x8000_0000 && b == 0xffff_ffff
    then write_reg inst.rd (sx32 a) m
    else write_reg inst.rd (to_u64 (int32 a /ℤ int32 b)) m

unfoldable pub exec_divuw : DecodedInstruction → Machine → Machine
exec_divuw inst m =
    let a = u32 (m.registers inst.rs1) in
    let b = u32 (m.registers inst.rs2) in
    if b == 0 then write_reg inst.rd (ones64) m else write_reg inst.rd (sx32 (a / b)) m

unfoldable pub exec_remw : DecodedInstruction → Machine → Machine
exec_remw inst m =
    let a = u32 (m.registers inst.rs1) in
    let b = u32 (m.registers inst.rs2) in
    if b == 0
    then write_reg inst.rd (sx32 a) m
    else if a == 0x8000_0000 && b == 0xffff_ffff
    then write_reg inst.rd (0) m
    else write_reg inst.rd (to_u64 (int32 a %ℤ int32 b)) m

unfoldable pub exec_remuw : DecodedInstruction → Machine → Machine
exec_remuw inst m =
    let a = u32 (m.registers inst.rs1) in
    let b = u32 (m.registers inst.rs2) in
    if b == 0 then write_reg inst.rd (sx32 a) m else write_reg inst.rd (sx32 (a % b)) m

-- `(int64_t)x < 0`.
abbrev negative : ℕ → Bool
negative x = leb (2 ^ 63) x

unfoldable pub exec_mulh : DecodedInstruction → Machine → Machine
exec_mulh inst m =
    let u = (m.registers inst.rs1) in
    let v = (m.registers inst.rs2) in
    let res_hi = multiply_high_u64 u v in
    let res_hi1 = if negative u then sub64 res_hi v else res_hi in
    let res_hi2 = if negative v then sub64 res_hi1 u else res_hi1 in write_reg inst.rd (res_hi2) m

unfoldable pub exec_mulhsu : DecodedInstruction → Machine → Machine
exec_mulhsu inst m =
    let u = (m.registers inst.rs1) in
    let v = (m.registers inst.rs2) in
    let res_hi = multiply_high_u64 u v in
    let res_hi1 = if negative u then sub64 res_hi v else res_hi in write_reg inst.rd (res_hi1) m

-- The register file is written directly, register 0 included.
unfoldable pub exec_mulhu : DecodedInstruction → Machine → Machine
exec_mulhu inst m = record m {
  registers =
      update m.registers inst.rd (multiply_high_u64 (m.registers inst.rs1) (m.registers inst.rs2));
}
