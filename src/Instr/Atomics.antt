-- ===== src/Instr/Atomics.antt =====
-- src/Instructions/Atomics.cpp.
pub mod Reservation
pub mod Operations
use rv64i_simulator.Base.{
  ℕ, ◌+◌, true, false, ◌&&◌, ltb, ◌==◌, if◌then◌else◌, bit_and, bit_or, bit_xor, u32, u64, sx32,
  slt64, slt32,
}
use rv64i_simulator.Machine.{Machine, write_reg}
use rv64i_simulator.Decode.{DecodedInstruction}
use rv64i_simulator.Bus.Read.{read_word, read_double}
use rv64i_simulator.Bus.Write.{write_word, write_double}

unfoldable pub exec_lr_w : DecodedInstruction → Machine → Machine
exec_lr_w inst m =
    let addr = m.registers inst.rs1 in
    let (val, m1) = read_word addr m in
    write_reg inst.rd (sx32 val) (record m1 { load_reservation = addr; reservation_valid = true })

unfoldable pub exec_sc_w : DecodedInstruction → Machine → Machine
exec_sc_w inst m =
    let addr = m.registers inst.rs1 in
    let m1 =
      if m.reservation_valid && m.load_reservation == addr
      then write_reg inst.rd 0 (write_word addr (u32 (m.registers inst.rs2)) m)
      else write_reg inst.rd 1 m in
    record m1 { reservation_valid = false }

unfoldable pub exec_lr_d : DecodedInstruction → Machine → Machine
exec_lr_d inst m =
    let addr = m.registers inst.rs1 in
    let (val, m1) = read_double addr m in
    write_reg inst.rd (val) (record m1 { load_reservation = addr; reservation_valid = true })

unfoldable pub exec_sc_d : DecodedInstruction → Machine → Machine
exec_sc_d inst m =
    let addr = m.registers inst.rs1 in
    let m1 =
      if m.reservation_valid && m.load_reservation == addr
      then write_reg inst.rd 0 (write_double addr (m.registers inst.rs2) m)
      else write_reg inst.rd 1 m in
    record m1 { reservation_valid = false }

-- `AMO_OP_W`: `op` takes the old value and the source as patterns of 32 bits.
unfoldable pub amo_op_w : (ℕ → ℕ → ℕ) → DecodedInstruction → Machine → Machine
amo_op_w op inst m =
    let addr = m.registers inst.rs1 in
    let (old_val, m1) = read_word addr m in
    let src_val = u32 (m1.registers inst.rs2) in
    let m2 = write_word addr (op old_val src_val) m1 in write_reg inst.rd (sx32 old_val) m2

-- `AMO_OP_D`: the same on 64 bits.
unfoldable pub amo_op_d : (ℕ → ℕ → ℕ) → DecodedInstruction → Machine → Machine
amo_op_d op inst m =
    let addr = m.registers inst.rs1 in
    let (old_val, m1) = read_double addr m in
    let src_val = m1.registers inst.rs2 in
    let m2 = write_double addr (op old_val src_val) m1 in write_reg inst.rd old_val m2

unfoldable pub exec_amoswap_w : DecodedInstruction → Machine → Machine
exec_amoswap_w = amo_op_w (λ x y. y)

unfoldable pub exec_amoswap_d : DecodedInstruction → Machine → Machine
exec_amoswap_d = amo_op_d (λ x y. y)

unfoldable pub exec_amoadd_w : DecodedInstruction → Machine → Machine
exec_amoadd_w = amo_op_w (λ x y. u32 (x + y))

unfoldable pub exec_amoadd_d : DecodedInstruction → Machine → Machine
exec_amoadd_d = amo_op_d (λ x y. u64 (x + y))

unfoldable pub exec_amoxor_w : DecodedInstruction → Machine → Machine
exec_amoxor_w = amo_op_w (λ x y. bit_xor x y)

unfoldable pub exec_amoxor_d : DecodedInstruction → Machine → Machine
exec_amoxor_d = amo_op_d (λ x y. bit_xor x y)

unfoldable pub exec_amoand_w : DecodedInstruction → Machine → Machine
exec_amoand_w = amo_op_w (λ x y. bit_and x y)

unfoldable pub exec_amoand_d : DecodedInstruction → Machine → Machine
exec_amoand_d = amo_op_d (λ x y. bit_and x y)

unfoldable pub exec_amoor_w : DecodedInstruction → Machine → Machine
exec_amoor_w = amo_op_w (λ x y. bit_or x y)

unfoldable pub exec_amoor_d : DecodedInstruction → Machine → Machine
exec_amoor_d = amo_op_d (λ x y. bit_or x y)

unfoldable pub exec_amomin_w : DecodedInstruction → Machine → Machine
exec_amomin_w = amo_op_w (λ x y. if slt32 x y then x else y)

unfoldable pub exec_amomin_d : DecodedInstruction → Machine → Machine
exec_amomin_d = amo_op_d (λ x y. if slt64 x y then x else y)

unfoldable pub exec_amomax_w : DecodedInstruction → Machine → Machine
exec_amomax_w = amo_op_w (λ x y. if slt32 y x then x else y)

unfoldable pub exec_amomax_d : DecodedInstruction → Machine → Machine
exec_amomax_d = amo_op_d (λ x y. if slt64 y x then x else y)

unfoldable pub exec_amominu_w : DecodedInstruction → Machine → Machine
exec_amominu_w = amo_op_w (λ x y. if ltb x y then x else y)

unfoldable pub exec_amominu_d : DecodedInstruction → Machine → Machine
exec_amominu_d = amo_op_d (λ x y. if ltb x y then x else y)

unfoldable pub exec_amomaxu_w : DecodedInstruction → Machine → Machine
exec_amomaxu_w = amo_op_w (λ x y. if ltb y x then x else y)

unfoldable pub exec_amomaxu_d : DecodedInstruction → Machine → Machine
exec_amomaxu_d = amo_op_d (λ x y. if ltb y x then x else y)
