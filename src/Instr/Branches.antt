-- ===== src/Instr/Branches.antt =====
-- src/Instructions/Branches.cpp and RV64I.cpp but its load and store: branches, jumps, sums, and the
-- fences, which do nothing. Trace output is left out.
use rv64i_simulator.Base.{
  ◌+◌, not, leb, ltb, ◌==◌, if◌then◌else◌, bit_and, u64, sub64, not64, sx32, slt64, update,
}
use rv64i_simulator.Machine.{Machine, write_reg}
use rv64i_simulator.Decode.{DecodedInstruction}

-- `processor.program_counter = inst.pc + inst.imm`.
abbrev pub branch_to : DecodedInstruction → Machine → Machine
branch_to inst m = record m { program_counter = u64 (inst.pc + sx32 inst.imm) }

unfoldable pub exec_beq : DecodedInstruction → Machine → Machine
exec_beq inst m = if (m.registers inst.rs1) == (m.registers inst.rs2) then branch_to inst m else m

unfoldable pub exec_bne : DecodedInstruction → Machine → Machine
exec_bne inst m =
    if not ((m.registers inst.rs1) == (m.registers inst.rs2)) then branch_to inst m else m

unfoldable pub exec_blt : DecodedInstruction → Machine → Machine
exec_blt inst m =
    if slt64 (m.registers inst.rs1) (m.registers inst.rs2) then branch_to inst m else m

unfoldable pub exec_bge : DecodedInstruction → Machine → Machine
exec_bge inst m =
    if not (slt64 (m.registers inst.rs1) (m.registers inst.rs2)) then branch_to inst m else m

unfoldable pub exec_bltu : DecodedInstruction → Machine → Machine
exec_bltu inst m = if ltb (m.registers inst.rs1) (m.registers inst.rs2) then branch_to inst m else m

unfoldable pub exec_bgeu : DecodedInstruction → Machine → Machine
exec_bgeu inst m = if leb (m.registers inst.rs2) (m.registers inst.rs1) then branch_to inst m else m

unfoldable pub exec_jalr : DecodedInstruction → Machine → Machine
exec_jalr inst m =
    let target = bit_and (u64 ((m.registers inst.rs1) + sx32 inst.imm)) (not64 1) in
    record (write_reg inst.rd (u64 (inst.pc + inst.length)) m) { program_counter = target }

unfoldable pub exec_jal : DecodedInstruction → Machine → Machine
exec_jal inst m = branch_to inst (write_reg inst.rd (u64 (inst.pc + inst.length)) m)

unfoldable pub exec_add : DecodedInstruction → Machine → Machine
exec_add inst m = record m {
  registers = update m.registers inst.rd (u64 ((m.registers inst.rs1) + (m.registers inst.rs2)));
}

unfoldable pub exec_sub : DecodedInstruction → Machine → Machine
exec_sub inst m = record m {
  registers = update m.registers inst.rd (sub64 (m.registers inst.rs1) (m.registers inst.rs2));
}

unfoldable pub exec_addi : DecodedInstruction → Machine → Machine
exec_addi inst m = record m {
  registers = update m.registers inst.rd (u64 ((m.registers inst.rs1) + sx32 inst.imm));
}

unfoldable pub exec_fence : DecodedInstruction → Machine → Machine
exec_fence inst m = m

unfoldable pub exec_sfence_vma : DecodedInstruction → Machine → Machine
exec_sfence_vma inst m = m

unfoldable pub exec_fence_i : DecodedInstruction → Machine → Machine
exec_fence_i inst m = m
