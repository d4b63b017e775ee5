-- ===== src/Instr/Arithmetic.antt =====
-- src/Instructions/Arithmetic.cpp. A register number of an instruction is one of 5 bits.
use rv64i_simulator.Base.{
  ◌+◌, ltb, ◌==◌, if◌then◌else◌, bit_and, bit_or, bit_xor, ◌<<<◌, ◌>>>◌, u32, u64, sub64, sx32,
  slt64, asr64, asr32,
}
use rv64i_simulator.Machine.{Machine, write_reg}
use rv64i_simulator.Decode.{DecodedInstruction}

unfoldable pub exec_and : DecodedInstruction → Machine → Machine
exec_and inst m = write_reg inst.rd (bit_and (m.registers inst.rs1) (m.registers inst.rs2)) m

unfoldable pub exec_or : DecodedInstruction → Machine → Machine
exec_or inst m = write_reg inst.rd (bit_or (m.registers inst.rs1) (m.registers inst.rs2)) m

unfoldable pub exec_xor : DecodedInstruction → Machine → Machine
exec_xor inst m = write_reg inst.rd (bit_xor (m.registers inst.rs1) (m.registers inst.rs2)) m

unfoldable pub exec_sll : DecodedInstruction → Machine → Machine
exec_sll inst m =
    write_reg inst.rd (u64 ((m.registers inst.rs1) <<< bit_and (m.registers inst.rs2) 0x3f)) m

unfoldable pub exec_srl : DecodedInstruction → Machine → Machine
exec_srl inst m =
    write_reg inst.rd ((m.registers inst.rs1) >>> bit_and (m.registers inst.rs2) 0x3f) m

unfoldable pub exec_sra : DecodedInstruction → Machine → Machine
exec_sra inst m =
    write_reg inst.rd (asr64 (m.registers inst.rs1) (bit_and (m.registers inst.rs2) 0x3f)) m

unfoldable pub exec_slt : DecodedInstruction → Machine → Machine
exec_slt inst m =
    write_reg inst.rd (if slt64 (m.registers inst.rs1) (m.registers inst.rs2) then 1 else 0) m

unfoldable pub exec_sltu : DecodedInstruction → Machine → Machine
exec_sltu inst m =
    write_reg inst.rd (if ltb (m.registers inst.rs1) (m.registers inst.rs2) then 1 else 0) m

unfoldable pub exec_andi : DecodedInstruction → Machine → Machine
exec_andi inst m = write_reg inst.rd (bit_and (m.registers inst.rs1) (sx32 inst.imm)) m

unfoldable pub exec_ori : DecodedInstruction → Machine → Machine
exec_ori inst m = write_reg inst.rd (bit_or (m.registers inst.rs1) (sx32 inst.imm)) m

unfoldable pub exec_xori : DecodedInstruction → Machine → Machine
exec_xori inst m = write_reg inst.rd (bit_xor (m.registers inst.rs1) (sx32 inst.imm)) m

unfoldable pub exec_slli : DecodedInstruction → Machine → Machine
exec_slli inst m = write_reg inst.rd (u64 ((m.registers inst.rs1) <<< bit_and inst.imm 0x3f)) m

unfoldable pub exec_srli : DecodedInstruction → Machine → Machine
exec_srli inst m = write_reg inst.rd ((m.registers inst.rs1) >>> bit_and inst.imm 0x3f) m

unfoldable pub exec_srai : DecodedInstruction → Machine → Machine
exec_srai inst m = write_reg inst.rd (asr64 (m.registers inst.rs1) (bit_and inst.imm 0x3f)) m

unfoldable pub exec_slti : DecodedInstruction → Machine → Machine
exec_slti inst m =
    write_reg inst.rd (if slt64 (m.registers inst.rs1) (sx32 inst.imm) then 1 else 0) m

unfoldable pub exec_sltiu : DecodedInstruction → Machine → Machine
exec_sltiu inst m =
    write_reg inst.rd (if ltb (m.registers inst.rs1) (sx32 inst.imm) then 1 else 0) m

unfoldable pub exec_addw : DecodedInstruction → Machine → Machine
exec_addw inst m =
    write_reg inst.rd (sx32 (u32 (u64 ((m.registers inst.rs1) + (m.registers inst.rs2))))) m

unfoldable pub exec_subw : DecodedInstruction → Machine → Machine
exec_subw inst m =
    write_reg inst.rd (sx32 (u32 (sub64 (m.registers inst.rs1) (m.registers inst.rs2)))) m

unfoldable pub exec_addiw : DecodedInstruction → Machine → Machine
exec_addiw inst m =
    if inst.rd == 0
    then m
    else (let val32 = u32 (m.registers inst.rs1) in
        let result32 = u32 (val32 + inst.imm) in write_reg inst.rd (sx32 result32) m)

unfoldable pub exec_sllw : DecodedInstruction → Machine → Machine
exec_sllw inst m =
    write_reg inst.rd
      (sx32 (u32 (u32 (m.registers inst.rs1) <<< bit_and (m.registers inst.rs2) 0x1f))) m

unfoldable pub exec_srlw : DecodedInstruction → Machine → Machine
exec_srlw inst m =
    write_reg inst.rd (sx32 (u32 (m.registers inst.rs1) >>> bit_and (m.registers inst.rs2) 0x1f)) m

unfoldable pub exec_sraw : DecodedInstruction → Machine → Machine
exec_sraw inst m =
    write_reg inst.rd
      (sx32 (asr32 (u32 (m.registers inst.rs1)) (bit_and (m.registers inst.rs2) 0x1f))) m

unfoldable pub exec_auipc : DecodedInstruction → Machine → Machine
exec_auipc inst m =
    if inst.rd == 0 then m else (write_reg inst.rd (u64 (m.program_counter + sx32 inst.imm)) m)

unfoldable pub exec_slliw : DecodedInstruction → Machine → Machine
exec_slliw inst m =
    if inst.rd == 0
    then m
    else (let result32 = u32 (u32 (m.registers inst.rs1) <<< bit_and inst.imm 0x1f) in
        write_reg inst.rd (sx32 result32) m)

unfoldable pub exec_srliw : DecodedInstruction → Machine → Machine
exec_srliw inst m =
    if inst.rd == 0
    then m
    else (let result32 = u32 (m.registers inst.rs1) >>> bit_and inst.imm 0x1f in
        write_reg inst.rd (sx32 result32) m)

unfoldable pub exec_sraiw : DecodedInstruction → Machine → Machine
exec_sraiw inst m =
    if inst.rd == 0
    then m
    else (let result32 = asr32 (u32 (m.registers inst.rs1)) (bit_and inst.imm 0x1f) in
        write_reg inst.rd (sx32 result32) m)
