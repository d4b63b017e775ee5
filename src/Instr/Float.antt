-- ===== src/Instr/Float.antt =====
-- src/Instructions/Float.cpp: moves between the register files, and the loads and stores of doubles.
use rv64i_simulator.Base.{bit_and, bit_or, sx32, update}
use rv64i_simulator.Machine.{Machine}
use rv64i_simulator.Decode.{DecodedInstruction}
use rv64i_simulator.Bus.Read.{read_double}
use rv64i_simulator.Bus.Write.{write_double}
use rv64i_simulator.Instr.Access.{address_of}

unfoldable pub exec_fsd : DecodedInstruction → Machine → Machine
exec_fsd inst m = write_double (address_of inst m) (m.f_registers inst.rs2) m

unfoldable pub exec_fld : DecodedInstruction → Machine → Machine
exec_fld inst m =
    let (value, m') = read_double (address_of inst m) m in
    record m' { f_registers = update m'.f_registers inst.rd value }

unfoldable pub exec_fmv_w_x : DecodedInstruction → Machine → Machine
exec_fmv_w_x inst m =
    let val = bit_and (m.registers inst.rs1) 0xffff_ffff in
    record m { f_registers = update m.f_registers inst.rd (bit_or val 0xffff_ffff_0000_0000) }

unfoldable pub exec_fmv_x_w : DecodedInstruction → Machine → Machine
exec_fmv_x_w inst m =
    let val = bit_and (m.f_registers inst.rs1) 0xffff_ffff in
    record m { registers = update m.registers inst.rd (sx32 val) }

unfoldable pub exec_fmv_d_x : DecodedInstruction → Machine → Machine
exec_fmv_d_x inst m = record m { f_registers = update m.f_registers inst.rd (m.registers inst.rs1) }

unfoldable pub exec_fmv_x_d : DecodedInstruction → Machine → Machine
exec_fmv_x_d inst m = record m { registers = update m.registers inst.rd (m.f_registers inst.rs1) }
