-- ===== src/Instr/Access.antt =====
-- The loads and stores: src/Instructions/Loads.cpp and Stores.cpp, with `lui`, and `lw` and `sw` of
-- RV64I.cpp. Trace output is left out.
pub mod RoundTrip
pub mod Denied
use rv64i_simulator.Base.{ℕ, ◌+◌, ◌==◌, if◌then◌else◌, u8, u16, u32, u64, sx8, sx16, sx32}
use rv64i_simulator.Machine.{Machine, write_reg}
use rv64i_simulator.Decode.{DecodedInstruction}
use rv64i_simulator.Bus.Read.{read_byte, read_half, read_word, read_double}
use rv64i_simulator.Bus.Write.{write_byte, write_half, write_word, write_double}

-- `registers[rs1] + imm`.
abbrev pub address_of : DecodedInstruction → Machine → ℕ
address_of inst m = u64 (m.registers inst.rs1 + sx32 inst.imm)

unfoldable pub exec_lb : DecodedInstruction → Machine → Machine
exec_lb inst m =
    if inst.rd == 0
    then m
    else (let (value, m') = read_byte (address_of inst m) m in write_reg inst.rd (sx8 value) m')

unfoldable pub exec_lh : DecodedInstruction → Machine → Machine
exec_lh inst m =
    if inst.rd == 0
    then m
    else (let (value, m') = read_half (address_of inst m) m in write_reg inst.rd (sx16 value) m')

unfoldable pub exec_lw : DecodedInstruction → Machine → Machine
exec_lw inst m =
    if inst.rd == 0
    then m
    else (let (value, m') = read_word (address_of inst m) m in write_reg inst.rd (sx32 value) m')

unfoldable pub exec_ld : DecodedInstruction → Machine → Machine
exec_ld inst m =
    if inst.rd == 0
    then m
    else (let (value, m') = read_double (address_of inst m) m in write_reg inst.rd (value) m')

unfoldable pub exec_lbu : DecodedInstruction → Machine → Machine
exec_lbu inst m =
    if inst.rd == 0
    then m
    else (let (value, m') = read_byte (address_of inst m) m in write_reg inst.rd (u8 value) m')

unfoldable pub exec_lhu : DecodedInstruction → Machine → Machine
exec_lhu inst m =
    if inst.rd == 0
    then m
    else (let (value, m') = read_half (address_of inst m) m in write_reg inst.rd (u16 value) m')

unfoldable pub exec_lwu : DecodedInstruction → Machine → Machine
exec_lwu inst m =
    if inst.rd == 0
    then m
    else (let (value, m') = read_word (address_of inst m) m in write_reg inst.rd (u32 value) m')

unfoldable pub exec_lui : DecodedInstruction → Machine → Machine
exec_lui inst m = if inst.rd == 0 then m else (write_reg inst.rd (sx32 inst.imm) m)

unfoldable pub exec_sb : DecodedInstruction → Machine → Machine
exec_sb inst m = write_byte (address_of inst m) (u8 (m.registers inst.rs2)) m

unfoldable pub exec_sh : DecodedInstruction → Machine → Machine
exec_sh inst m = write_half (address_of inst m) (u16 (m.registers inst.rs2)) m

unfoldable pub exec_sw : DecodedInstruction → Machine → Machine
exec_sw inst m = write_word (address_of inst m) (u32 (m.registers inst.rs2)) m

unfoldable pub exec_sd : DecodedInstruction → Machine → Machine
exec_sd inst m = write_double (address_of inst m) ((m.registers inst.rs2)) m
