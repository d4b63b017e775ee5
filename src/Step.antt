-- ===== src/Step.antt =====
-- `Interpreter::handle`, `Processor::step` and `Processor::run`: fetch, decode, look up and call, over
-- an environment of the host and the instruction table. The latter is `init_table` in the program.
pub mod Fetch
pub mod Addi
pub mod Expansion
use rv64i_simulator.Base.{
  ℕ, zero, suc, ◌+◌, Bool, true, false, ◌&&◌, ◌||◌, not, Option, none, some, ◌==◌, if◌then◌else◌,
  bit_and, bit_or, ◌<<<◌, not32, u64,
}
use rv64i_simulator.Trap.{illegal_instruction}
use rv64i_simulator.Machine.{Machine, write_reg, fetch}
use rv64i_simulator.Decode.{DecodedInstruction, InstructionFormat, get_format, decode}
use rv64i_simulator.Registry.{ExecFunc, Table, make_key, lookup}
use rv64i_simulator.Compressed.{decompress}
use rv64i_simulator.Cpu.Raise.{raise_trap}
use rv64i_simulator.Cpu.Translate.{translate}
use rv64i_simulator.Bus.Read.{read_half}
use rv64i_simulator.Instr.System.{Environment}
use rv64i_simulator.Instr.Dispatch.{call}

abbrev is_r : InstructionFormat → Bool
is_r InstructionFormat.r = true
is_r _ = false

-- `lookup_funct7`: only the formats and opcodes where these bits are no immediate keep them.
unfoldable pub lookup_funct7 : DecodedInstruction → ℕ
lookup_funct7 inst =
    if is_r (get_format inst.opcode)
    then inst.funct7
    else (let is_shift =
          (inst.opcode == 0x13 || inst.opcode == 0x1b) && (inst.funct3 == 1 || inst.funct3 == 5) in
        let is_system = inst.opcode == 0x73 in
        if not is_shift && not is_system
        then 0
        else if is_shift
        then bit_and inst.funct7 (not32 0x01)
        else inst.funct7)

unfoldable pub find_handler : Table → DecodedInstruction → Option ExecFunc
find_handler table inst = lookup (make_key inst.opcode inst.funct3 (lookup_funct7 inst)) table

-- `if (func) func(inst, processor); else raiseTrap(...)`.
unfoldable pub dispatch :
    Option Environment → Option ExecFunc → DecodedInstruction → ℕ → Machine → Machine
dispatch env (some func) inst raw m = call env func inst m
dispatch env none inst raw m = raise_trap illegal_instruction inst.pc raw m

unfoldable pub handle : Option Environment → Table → ℕ → ℕ → Machine → Machine
handle env table raw length m =
    let inst = decode raw m.program_counter length in
    write_reg 0 0 (dispatch env (find_handler table inst) inst raw m)

-- The end of `step`, from the word that was fetched. The program counter moves on only if it is
-- what it was after the translation.
unfoldable pub execute : Option Environment → Table → ℕ → ℕ → ℕ → Machine → Machine
execute env table pc_before_exec raw_instruction length m =
    let m1 = record (handle env table raw_instruction length m) { trap_pending = false } in
    let m2 =
      if m1.program_counter == pc_before_exec
      then record m1 { program_counter = u64 (m1.program_counter + length) }
      else m1 in
    write_reg 0 0 (record m2 { step_count = u64 (m2.step_count + 1) })

-- A 32-bit instruction whose second half is at `physical_pc_second`.
unfoldable pub fetch_second : Option Environment → Table → ℕ → ℕ → ℕ → Machine → Machine
fetch_second env table pc_before_exec first_half physical_pc_second m =
    let (second_half, m1) = read_half physical_pc_second m in
    execute env table pc_before_exec (bit_or (second_half <<< 16) first_half) 4 m1

-- `step` after the timer's tick. The result is `false` if the translation fails.
unfoldable pub fetch_first : Option Environment → Table → Machine → Bool × Machine
fetch_first env table m =
    let (physical, m1) = translate m.program_counter fetch m in
    elim physical [
      | none ↦ (false, m1)
      | some physical_pc ↦
          let pc_before_exec = m1.program_counter in
          let (first_half, m2) = read_half physical_pc m1 in
          if not (bit_and first_half 0x3 == 0x3)
          then (true, execute env table pc_before_exec (decompress first_half) 2 m2)
          else if bit_and m2.program_counter 0xfff == 0xffe
          then (let (second, m3) = translate (u64 (m2.program_counter + 2)) fetch m2 in
              elim second [
                | none ↦ (false, m3)
                | some physical_pc_second ↦
                    (true, fetch_second env table pc_before_exec first_half physical_pc_second m3)
              ])
          else (true, fetch_second env table pc_before_exec first_half (u64 (physical_pc + 2)) m2)
    ]

unfoldable pub step : Option Environment → Table → Machine → Bool × Machine
step env table m0 = fetch_first env table (write_reg 0 0 (record m0 { mtime = u64 (m0.mtime + 1) }))

-- `while (!trap) step();`, at most `n` rounds.
unfoldable pub run_for : ℕ → Option Environment → Table → Machine → Machine
run_for zero env table m = m
run_for (suc n) env table m = elim m.trap [
  | true ↦ m
  | false ↦ run_for n env table (step env table m).1
]
