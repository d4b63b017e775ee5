-- ===== src/Cpu/Csr.antt =====
-- `Processor::readCSR` and `writeCSR`: the accesses that check the privilege.
use rv64i_simulator.Base.{ℕ, ◌||◌, none, some, ltb, ◌==◌, if◌then◌else◌, bit_and, ◌>>>◌}
use rv64i_simulator.Trap.{illegal_instruction}
use rv64i_simulator.Machine.{Machine, text, int, print}
use rv64i_simulator.Cpu.CsrFile.{read_csr_raw, write_csr_raw}
use rv64i_simulator.Cpu.Raise.{raise_trap}
use rv64i_simulator.Bus.Read.{read_word}
use Prim.Native.String.{String}

-- `raiseTrap(ILLEGAL_INSTRUCTION, pc, bus.readWord(pc))`, for a `pc` that the read does not change.
unfoldable pub raise_illegal : ℕ → Machine → Machine
raise_illegal pc m = let (value, m') = read_word pc m in raise_trap illegal_instruction pc value m'

-- The same with `program_counter`. C++ leaves the order of the arguments open; g++, the compiler of
-- the Makefile, evaluates the last one first, so `program_counter` is taken after the read, which may
-- itself raise a trap.
unfoldable pub raise_illegal_here : Machine → Machine
raise_illegal_here m =
    let (value, m') = read_word m.program_counter m in
    raise_trap illegal_instruction m'.program_counter value m'

-- The message, the number and the end of the line.
abbrev complain : String → ℕ → Machine → Machine
complain message address m = print (text "\n") (print (int address) (print (text message) m))

unfoldable pub read_csr : ℕ → Machine → ℕ × Machine
read_csr address m =
    let privilege_required = bit_and (address >>> 8) 0x3 in
    if ltb m.mode privilege_required
    then (let m' = complain "Unprivileged Read Access: " address m in (0, raise_illegal_here m'))
    else elim (read_csr_raw address m) [
      | some result ↦ (result, m)
      | none ↦ let m' = complain "Unimplemented CSR Read: " address m in (0, raise_illegal_here m')
    ]

unfoldable pub write_csr : ℕ → ℕ → Machine → Machine
write_csr address val m =
    let privilege_required = bit_and (address >>> 8) 0x3 in
    let is_read_only = bit_and (address >>> 10) 0x3 == 0x3 in
    if ltb m.mode privilege_required || is_read_only
    then (let message =
          if is_read_only then "Write to Read-Only CSR: " else "Unprivileged Write Access: " in
        let m' = complain message address m in raise_illegal_here m')
    else elim (write_csr_raw address val m) [
      | some m' ↦ m'
      | none ↦ let m' = complain "Unimplemented CSR Write: " address m in raise_illegal_here m'
    ]
