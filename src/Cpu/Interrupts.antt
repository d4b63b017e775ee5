-- ===== src/Cpu/Interrupts.antt =====
-- `Processor::checkInterrupts`: the timer comparison and the two interrupts. Nothing calls it.
use rv64i_simulator.Base.{
  ℕ, Bool, true, ◌&&◌, leb, ◌==◌, if◌then◌else◌, bit_and, bit_or, ◌<<<◌, not64, any_set,
}
use rv64i_simulator.Trap.{TrapCause, machine_timer_interrupt, machine_software_interrupt}
use rv64i_simulator.Machine.{Machine, machine_mode}
use rv64i_simulator.Cpu.Raise.{raise_trap}
use rv64i_simulator.Cpu.Csr.{read_csr, write_csr}

-- One `if (enabled && (mie & bit) && (mip & bit)) raiseTrap(...)`.
abbrev take : Bool → ℕ → ℕ → ℕ → TrapCause → Machine → Machine
take enabled mie mip bit cause m =
    if enabled && any_set mie bit && any_set mip bit
    then raise_trap cause m.program_counter 0 m
    else m

unfoldable pub check_interrupts : Machine → Machine
check_interrupts m =
    let (mip, m1) = read_csr 0x344 m in
    let m2 =
      if leb m1.mtimecmp m1.mtime
      then write_csr 0x344 (bit_or mip (1 <<< 7)) m1
      else write_csr 0x344 (bit_and mip (not64 (1 <<< 7))) m1 in
    let (mip', m3) = read_csr 0x344 m2 in
    let (mie_reg, m4) = read_csr 0x304 m3 in
    let (mstatus, m5) = read_csr 0x300 m4 in
    let m_interrupts_enabled = if m5.mode == machine_mode then any_set mstatus 0x8 else true in
    let m6 = take m_interrupts_enabled mie_reg mip' (1 <<< 7) machine_timer_interrupt m5 in
    take m_interrupts_enabled mie_reg mip' (1 <<< 3) machine_software_interrupt m6
