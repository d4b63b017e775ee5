-- ===== src/Cpu/Raise.antt =====
-- `Processor::raiseTrap`: which mode takes a trap, what is saved, and where it goes. The debug
-- output at its end is left out.
pub mod Status
pub mod Delegated
use rv64i_simulator.Base.{
  ℕ, ◌+◌, ◌*◌, ◌%◌, Bool, true, ◌&&◌, leb, ◌==◌, if◌then◌else◌, bit_and, bit_or, ◌<<<◌, ◌>>>◌,
  not64, u64, any_set,
}
use rv64i_simulator.Trap.{TrapCause, trap_code, interrupt_bit}
use rv64i_simulator.Machine.{Machine, supervisor_mode, machine_mode}
use rv64i_simulator.Cpu.CsrFile.{raw_or_zero, raw_write}

abbrev pub is_interrupt : TrapCause → Bool
is_interrupt cause = any_set (trap_code cause) interrupt_bit

abbrev pub exception_code : TrapCause → ℕ
exception_code cause = bit_and (trap_code cause) (not64 interrupt_bit)

-- Whether the trap goes to supervisor mode. C++ leaves `1ULL << k` undefined from 64 on, where the
-- hardware shifts by `k % 64`; no cause that the simulator raises has such a code.
unfoldable pub delegate_to_s : TrapCause → Machine → Bool
delegate_to_s cause m =
    let deleg_csr = raw_or_zero (if is_interrupt cause then 0x303 else 0x302) m in
    leb m.mode supervisor_mode && any_set deleg_csr (1 <<< (exception_code cause % 64))

-- Where a trap vector leads: interrupts are spread out in vectored mode.
unfoldable pub trap_target : TrapCause → ℕ → ℕ
trap_target cause tvec =
    let base_address = bit_and tvec (not64 3) in
    if bit_and tvec 3 == 1 && is_interrupt cause
    then u64 (base_address + 4 * exception_code cause)
    else base_address

unfoldable pub trap_to_s : TrapCause → ℕ → ℕ → Machine → Machine
trap_to_s cause trap_pc trap_value m =
    let m1 =
      raw_write 0x143 trap_value (raw_write 0x142 (trap_code cause) (raw_write 0x141 trap_pc m)) in
    let sstatus = raw_or_zero 0x100 m1 in
    let sie = bit_and (sstatus >>> 1) 0x1 in
    let cleared = bit_and sstatus (not64 (bit_or (bit_or (1 <<< 8) (1 <<< 5)) (1 <<< 1))) in
    let saved = bit_or cleared (sie <<< 5) in
    let status = if m.mode == supervisor_mode then bit_or saved (1 <<< 8) else saved in
    let m2 = record (raw_write 0x100 status m1) { mode = supervisor_mode } in
    record m2 { program_counter = trap_target cause (raw_or_zero 0x105 m2) }

unfoldable pub trap_to_m : TrapCause → ℕ → ℕ → Machine → Machine
trap_to_m cause trap_pc trap_value m =
    let m1 =
      raw_write 0x343 trap_value (raw_write 0x342 (trap_code cause) (raw_write 0x341 trap_pc m)) in
    let mstatus_val = raw_or_zero 0x300 m1 in
    let mie = bit_and (mstatus_val >>> 3) 0x1 in
    let cleared = bit_and mstatus_val (not64 (bit_or (bit_or (3 <<< 11) (1 <<< 7)) (1 <<< 3))) in
    let status = bit_or (bit_or cleared (mie <<< 7)) (m.mode <<< 11) in
    let m2 = record (raw_write 0x300 status m1) { mode = machine_mode } in
    record m2 { program_counter = trap_target cause (raw_or_zero 0x305 m2) }

unfoldable pub raise_trap : TrapCause → ℕ → ℕ → Machine → Machine
raise_trap cause trap_pc trap_value m0 =
    let m = record m0 { trap_pending = true } in
    if delegate_to_s cause m
    then trap_to_s cause trap_pc trap_value m
    else trap_to_m cause trap_pc trap_value m
