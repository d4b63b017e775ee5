-- ===== src/Instr/System/Return.antt =====
-- A trap to machine mode, and the `mret` that returns from it.
use rv64i_simulator.Base.{
  ℕ, ◌+◌, ◌*◌, ◌/◌, ◌%◌, ◌^◌, ◌<◌, ◌≤◌, ◌≡◌, refl, false, bit_and, not64, arith, ltb, ◌∙◌,
}
use rv64i_simulator.Base.Bits.{bit_and_field}
use rv64i_simulator.Trap.{TrapCause, trap_code}
use rv64i_simulator.Machine.{Machine, machine_mode}
use rv64i_simulator.Decode.{DecodedInstruction}
use rv64i_simulator.Cpu.CsrFile.{read_csr_raw, write_csr_raw}
use rv64i_simulator.Cpu.Raise.{raise_trap, delegate_to_s, trap_to_m, trap_target}
use rv64i_simulator.Cpu.Raise.Status.{
  m_trap_status, m_return_status, clear_m_fields, and_not_stacked,
}
use rv64i_simulator.Instr.System.{exec_mret}

-- For a cause that is not delegated, a mode of at most 3 and a 64-bit mstatus, raiseTrap enters
-- machine mode at mtvec's target, records the cause, address and value, stacks MIE and the mode
-- in mstatus, and keeps the registers and RAM.
pub raise_trap-m :
    (cause : TrapCause) (trap_pc trap_value : ℕ) (m : Machine)
    → delegate_to_s cause m ≡ false
    → m.mode ≤ 3
    → m.csrs.mstatus < 2 ^ 64
    → let m' = raise_trap cause trap_pc trap_value m in
      let old = m.csrs.mstatus in
      (m'.mode ≡ machine_mode)
      × (m'.program_counter ≡ trap_target cause m.csrs.mtvec)
      × (m'.csrs.mepc ≡ trap_pc)
      × (m'.csrs.mcause ≡ trap_code cause)
      × (m'.csrs.mtval ≡ trap_value)
      × (m'.csrs.mstatus ≡ bit_and old (not64 0x1888) + old / 2 ^ 3 % 2 * 2 ^ 7 + m.mode * 2 ^ 11)
      × (m'.registers ≡ m.registers)
      × (m'.ram ≡ m.ram)
unfolding raise_trap trap_to_m delegate_to_s read_csr_raw write_csr_raw
raise_trap-m cause trap_pc trap_value m h k b =
    rw h (refl, refl, refl, refl, refl, m_trap_status m.csrs.mstatus m.mode b k, refl, refl)

-- `mret` in machine mode: it goes to mepc in the mode MPP, MIE becomes MPIE, MPIE 1 and MPP 0.
pub exec_mret_lem :
    (inst : DecodedInstruction) (m : Machine)
    → m.mode ≡ machine_mode
    → m.csrs.mstatus < 2 ^ 64
    → let m' = exec_mret inst m in
      let old = m.csrs.mstatus in
      (m'.mode ≡ old / 2 ^ 11 % 4)
      × (m'.program_counter ≡ m.csrs.mepc)
      × (m'.csrs.mstatus ≡ bit_and old (not64 0x1888) + old / 2 ^ 7 % 2 * 2 ^ 3 + 2 ^ 7)
      × (m'.registers ≡ m.registers)
      × (m'.ram ≡ m.ram)
unfolding exec_mret read_csr_raw write_csr_raw
exec_mret_lem inst m k b =
    let test : ltb m.mode machine_mode ≡ false = ground arith in
    rw test (
      omega (arith, bit_and_field 11 2 m.csrs.mstatus),
      refl,
      m_return_status m.csrs.mstatus b,
      refl,
      refl,
    )

-- For a cause that is not delegated, a mode of at most 3 and a 64-bit mstatus, raiseTrap and then
-- mret give back the mode, the saved program counter, the registers and MIE, and change only MPIE
-- and MPP of mstatus.
pub exec_mret-raise_trap :
    (cause : TrapCause) (trap_pc trap_value : ℕ) (inst : DecodedInstruction) (m : Machine)
    → delegate_to_s cause m ≡ false
    → m.mode ≤ 3
    → m.csrs.mstatus < 2 ^ 64
    → let m' = exec_mret inst (raise_trap cause trap_pc trap_value m) in
      (m'.mode ≡ m.mode)
      × (m'.program_counter ≡ trap_pc)
      × (m'.registers ≡ m.registers)
      × (m'.csrs.mstatus / 2 ^ 3 % 2 ≡ m.csrs.mstatus / 2 ^ 3 % 2)
      × (bit_and m'.csrs.mstatus (not64 0x1880) ≡ bit_and m.csrs.mstatus (not64 0x1880))
exec_mret-raise_trap cause trap_pc trap_value inst m h k b =
    let t = raise_trap-m cause trap_pc trap_value m h k b in
    let m1 = raise_trap cause trap_pc trap_value m in
    let c = clear_m_fields m.csrs.mstatus b in
    let b1 : m1.csrs.mstatus < 2 ^ 64 = omega arith in
    let r = exec_mret_lem inst m1 t.0 b1 in
    let c1 = clear_m_fields m1.csrs.mstatus b1 in
    let m' = exec_mret inst m1 in
    (
      omega arith,
      r.1 ∙ t.2,
      r.3 ∙ t.6,
      omega arith,
      omega
          (arith, and_not_stacked m.csrs.mstatus b, and_not_stacked m'.csrs.mstatus (omega arith)),
    )
