-- ===== src/Instr/System/Delegated.antt =====
-- A trap that is delegated to supervisor mode, and the `sret` that returns from it.
use rv64i_simulator.Base.{
  ℕ, ◌≤◌, ◌≡◌, refl, Bool, true, false, bit_and, not64, arith, ltb, ◌==◌, ◌∙◌, if◌then◌else◌,
}
use rv64i_simulator.Base.Bits.{merge_masked, merge_unmasked}
use rv64i_simulator.Trap.{TrapCause, trap_code}
use rv64i_simulator.Machine.{Machine, user_mode, supervisor_mode}
use rv64i_simulator.Decode.{DecodedInstruction}
use rv64i_simulator.Cpu.CsrFile.{read_csr_raw, write_csr_raw}
use rv64i_simulator.Cpu.Raise.{raise_trap, delegate_to_s, trap_to_s, trap_target}
use rv64i_simulator.Cpu.Raise.Delegated.{
  status, bit_set, window_lem, on_trap, on_trap_lem, on_return, on_return_lem, return_mode,
}
use rv64i_simulator.Instr.System.{exec_sret}

-- For a delegated cause, raiseTrap enters supervisor mode at stvec's target, records the cause,
-- address and value, stacks SIE and whether it came from supervisor mode, clears SIE, and keeps
-- the other bits of mstatus, the registers and RAM.
pub raise_trap-s :
    (cause : TrapCause) (trap_pc trap_value : ℕ) (m : Machine)
    → delegate_to_s cause m ≡ true
    → let m' = raise_trap cause trap_pc trap_value m in
      let old = m.csrs.mstatus in
      (m'.mode ≡ supervisor_mode)
      × (m'.program_counter ≡ trap_target cause m.csrs.stvec)
      × (m'.csrs.sepc ≡ trap_pc)
      × (m'.csrs.scause ≡ trap_code cause)
      × (m'.csrs.stval ≡ trap_value)
      × (bit_and m'.csrs.mstatus 0x122 ≡ status (m.mode == supervisor_mode) (bit_set 1 old) false)
      × (bit_and m'.csrs.mstatus (not64 0x122) ≡ bit_and old (not64 0x122))
      × (m'.registers ≡ m.registers)
      × (m'.ram ≡ m.ram)
unfolding raise_trap trap_to_s delegate_to_s read_csr_raw write_csr_raw
raise_trap-s cause trap_pc trap_value m h =
    let s = m.csrs.mstatus in
    let v = on_trap (m.mode == supervisor_mode) (bit_and s 0x122) in
    let kept : bit_and v 0x122 ≡ status (m.mode == supervisor_mode) (bit_set 1 s) false =
      rw (window_lem s)
        (on_trap_lem (m.mode == supervisor_mode) (bit_set 8 s) (bit_set 5 s) (bit_set 1 s)) in
    rw h (
      refl,
      refl,
      refl,
      refl,
      refl,
      merge_masked 64 s v 0x122 (omega arith) ∙ kept,
      merge_unmasked 64 s v 0x122 (omega arith),
      refl,
      refl,
    )

exec_sret_lem :
    (inst : DecodedInstruction) (m : Machine) (spp spie sie : Bool)
    → m.mode ≡ supervisor_mode
    → bit_and m.csrs.mstatus 0x122 ≡ status spp spie sie
    → let m' = exec_sret inst m in
      (m'.mode ≡ (if spp then supervisor_mode else user_mode))
      × (m'.program_counter ≡ m.csrs.sepc)
      × (bit_and m'.csrs.mstatus 0x122 ≡ status false true spie)
      × (bit_and m'.csrs.mstatus (not64 0x122) ≡ bit_and m.csrs.mstatus (not64 0x122))
      × (m'.registers ≡ m.registers)
unfolding exec_sret read_csr_raw write_csr_raw
exec_sret_lem inst m spp spie sie k w =
    let test : ltb m.mode supervisor_mode ≡ false = ground arith in
    let v = on_return (bit_and m.csrs.mstatus 0x122) in
    rw test (
      rw w (return_mode spp spie sie),
      refl,
      merge_masked 64 m.csrs.mstatus v 0x122 (omega arith) ∙ rw w (on_return_lem spp spie sie),
      merge_unmasked 64 m.csrs.mstatus v 0x122 (omega arith),
      refl,
    )

delegated_mode : (cause : TrapCause) (m : Machine) → delegate_to_s cause m ≡ true → m.mode ≤ 1
unfolding delegate_to_s
delegated_mode cause m h = ground arith

-- For a delegated cause, raiseTrap and then sret give back the mode, the saved program counter,
-- the registers and SIE, leave SPIE set and SPP clear, and change no bit of mstatus outside the
-- sstatus window.
pub exec_sret-raise_trap :
    (cause : TrapCause) (trap_pc trap_value : ℕ) (inst : DecodedInstruction) (m : Machine)
    → delegate_to_s cause m ≡ true
    → let m' = exec_sret inst (raise_trap cause trap_pc trap_value m) in
      (m'.mode ≡ m.mode)
      × (m'.program_counter ≡ trap_pc)
      × (m'.registers ≡ m.registers)
      × (bit_and m'.csrs.mstatus 0x122 ≡ status false true (bit_set 1 m.csrs.mstatus))
      × (bit_and m'.csrs.mstatus (not64 0x122) ≡ bit_and m.csrs.mstatus (not64 0x122))
exec_sret-raise_trap cause trap_pc trap_value inst m h =
    let t = raise_trap-s cause trap_pc trap_value m h in
    let m1 = raise_trap cause trap_pc trap_value m in
    let from_s = m.mode == supervisor_mode in
    let r = exec_sret_lem inst m1 from_s (bit_set 1 m.csrs.mstatus) false t.0 t.5 in
    let low = delegated_mode cause m h in
    (ground (arith, r.0), r.1 ∙ t.2, r.4 ∙ t.7, r.2, r.3 ∙ t.6)
