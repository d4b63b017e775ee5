-- ===== src/Instr/Access/Denied.antt =====
-- A store that no protection entry covers, outside machine mode: the access fault from the handler to the
-- trap's registers.
use rv64i_simulator.Base.{
  ℕ, ◌^◌, ◌<◌, ◌≡◌, refl, ◌∙◌, Bool, true, false, ◌==◌, ◌&&◌, leb, bit_and, not64, any_set, u8, u16,
  u32, arith, ==_ne, Bool-cases, inl, inr,
}
use rv64i_simulator.Trap.{store_access_fault}
use rv64i_simulator.Machine.{Machine, store}
use rv64i_simulator.Decode.{DecodedInstruction}
use rv64i_simulator.Cpu.CsrFile.{read_csr_raw}
use rv64i_simulator.Cpu.Raise.{raise_trap, delegate_to_s, trap_target}
use rv64i_simulator.Cpu.Pmp.{check_pmp}
use rv64i_simulator.Cpu.Pmp.First.{covers, check_pmp_none}
use rv64i_simulator.Bus.Ram.{write_refused}
use rv64i_simulator.Instr.Access.{address_of, exec_sb, exec_sh, exec_sw, exec_sd}
use rv64i_simulator.Instr.System.Return.{raise_trap-m}

-- The state after a store access fault that machine mode takes.
pub record Faulted (m : Machine) (address : ℕ) (m' : Machine) : Type 0 where
  pub mode : m'.mode ≡ 3
  pub handler : m'.program_counter ≡ bit_and m.csrs.mtvec (not64 3)
  pub returns_to : m'.csrs.mepc ≡ m.program_counter
  pub cause : m'.csrs.mcause ≡ 7
  pub value : m'.csrs.mtval ≡ address
  pub registers : m'.registers ≡ m.registers
  pub ram : m'.ram ≡ m.ram
  pub uart : m'.uart ≡ m.uart
  pub msip : m'.msip ≡ m.msip
  pub mtimecmp : m'.mtimecmp ≡ m.mtimecmp

and_false : (b c : Bool) → c ≡ false → (b && c) ≡ false
and_false true c h = h
and_false false c h = refl

-- An exception goes to the base address whatever the vector mode is.
direct : (tvec : ℕ) → trap_target store_access_fault tvec ≡ bit_and tvec (not64 3)
unfolding trap_target
direct tvec = elim (Bool-cases (bit_and tvec 3 == 1)) [ inl e ↦ rw e refl | inr e ↦ rw e refl ]

module _ (m : Machine) (inst : DecodedInstruction) (below : m.mode < 3)
    (uncovered : (j : ℕ) → j < 64 → covers m (address_of inst m) j ≡ false)
    (kept : any_set m.csrs.medeleg 0x80 ≡ false) (status : m.csrs.mstatus < 2 ^ 64) where
  abbrev faulting : Machine
  faulting = raise_trap store_access_fault m.program_counter (address_of inst m) m

  refused : check_pmp (address_of inst m) store m ≡ false
  refused = check_pmp_none m (address_of inst m) store uncovered ∙ ==_ne m.mode 3 (omega arith)

  not_delegated : delegate_to_s store_access_fault m ≡ false
  unfolding delegate_to_s read_csr_raw
  not_delegated = and_false (leb m.mode 1) _ kept

  faulting-Faulted : Faulted m (address_of inst m) faulting
  faulting-Faulted =
      let t =
        raise_trap-m store_access_fault m.program_counter (address_of inst m) m not_delegated
          (omega arith) status in
      let w = write_refused m (address_of inst m) 0 refused in
      record {
        mode = t.0;
        handler = t.1 ∙ direct m.csrs.mtvec;
        returns_to = t.2;
        cause = t.3;
        value = t.4;
        registers = t.6;
        ram = t.7;
        uart = w.6;
        msip = w.7;
        mtimecmp = w.8;
      }

  -- Below machine mode, with no PMP entry that covers the address, store access faults not
  -- delegated and a 64-bit mstatus, each of sb, sh, sw and sd goes to machine mode at mtvec's base
  -- with the program counter in mepc, 7 in mcause and the address in mtval, and leaves RAM, the
  -- registers, the UART, msip and mtimecmp as they were.
  pub exec_sb-Faulted :
      Faulted m (address_of inst m) (exec_sb inst m)
      × Faulted m (address_of inst m) (exec_sh inst m)
      × Faulted m (address_of inst m) (exec_sw inst m)
      × Faulted m (address_of inst m) (exec_sd inst m)
  unfolding exec_sb exec_sh exec_sw exec_sd
  exec_sb-Faulted =
      let a = address_of inst m in
      let v = m.registers inst.rs2 in
      (
        rw (write_refused m a (u8 v) refused).0 faulting-Faulted,
        rw (write_refused m a (u16 v) refused).1 faulting-Faulted,
        rw (write_refused m a (u32 v) refused).2 faulting-Faulted,
        rw (write_refused m a v refused).3 faulting-Faulted,
      )
