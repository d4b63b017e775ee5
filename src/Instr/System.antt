-- ===== src/Instr/System.antt =====
-- src/Instructions/CSR.cpp: environment calls, returns from traps and the CSR instructions. Trace and
-- debug output, and the dump of the debug history after `ebreak`, are left out.
pub mod Return
pub mod Delegated
pub mod Swap
use rv64i_simulator.Base.{
  ℕ, Bool, ◌&&◌, not, Option, none, some, ltb, ◌==◌, if◌then◌else◌, bit_and, bit_or, ◌<<<◌, ◌>>>◌,
  not64, any_set,
}
use rv64i_simulator.Machine.{Machine, write_reg, user_mode, supervisor_mode, machine_mode}
use rv64i_simulator.Decode.{DecodedInstruction}
use rv64i_simulator.Trap.{ecall_from_u_mode, ecall_from_s_mode, ecall_from_m_mode, breakpoint}
use rv64i_simulator.Cpu.CsrFile.{raw_or_zero, raw_write}
use rv64i_simulator.Cpu.Raise.{raise_trap}
use rv64i_simulator.Cpu.Csr.{raise_illegal, raise_illegal_here, read_csr, write_csr}

-- include/core/Environment.h: what the host does on `ecall` and `ebreak`.
pub record Environment : Type 0 where
  pub handle_ecall : Machine → Machine
  pub handle_ebreak : Machine → Machine

unfoldable pub exec_ecall : Option Environment → DecodedInstruction → Machine → Machine
exec_ecall (some env) inst m = env.handle_ecall m
exec_ecall none inst m =
    if m.mode == user_mode
    then raise_trap ecall_from_u_mode inst.pc 0 m
    else if m.mode == supervisor_mode
    then raise_trap ecall_from_s_mode inst.pc 0 m
    else raise_trap ecall_from_m_mode inst.pc 0 m

unfoldable pub exec_ebreak : Option Environment → DecodedInstruction → Machine → Machine
exec_ebreak (some env) inst m = env.handle_ebreak (raise_trap breakpoint inst.pc inst.pc m)
exec_ebreak none inst m = raise_trap breakpoint inst.pc inst.pc m

unfoldable pub exec_mret : DecodedInstruction → Machine → Machine
exec_mret inst m =
    if ltb m.mode machine_mode
    then raise_illegal_here m
    else (let mstatus = raw_or_zero 0x300 m in
        let mpp = bit_and mstatus (3 <<< 11) >>> 11 in
        let with_mie =
          if any_set mstatus (1 <<< 7)
          then bit_or mstatus (1 <<< 3)
          else bit_and mstatus (not64 (1 <<< 3)) in
        let with_mpie = bit_or with_mie (1 <<< 7) in
        let m1 = raw_write 0x300 (bit_and with_mpie (not64 (3 <<< 11))) m in
        record m1 { program_counter = raw_or_zero 0x341 m1; mode = mpp })

unfoldable pub exec_sret : DecodedInstruction → Machine → Machine
exec_sret inst m =
    if ltb m.mode supervisor_mode
    then raise_illegal inst.pc m
    else (let sstatus = raw_or_zero 0x100 m in
        let spp = bit_and sstatus (1 <<< 8) >>> 8 in
        let with_sie =
          if any_set sstatus (1 <<< 5)
          then bit_or sstatus (1 <<< 1)
          else bit_and sstatus (not64 (1 <<< 1)) in
        let with_spie = bit_or with_sie (1 <<< 5) in
        let m1 = raw_write 0x100 (bit_and with_spie (not64 (1 <<< 8))) m in
        record m1 {
          program_counter = raw_or_zero 0x141 m1;
          mode = if spp == 0 then user_mode else supervisor_mode;
        })

-- `static_cast<uint16_t>(inst.imm & 0xFFF)`.
abbrev pub csr_addr : DecodedInstruction → ℕ
csr_addr inst = bit_and inst.imm 0xfff

-- Step 3 of each CSR instruction.
abbrev commit : DecodedInstruction → ℕ → Machine → Machine
commit inst old_val m = if inst.rd == 0 then m else write_reg inst.rd old_val m

-- `exec_csrrw` and `exec_csrrwi`, which differ in the value: the read is left out for rd = 0.
unfoldable pub csr_swap : ℕ → DecodedInstruction → Machine → Machine
csr_swap value inst m =
    let (old_val, m1) = if inst.rd == 0 then (0, m) else read_csr (csr_addr inst) m in
    if not (inst.rd == 0) && m1.trap_pending
    then m1
    else (let m2 = write_csr (csr_addr inst) value m1 in
        if m2.trap_pending then m2 else commit inst old_val m2)

-- `exec_csrrs`, `exec_csrrc` and their immediate forms, which differ in the new value and in the
-- test that there is something to write.
unfoldable pub csr_modify : Bool → (ℕ → ℕ) → DecodedInstruction → Machine → Machine
csr_modify writes new_val inst m =
    let (old_val, m1) = read_csr (csr_addr inst) m in
    if m1.trap_pending
    then m1
    else if writes
    then (let m2 = write_csr (csr_addr inst) (new_val old_val) m1 in
        if m2.trap_pending then m2 else commit inst old_val m2)
    else commit inst old_val m1

unfoldable pub exec_csrrw : DecodedInstruction → Machine → Machine
exec_csrrw inst m = csr_swap (m.registers inst.rs1) inst m

unfoldable pub exec_csrrs : DecodedInstruction → Machine → Machine
exec_csrrs inst m =
    csr_modify (not (inst.rs1 == 0)) (λ old_val. bit_or old_val (m.registers inst.rs1)) inst m

unfoldable pub exec_csrrc : DecodedInstruction → Machine → Machine
exec_csrrc inst m =
    csr_modify (not (inst.rs1 == 0)) (λ old_val. bit_and old_val (not64 (m.registers inst.rs1)))
      inst m

unfoldable pub exec_csrrwi : DecodedInstruction → Machine → Machine
exec_csrrwi inst m = csr_swap inst.rs1 inst m

unfoldable pub exec_csrrsi : DecodedInstruction → Machine → Machine
exec_csrrsi inst m = csr_modify (not (inst.rs1 == 0)) (λ old_val. bit_or old_val inst.rs1) inst m

unfoldable pub exec_csrrci : DecodedInstruction → Machine → Machine
exec_csrrci inst m =
    csr_modify (not (inst.rs1 == 0)) (λ old_val. bit_and old_val (not64 inst.rs1)) inst m

unfoldable pub exec_system_dispatch : Option Environment → DecodedInstruction → Machine → Machine
exec_system_dispatch env inst m =
    let number = bit_and inst.imm 0xfff in
    if number == 0x000
    then exec_ecall env inst m
    else if number == 0x001
    then exec_ebreak env inst m
    else if number == 0x102
    then exec_sret inst m
    else if number == 0x302
    then exec_mret inst m
    else if number == 0x105
    then m
    else raise_illegal inst.pc m
