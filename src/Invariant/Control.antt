-- ===== src/Invariant/Control.antt =====
-- The handlers of CSR.cpp keep the invariant, for a host that does.
use rv64i_simulator.Base.{
  ℕ, ◌^◌, ◌<◌, Bool, true, false, ltb, ◌==◌, if◌then◌else◌, Option, none, some, bit_and, bit_or,
  ◌<<<◌, not64, any_set, Bool-cases, inl, inr, arith,
}
use rv64i_simulator.Base.Bits.{bit_and-le, bit_or-lt, bit_and_field}
use rv64i_simulator.Trap.{ecall_from_u_mode, ecall_from_s_mode, ecall_from_m_mode, breakpoint}
use rv64i_simulator.Machine.{Machine, write_reg, user_mode, supervisor_mode, machine_mode}
use rv64i_simulator.Decode.{DecodedInstruction}
use rv64i_simulator.Cpu.Csr.{read_csr, write_csr}
use rv64i_simulator.Cpu.CsrFile.{raw_or_zero}
use rv64i_simulator.Invariant.{IsValid, Layout, InstFits, set_program_counter, set_mode}
use rv64i_simulator.Invariant.CsrFile.{raw_or_zero-lt, raw_write-IsValid}
use rv64i_simulator.Invariant.Trap.{raise_trap-IsValid}
use rv64i_simulator.Invariant.Bus.{
  raise_illegal-IsValid, raise_illegal_here-IsValid, read_csr-Gives, write_csr-IsValid,
}
use rv64i_simulator.Invariant.Registers.{choose, write_reg-IsValid}
use rv64i_simulator.Instr.System.{
  Environment, exec_ecall, exec_ebreak, exec_mret, exec_sret, csr_addr, csr_swap, csr_modify,
  exec_csrrw, exec_csrrs, exec_csrrc, exec_csrrwi, exec_csrrsi, exec_csrrci, exec_system_dispatch,
}

-- The host's part of the invariant.
pub record KeepsValid (l : Layout) (env : Environment) : Type 0 where
  pub ecall : (m : Machine) → IsValid l m → IsValid l (env.handle_ecall m)
  pub ebreak : (m : Machine) → IsValid l m → IsValid l (env.handle_ebreak m)

abbrev pub HostKeeps : Layout → Option Environment → Type 0
HostKeeps l none = Unit
HostKeeps l (some env) = KeepsValid l env

module _ {l : Layout} {m : Machine} (h : IsValid l m) (inst : DecodedInstruction)
    (f : InstFits inst) where
  exec_ecall-IsValid :
      (env : Option Environment) → HostKeeps l env → IsValid l (exec_ecall env inst m)
  unfolding exec_ecall
  exec_ecall-IsValid (some env) k = k.ecall m h
  exec_ecall-IsValid none k =
      choose (m.mode == user_mode)
        (raise_trap-IsValid h ecall_from_u_mode inst.pc 0 f.pc (omega arith))
        (choose (m.mode == supervisor_mode)
          (raise_trap-IsValid h ecall_from_s_mode inst.pc 0 f.pc (omega arith))
          (raise_trap-IsValid h ecall_from_m_mode inst.pc 0 f.pc (omega arith)))

  exec_ebreak-IsValid :
      (env : Option Environment) → HostKeeps l env → IsValid l (exec_ebreak env inst m)
  unfolding exec_ebreak
  exec_ebreak-IsValid (some env) k =
      k.ebreak _ (raise_trap-IsValid h breakpoint inst.pc inst.pc f.pc f.pc)
  exec_ebreak-IsValid none k = raise_trap-IsValid h breakpoint inst.pc inst.pc f.pc f.pc

  -- A status word with some bits set or cleared.
  cleared-lt : (s bits : ℕ) → s < 2 ^ 64 → bit_and s bits < 2 ^ 64
  cleared-lt s bits p = omega (arith, bit_and-le s bits)

  returned-lt :
      (test : Bool) (s enable keep mask : ℕ)
      → s < 2 ^ 64
      → enable < 2 ^ 64
      → keep < 2 ^ 64
      → bit_and (bit_or (if test then bit_or s enable else bit_and s (not64 enable)) keep) mask
        < 2 ^ 64
  returned-lt true s enable keep mask p q r =
      cleared-lt _ mask (bit_or-lt 64 _ keep (bit_or-lt 64 s enable p q) r)
  returned-lt false s enable keep mask p q r =
      cleared-lt _ mask (bit_or-lt 64 _ keep (cleared-lt s (not64 enable) p) r)

  exec_mret-IsValid : IsValid l (exec_mret inst m)
  unfolding exec_mret
  exec_mret-IsValid =
      let s = raw_or_zero 0x300 m in
      let fits = raw_or_zero-lt h 0x300 in
      let status =
        returned-lt (any_set s (1 <<< 7)) s (1 <<< 3) (1 <<< 7) (not64 (3 <<< 11)) fits
          (omega arith) (omega arith) in
      let h1 = raw_write-IsValid h 0x300 _ status in
      let h2 = set_program_counter h1 _ (raw_or_zero-lt h1 0x341) in
      choose (ltb m.mode machine_mode) (raise_illegal_here-IsValid h)
        (set_mode h2 _ (omega (arith, bit_and_field 11 2 s)))

  exec_sret-IsValid : IsValid l (exec_sret inst m)
  unfolding exec_sret
  exec_sret-IsValid =
      let s = raw_or_zero 0x100 m in
      let fits = raw_or_zero-lt h 0x100 in
      let status =
        returned-lt (any_set s (1 <<< 5)) s (1 <<< 1) (1 <<< 5) (not64 (1 <<< 8)) fits (omega arith)
          (omega arith) in
      let h1 = raw_write-IsValid h 0x100 _ status in
      let h2 = set_program_counter h1 _ (raw_or_zero-lt h1 0x141) in
      choose (ltb m.mode supervisor_mode) (raise_illegal-IsValid h inst.pc f.pc)
        (set_mode h2 _ (ground arith))

  commit-IsValid :
      {s : Machine} (v : ℕ)
      → v < 2 ^ 64
      → IsValid l s
      → IsValid l (if inst.rd == 0 then s else write_reg inst.rd v s)
  commit-IsValid v p k = choose (inst.rd == 0) k (write_reg-IsValid k inst.rd v p)

  -- The write of a CSR instruction and the register write after it.
  written :
      {s : Machine} (value old : ℕ)
      → value < 2 ^ 64
      → old < 2 ^ 64
      → IsValid l s
      → let m2 = write_csr (csr_addr inst) value s in
        IsValid l
          (if m2.trap_pending then m2 else if inst.rd == 0 then m2 else write_reg inst.rd old m2)
  written {s} value old p q k =
      let k2 = write_csr-IsValid k (csr_addr inst) value p in
      choose (write_csr (csr_addr inst) value s).trap_pending k2 (commit-IsValid old q k2)

  csr_swap-IsValid : (value : ℕ) → value < 2 ^ 64 → IsValid l (csr_swap value inst m)
  unfolding csr_swap
  csr_swap-IsValid value p =
      let r = read_csr-Gives h (csr_addr inst) in
      let old = (read_csr (csr_addr inst) m).0 in
      let back = (read_csr (csr_addr inst) m).1 in
      let k = write_csr-IsValid h (csr_addr inst) value p in
      let k2 = write_csr-IsValid r.machine (csr_addr inst) value p in
      elim (Bool-cases (inst.rd == 0)) [
        | inl e ↦ rw e (choose (write_csr (csr_addr inst) value m).trap_pending k k)
        | inr e ↦ rw e (
            choose back.trap_pending r.machine (
              choose (write_csr (csr_addr inst) value back).trap_pending k2
                (write_reg-IsValid k2 inst.rd old r.value)))
      ]

  csr_modify-IsValid :
      (writes : Bool) (new : ℕ → ℕ)
      → ((v : ℕ) → v < 2 ^ 64 → new v < 2 ^ 64)
      → IsValid l (csr_modify writes new inst m)
  unfolding csr_modify
  csr_modify-IsValid writes new fit =
      let r = read_csr-Gives h (csr_addr inst) in
      choose (read_csr (csr_addr inst) m).1.trap_pending r.machine (
        choose writes (written _ _ (fit _ r.value) r.value r.machine)
          (commit-IsValid _ r.value r.machine))

  abbrev source : ℕ
  source = m.registers inst.rs1

  pub exec_csrrw-IsValid : IsValid l (exec_csrrw inst m)
  unfolding exec_csrrw
  exec_csrrw-IsValid = csr_swap-IsValid source (h.registers inst.rs1)

  pub exec_csrrs-IsValid : IsValid l (exec_csrrs inst m)
  unfolding exec_csrrs
  exec_csrrs-IsValid =
      csr_modify-IsValid _ (λ v. bit_or v source)
        (λ v p. bit_or-lt 64 v source p (h.registers inst.rs1))

  pub exec_csrrc-IsValid : IsValid l (exec_csrrc inst m)
  unfolding exec_csrrc
  exec_csrrc-IsValid = csr_modify-IsValid _ _ (λ v p. cleared-lt v (not64 source) p)

  pub exec_csrrwi-IsValid : IsValid l (exec_csrrwi inst m)
  unfolding exec_csrrwi
  exec_csrrwi-IsValid = let b = f.rs1 in csr_swap-IsValid inst.rs1 (omega arith)

  pub exec_csrrsi-IsValid : IsValid l (exec_csrrsi inst m)
  unfolding exec_csrrsi
  exec_csrrsi-IsValid =
      let b = f.rs1 in
      csr_modify-IsValid _ (λ v. bit_or v inst.rs1) (λ v p. bit_or-lt 64 v inst.rs1 p (omega arith))

  pub exec_csrrci-IsValid : IsValid l (exec_csrrci inst m)
  unfolding exec_csrrci
  exec_csrrci-IsValid = csr_modify-IsValid _ _ (λ v p. cleared-lt v (not64 inst.rs1) p)

  pub exec_system_dispatch-IsValid :
      (env : Option Environment) → HostKeeps l env → IsValid l (exec_system_dispatch env inst m)
  unfolding exec_system_dispatch
  exec_system_dispatch-IsValid env k =
      let number = bit_and inst.imm 0xfff in
      choose (number == 0x000) (exec_ecall-IsValid env k) (
        choose (number == 0x001) (exec_ebreak-IsValid env k) (
          choose (number == 0x102) exec_sret-IsValid (
            choose (number == 0x302) exec_mret-IsValid
              (choose (number == 0x105) h (raise_illegal-IsValid h inst.pc f.pc)))))
