-- ===== src/Instr/System/Swap.antt =====
-- The CSR instructions in machine mode: the old value goes to rd, and the new one to the register, in one step.
use rv64i_simulator.Base.{
  arith, ap₂, update, u8, ◌<◌, ℕ, ◌≡◌, ◌≢◌, refl, ◌∙◌, ap, Bool, true, false, ◌==◌, ==_ne,
  if◌then◌else◌, bit_and, bit_or, not64, ltb, ◌>>>◌, some,
}
use rv64i_simulator.Machine.{Csrs, Machine, write_reg, machine_mode}
use rv64i_simulator.Decode.{DecodedInstruction}
use rv64i_simulator.Cpu.Csr.{read_csr, write_csr}
use rv64i_simulator.Cpu.CsrFile.{read_csr_raw, write_csr_raw, raw_or_zero, raw_write}
use rv64i_simulator.Cpu.CsrFile.Laws.{
  PlainCsr, number, mstatus, mie, mtvec, mcounteren, mscratch, mepc, mcause, mtval, mip, menvcfg,
  stvec, scounteren, senvcfg, sscratch, sepc, scause, stval, satp,
}
use rv64i_simulator.Instr.System.{
  csr_addr, csr_swap, csr_modify, exec_csrrw, exec_csrrs, exec_csrrc, exec_csrrwi, exec_csrrsi,
  exec_csrrci,
}

neither :
    {A : Type 0} (b d : Bool) (x y z : A)
    → b ≡ false
    → d ≡ false
    → (if b then x else if d then y else z) ≡ z
neither b d x y z p q = rw (p, q) refl

permitted : (c : PlainCsr) → ltb machine_mode (bit_and (number c >>> 8) 0x3) ≡ false
permitted mstatus = refl
permitted c = refl

writable : (c : PlainCsr) → (bit_and (number c >>> 10) 0x3 == 0x3) ≡ false
writable mstatus = refl
writable c = refl

reads_raw :
    (c : PlainCsr) (m : Machine) → read_csr_raw (number c) m ≡ some (raw_or_zero (number c) m)
unfolding read_csr_raw
reads_raw mstatus m = refl
reads_raw c m = refl

writes_raw :
    (c : PlainCsr) (v : ℕ) (m : Machine)
    → write_csr_raw (number c) v m ≡ some (raw_write (number c) v m)
unfolding write_csr_raw
writes_raw mstatus v m = refl
writes_raw c v m = refl

raw_write-trap_pending :
    (c : PlainCsr) (v : ℕ) (m : Machine) → (raw_write (number c) v m).trap_pending ≡ m.trap_pending
unfolding write_csr_raw
raw_write-trap_pending mstatus v m = refl
raw_write-trap_pending c v m = refl

-- The register's own field, read and written.
abbrev pub field_of : PlainCsr → Csrs → ℕ
field_of mstatus k = k.mstatus
field_of mie k = k.mie
field_of mtvec k = k.mtvec
field_of mcounteren k = k.mcounteren
field_of mscratch k = k.mscratch
field_of mepc k = k.mepc
field_of mcause k = k.mcause
field_of mtval k = k.mtval
field_of mip k = k.mip
field_of menvcfg k = k.menvcfg
field_of stvec k = k.stvec
field_of scounteren k = k.scounteren
field_of senvcfg k = k.senvcfg
field_of sscratch k = k.sscratch
field_of sepc k = k.sepc
field_of scause k = k.scause
field_of stval k = k.stval
field_of satp k = k.satp

abbrev pub with_field : PlainCsr → ℕ → Csrs → Csrs
with_field mstatus v k = record k { mstatus = v }
with_field mie v k = record k { mie = v }
with_field mtvec v k = record k { mtvec = v }
with_field mcounteren v k = record k { mcounteren = v }
with_field mscratch v k = record k { mscratch = v }
with_field mepc v k = record k { mepc = v }
with_field mcause v k = record k { mcause = v }
with_field mtval v k = record k { mtval = v }
with_field mip v k = record k { mip = v }
with_field menvcfg v k = record k { menvcfg = v }
with_field stvec v k = record k { stvec = v }
with_field scounteren v k = record k { scounteren = v }
with_field senvcfg v k = record k { senvcfg = v }
with_field sscratch v k = record k { sscratch = v }
with_field sepc v k = record k { sepc = v }
with_field scause v k = record k { scause = v }
with_field stval v k = record k { stval = v }
with_field satp v k = record k { satp = v }

raw-field_of : (c : PlainCsr) (m : Machine) → raw_or_zero (number c) m ≡ field_of c m.csrs
unfolding read_csr_raw
raw-field_of mstatus m = refl
raw-field_of c m = refl

raw-with_field :
    (c : PlainCsr) (v : ℕ) (m : Machine)
    → raw_write (number c) v m ≡ record m { csrs = with_field c v m.csrs }
unfolding write_csr_raw
raw-with_field mstatus v m = refl
raw-with_field c v m = refl

write_reg-update :
    (rd v : ℕ) (m : Machine)
    → rd ≢ 0
    → rd < 32
    → write_reg rd v m ≡ record m { registers = update m.registers rd v }
unfolding write_reg
write_reg-update rd v m h k =
    let small : u8 rd ≡ rd = omega arith in rw (write_reg, small, ==_ne rd 0 h) refl

module _ (c : PlainCsr) (m : Machine) (machine : m.mode ≡ machine_mode) where
  grant : ltb m.mode (bit_and (number c >>> 8) 0x3) ≡ false
  grant = ap (λ k. ltb k (bit_and (number c >>> 8) 0x3)) machine ∙ permitted c

  read_csr-raw : (old : ℕ) → read_csr_raw (number c) m ≡ some old → read_csr (number c) m ≡ (old, m)
  unfolding read_csr
  read_csr-raw old e = rw (read_csr, grant, e) refl

  write_csr-raw :
      (v : ℕ) (m1 : Machine)
      → write_csr_raw (number c) v m ≡ some m1
      → write_csr (number c) v m ≡ m1
  unfolding write_csr
  write_csr-raw v m1 e = rw (write_csr, grant, writable c, e) refl

  module _ (quiet : m.trap_pending ≡ false) (inst : DecodedInstruction)
      (names : csr_addr inst ≡ number c) (nonzero : inst.rd ≢ 0) where
    abbrev old : ℕ
    old = raw_or_zero (number c) m

    -- The old value in rd and the new one in the register.
    abbrev pub swapped : ℕ → Machine
    swapped v = write_reg inst.rd old (raw_write (number c) v m)

    still_quiet : (v : ℕ) → (raw_write (number c) v m).trap_pending ≡ false
    still_quiet v = raw_write-trap_pending c v m ∙ quiet

    -- What the register is when the trap test after each access finds nothing.
    module _ (v : ℕ) where
      written : write_csr (number c) v m ≡ raw_write (number c) v m
      written = write_csr-raw v (raw_write (number c) v m) (writes_raw c v m)

      untrapped :
          (if m.trap_pending
            then m
            else if (write_csr (number c) v m).trap_pending
            then write_csr (number c) v m
            else write_reg inst.rd old (write_csr (number c) v m))
          ≡ swapped v
      untrapped =
          neither m.trap_pending (write_csr (number c) v m).trap_pending m
            (write_csr (number c) v m) (write_reg inst.rd old (write_csr (number c) v m)) quiet
            (ap (λ k. k.trap_pending) written ∙ still_quiet v)
          ∙ ap (write_reg inst.rd old) written

    csr_swap-swapped : (v : ℕ) → csr_swap v inst m ≡ swapped v
    unfolding csr_swap
    csr_swap-swapped v =
        rw (csr_swap, ==_ne inst.rd 0 nonzero, names, read_csr-raw old (reads_raw c m))
          (untrapped v)

    csr_modify-swapped : (new : ℕ → ℕ) → csr_modify true new inst m ≡ swapped (new old)
    unfolding csr_modify
    csr_modify-swapped new =
        rw (csr_modify, ==_ne inst.rd 0 nonzero, names, read_csr-raw old (reads_raw c m))
          (untrapped (new old))

    module _ (small : inst.rd < 32) where
      -- The old value in rd, and the new one in the register's field.
      abbrev pub exchanged : ℕ → Machine
      exchanged v = record m {
        registers = update m.registers inst.rd (field_of c m.csrs);
        csrs = with_field c v m.csrs;
      }

      swapped-exchanged : (v : ℕ) → swapped v ≡ exchanged v
      swapped-exchanged v =
          ap₂ (λ o n. write_reg inst.rd o n) (raw-field_of c m) (raw-with_field c v m)
          ∙ write_reg-update inst.rd (field_of c m.csrs) (record m { csrs = with_field c v m.csrs })
              nonzero small

      modified : (new : ℕ → ℕ) → csr_modify true new inst m ≡ exchanged (new (field_of c m.csrs))
      modified new =
          csr_modify-swapped new
          ∙ swapped-exchanged (new old)
          ∙ ap (λ o. exchanged (new o)) (raw-field_of c m)

      -- In machine mode, with no trap pending, one of the 18 control registers that keep a whole word,
      -- and an instruction whose rd is from 1 to 31 and whose rs1 field is not 0, each of the six CSR
      -- instructions writes the register's old value to rd and the source, or the old value with the
      -- source's bits set or cleared, to the register's own field, and changes nothing else of the
      -- machine.
      pub csr-exchanged :
          inst.rs1 ≢ 0
          → let x = m.registers inst.rs1 in
            let before = field_of c m.csrs in
            (exec_csrrw inst m ≡ exchanged x)
            × (exec_csrrs inst m ≡ exchanged (bit_or before x))
            × (exec_csrrc inst m ≡ exchanged (bit_and before (not64 x)))
            × (exec_csrrwi inst m ≡ exchanged inst.rs1)
            × (exec_csrrsi inst m ≡ exchanged (bit_or before inst.rs1))
            × (exec_csrrci inst m ≡ exchanged (bit_and before (not64 inst.rs1)))
      unfolding exec_csrrw exec_csrrs exec_csrrc exec_csrrwi exec_csrrsi exec_csrrci
      csr-exchanged k =
          let writes = ==_ne inst.rs1 0 k in
          let x = m.registers inst.rs1 in
          (
            csr_swap-swapped x ∙ swapped-exchanged x,
            rw writes (modified (λ o. bit_or o x)),
            rw writes (modified (λ o. bit_and o (not64 x))),
            csr_swap-swapped inst.rs1 ∙ swapped-exchanged inst.rs1,
            rw writes (modified (λ o. bit_or o inst.rs1)),
            rw writes (modified (λ o. bit_and o (not64 inst.rs1))),
          )
