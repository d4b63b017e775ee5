-- ===== src/Tests/Examples.antt =====
-- The theorems, applied at inputs that meet their hypotheses.
use rv64i_simulator.Base.{
  update, ◌+◌, ◌-◌, ◌*◌, ◌/◌, ◌%◌, ◌^◌, ◌≤◌, ◌<◌, ◌≡◌, ◌↔◌, refl, arith, true, false, ℕ, bit_or,
  bit_and, not64, some, u8, if◌then◌else◌, ◌==◌,
}
use rv64i_simulator.Memory.{
  Memory, read_byte, write_byte, read_half, write_half, read_word, write_word, read_double,
  write_double,
}
use rv64i_simulator.Memory.Safety.{
  reached, little_endian, read-SameBuffer, write_frame, write_double_wraps,
}
use rv64i_simulator.Trap.{illegal_instruction}
use rv64i_simulator.Machine.{Machine, store, fetch}
use rv64i_simulator.Cpu.CsrFile.{read_csr_raw, raw_or_zero, raw_write, sstatus_mask}
use rv64i_simulator.Cpu.CsrFile.Laws.{mscratch, sstatus_window, sie_window}
use rv64i_simulator.Cpu.Raise.{raise_trap, delegate_to_s, trap_target}
use rv64i_simulator.Cpu.Pmp.{
  check_pmp, entry_cfg, entry_match, entry_grants, napot_match, trailing_mask,
}
use rv64i_simulator.Cpu.Pmp.First.{covers, check_pmp-first}
use rv64i_simulator.Cpu.Pmp.Napot.{with_trailing, napot_match-region}
use rv64i_simulator.Cpu.Translate.{translate, page_size}
use rv64i_simulator.Cpu.Translate.Sv39.{Maps}
use rv64i_simulator.Cpu.Translate.Alias.{translate_alias}
use rv64i_simulator.Cpu.Translate.Spec.{translate-Maps_iff}
use rv64i_simulator.Instr.Mul.{
  exec_mul, exec_mulh, exec_mulhsu, exec_mulhu, exec_div, exec_rem, exec_divu, exec_remu,
}
use rv64i_simulator.Instr.Mul.High.{sx128, high128, exec_mulh-high128}
use rv64i_simulator.Instr.Mul.Quotient.{absolute, negative, signed, differ, exec_div-quotient}
use rv64i_simulator.Instr.System.{
  exec_mret, exec_sret, exec_csrrw, exec_csrrs, exec_csrrc, exec_csrrwi, exec_csrrsi, exec_csrrci,
}
use rv64i_simulator.Instr.System.Swap.{csr-exchanged}
use rv64i_simulator.Decode.{DecodedInstruction}
use rv64i_simulator.Machine.{write_reg}
use rv64i_simulator.Instr.System.Delegated.{raise_trap-s, exec_sret-raise_trap}
use rv64i_simulator.Cpu.Raise.Delegated.{status, bit_set}
use rv64i_simulator.Machine.{zero_csrs}
use rv64i_simulator.Instr.System.Return.{raise_trap-m, exec_mret-raise_trap}
use rv64i_simulator.Tests.Samples.{blank, sample, on_x1_x2, paged}

-- The same buffer, with other contents behind it.
abbrev other_outside : Memory
other_outside = record { size = 0x1000; cells = λ i. if i == 0x1000 then 7 else 0 }

read-SameBuffer_example :
    (read_byte blank 0xffc ≡ read_byte other_outside 0xffc)
    × (read_half blank 0xffc ≡ read_half other_outside 0xffc)
    × (read_word blank 0xffc ≡ read_word other_outside 0xffc)
    × (read_double blank 0xffc ≡ read_double other_outside 0xffc)
read-SameBuffer_example =
    read-SameBuffer blank other_outside 0xffc
      (record { same_size = refl; same_cells = λ i h. ground arith }) (omega arith)

write_frame_example :
    ((write_byte blank 8 (u8 0x1234)).cells 9
      ≡ (if reached blank 1 8 9 then little_endian 0x1234 (9 - 8) else 0))
    × ((write_half blank 8 0x1234).cells 9
        ≡ (if reached blank 2 8 9 then little_endian 0x1234 (9 - 8) else 0))
    × ((write_word blank 8 0x1234).cells 9
        ≡ (if reached blank 4 8 9 then little_endian 0x1234 (9 - 8) else 0))
    × ((write_double blank 8 0x1234).cells 9
        ≡ (if reached blank 8 8 9 then little_endian 0x1234 (9 - 8) else 0))
write_frame_example = write_frame blank 8 0x1234 9 (omega arith)

write_double_wraps_example :
    (write_double blank 0xffff_ffff_ffff_ffff 5).cells 0xffff_ffff_ffff_ffff ≡ 5
write_double_wraps_example =
    write_double_wraps blank 0xffff_ffff_ffff_ffff 5 (omega arith) (omega arith) (omega arith)
      (omega arith)

exec_mulh-high128_example :
    let u = sample.registers 1 in
    let v = sample.registers 2 in
    ((exec_mulh on_x1_x2 sample).registers 3 ≡ high128 (sx128 u * sx128 v))
    × ((exec_mulhsu on_x1_x2 sample).registers 3 ≡ high128 (sx128 u * v))
    × ((exec_mulhu on_x1_x2 sample).registers 3 ≡ high128 (u * v))
    × ((exec_mul on_x1_x2 sample).registers 3 ≡ sx128 u * sx128 v % 2 ^ 64)
exec_mulh-high128_example =
    exec_mulh-high128 on_x1_x2 sample (omega arith) (omega arith) (omega arith) (omega arith)

exec_div-quotient_example :
    let a = sample.registers 1 in
    let b = sample.registers 2 in
    (exec_div on_x1_x2 sample
      ≡ write_reg 3
          (if b == 0
            then 2 ^ 64 - 1
            else signed (differ (negative a) (negative b)) (absolute a / absolute b))
          sample)
    × (exec_rem on_x1_x2 sample
        ≡ write_reg 3 (if b == 0 then a else signed (negative a) (absolute a % absolute b)) sample)
    × (exec_divu on_x1_x2 sample ≡ write_reg 3 (if b == 0 then 2 ^ 64 - 1 else a / b) sample)
    × (exec_remu on_x1_x2 sample ≡ write_reg 3 (if b == 0 then a else a % b) sample)
exec_div-quotient_example = exec_div-quotient on_x1_x2 sample (omega arith) (omega arith)

sstatus_window_example :
    (raw_or_zero 0x100 (raw_write 0x100 0xffff sample) ≡ bit_and 0xffff sstatus_mask)
    × (bit_and (raw_or_zero 0x300 (raw_write 0x100 0xffff sample)) (not64 sstatus_mask)
        ≡ bit_and (raw_or_zero 0x300 sample) (not64 sstatus_mask))
    × (raw_write 0x120 0xffff sample ≡ raw_write 0x100 0xffff sample)
sstatus_window_example = sstatus_window 0xffff sample

-- Two of the interrupts are delegated.
abbrev windowed : Machine
windowed = record sample { csrs = record zero_csrs { mideleg = 0x202 } }

sie_window_example :
    (raw_or_zero 0x104 (raw_write 0x104 0x222 windowed) ≡ bit_and 0x222 0x202)
    × (bit_and (raw_or_zero 0x304 (raw_write 0x104 0x222 windowed)) (not64 0x202)
        ≡ bit_and (raw_or_zero 0x304 windowed) (not64 0x202))
    × (raw_or_zero 0x144 (raw_write 0x144 0x222 windowed) ≡ bit_and 0x222 0x202)
    × (bit_and (raw_or_zero 0x344 (raw_write 0x144 0x222 windowed)) (not64 0x202)
        ≡ bit_and (raw_or_zero 0x344 windowed) (not64 0x202))
sie_window_example = sie_window 0x222 windowed (omega arith)

sample_not_delegated : delegate_to_s illegal_instruction sample ≡ false
unfolding delegate_to_s read_csr_raw
sample_not_delegated = refl

raise_trap-m_example :
    let m' = raise_trap illegal_instruction 0x8000_0004 0x13 sample in
    (m'.mode ≡ 3)
    × (m'.program_counter ≡ trap_target illegal_instruction 0x8000_0100)
    × (m'.csrs.mepc ≡ 0x8000_0004)
    × (m'.csrs.mcause ≡ 2)
    × (m'.csrs.mtval ≡ 0x13)
    × (m'.csrs.mstatus ≡ bit_and 8 (not64 0x1888) + 8 / 2 ^ 3 % 2 * 2 ^ 7 + 3 * 2 ^ 11)
    × (m'.registers ≡ sample.registers)
    × (m'.ram ≡ blank)
raise_trap-m_example =
    raise_trap-m illegal_instruction 0x8000_0004 0x13 sample sample_not_delegated (omega arith)
      (omega arith)

exec_mret-raise_trap_example :
    let m' = exec_mret on_x1_x2 (raise_trap illegal_instruction 0x8000_0004 0x13 sample) in
    (m'.mode ≡ 3)
    × (m'.program_counter ≡ 0x8000_0004)
    × (m'.registers ≡ sample.registers)
    × (m'.csrs.mstatus / 2 ^ 3 % 2 ≡ 8 / 2 ^ 3 % 2)
    × (bit_and m'.csrs.mstatus (not64 0x1880) ≡ bit_and 8 (not64 0x1880))
exec_mret-raise_trap_example =
    exec_mret-raise_trap illegal_instruction 0x8000_0004 0x13 on_x1_x2 sample sample_not_delegated
      (omega arith) (omega arith)

paged_covered : covers paged 0x8000_0000 0 ≡ true
unfolding entry_cfg entry_match napot_match trailing_mask
paged_covered = refl

check_pmp-first_example :
    check_pmp 0x8000_0000 store paged ≡ entry_grants (entry_cfg paged.csrs 0) 1 store
check_pmp-first_example =
    check_pmp-first paged 0x8000_0000 store 0 (omega arith) paged_covered (λ j h. elim h [ ])

napot_match-region_example :
    (napot_match (with_trailing 0x800_0000 1) 0x8000_0008 ≡ true)
    ↔ (0x800_0000 * (8 * 2 ^ 1) ≤ 0x8000_0008) × (0x8000_0008 < (0x800_0000 + 1) * (8 * 2 ^ 1))
napot_match-region_example =
    napot_match-region 1 0x800_0000 0x8000_0008 (omega arith) (omega arith) (omega arith)

-- The same machine in user mode.
abbrev in_user : Machine
in_user = record sample { mode = 0 }

translate-Maps_iff_example :
    (translate 0x8000_1234 fetch paged ≡ (some 0x8000_1234, paged))
    ↔ Maps paged 0x8000_1234 fetch 2 (0x8_0000 * page_size) 0x8000_1234
translate-Maps_iff_example =
    translate-Maps_iff paged 0x8000_1234 0x8000_1234 fetch (omega arith) refl (omega arith)
      (omega arith)

-- Supervisor mode with SIE set, and illegal instructions delegated to it.
abbrev delegating : Machine
delegating = record sample {
  mode = 1;
  csrs = record zero_csrs { medeleg = 4; mstatus = 2; stvec = 0x8000_0200 };
}

sample_delegated : delegate_to_s illegal_instruction delegating ≡ true
unfolding delegate_to_s read_csr_raw
sample_delegated = refl

raise_trap-s_example :
    let m' = raise_trap illegal_instruction 0x8000_0004 0x13 delegating in
    (m'.mode ≡ 1)
    × (m'.program_counter ≡ trap_target illegal_instruction 0x8000_0200)
    × (m'.csrs.sepc ≡ 0x8000_0004)
    × (m'.csrs.scause ≡ 2)
    × (m'.csrs.stval ≡ 0x13)
    × (bit_and m'.csrs.mstatus 0x122 ≡ status true (bit_set 1 2) false)
    × (bit_and m'.csrs.mstatus (not64 0x122) ≡ bit_and 2 (not64 0x122))
    × (m'.registers ≡ delegating.registers)
    × (m'.ram ≡ blank)
raise_trap-s_example = raise_trap-s illegal_instruction 0x8000_0004 0x13 delegating sample_delegated

exec_sret-raise_trap_example :
    let m' = exec_sret on_x1_x2 (raise_trap illegal_instruction 0x8000_0004 0x13 delegating) in
    (m'.mode ≡ 1)
    × (m'.program_counter ≡ 0x8000_0004)
    × (m'.registers ≡ delegating.registers)
    × (bit_and m'.csrs.mstatus 0x122 ≡ status false true (bit_set 1 2))
    × (bit_and m'.csrs.mstatus (not64 0x122) ≡ bit_and 2 (not64 0x122))
exec_sret-raise_trap_example =
    exec_sret-raise_trap illegal_instruction 0x8000_0004 0x13 on_x1_x2 delegating sample_delegated

-- `csrrw x3, mscratch, x1` and the other five.
abbrev on_mscratch : DecodedInstruction
on_mscratch = record on_x1_x2 { imm = 0x340 }

csr-exchanged_example :
    let x = sample.registers 1 in
    let exchanged : ℕ → Machine = λ v. record sample {
      registers = update sample.registers 3 sample.csrs.mscratch;
      csrs = record (sample.csrs) { mscratch = v };
    } in
    (exec_csrrw on_mscratch sample ≡ exchanged x)
    × (exec_csrrs on_mscratch sample ≡ exchanged (bit_or sample.csrs.mscratch x))
    × (exec_csrrc on_mscratch sample ≡ exchanged (bit_and sample.csrs.mscratch (not64 x)))
    × (exec_csrrwi on_mscratch sample ≡ exchanged 1)
    × (exec_csrrsi on_mscratch sample ≡ exchanged (bit_or sample.csrs.mscratch 1))
    × (exec_csrrci on_mscratch sample ≡ exchanged (bit_and sample.csrs.mscratch (not64 1)))
csr-exchanged_example =
    csr-exchanged mscratch sample refl refl on_mscratch refl (omega arith) (omega arith)
      (omega arith)

-- The second address is not canonical.
translate_alias_example :
    (translate 0x8000_1234 fetch paged ≡ (some 0x8000_1234, paged))
    ↔ (translate 0x80_8000_1234 fetch paged ≡ (some 0x8000_1234, paged))
translate_alias_example =
    translate_alias paged 0x8000_1234 0x80_8000_1234 0x8000_1234 fetch (omega arith) (omega arith)
      refl refl (omega arith) (omega arith)
