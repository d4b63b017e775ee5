-- ===== src/Cpu/CsrFile/Laws.antt =====
-- `readCSRRaw` and `writeCSRRaw`: what a write is read back as.
use rv64i_simulator.Base.{
  ℕ, ◌+◌, ◌^◌, ◌<◌, ◌≡◌, refl, some, ◌==◌, if◌then◌else◌, bit_and, not64, arith, update,
}
use rv64i_simulator.Base.Bits.{merge_masked, merge_unmasked}
use rv64i_simulator.Machine.{Machine}
use rv64i_simulator.Cpu.CsrFile.{read_csr_raw, write_csr_raw, raw_or_zero, raw_write, sstatus_mask}

-- The registers that keep a whole word, and their numbers.
pub data PlainCsr : Type 0 where
  mstatus mie mtvec mcounteren mscratch mepc mcause mtval mip : PlainCsr
  menvcfg stvec scounteren senvcfg sscratch sepc scause stval satp : PlainCsr

abbrev pub number : PlainCsr → ℕ
number mstatus = 0x300
number mie = 0x304
number mtvec = 0x305
number mcounteren = 0x306
number mscratch = 0x340
number mepc = 0x341
number mcause = 0x342
number mtval = 0x343
number mip = 0x344
number menvcfg = 0x30a
number stvec = 0x105
number scounteren = 0x106
number senvcfg = 0x10a
number sscratch = 0x140
number sepc = 0x141
number scause = 0x142
number stval = 0x143
number satp = 0x180

-- For every two plainly stored control registers, a write of one is read back from it, and leaves
-- the other as it was.
pub read-write_plain :
    (c d : PlainCsr) (v : ℕ) (m : Machine)
    → raw_or_zero (number d) (raw_write (number c) v m)
      ≡ (if number c == number d then v else raw_or_zero (number d) m)
unfolding read_csr_raw write_csr_raw
read-write_plain mstatus mstatus v m = refl
read-write_plain c mstatus v m = refl
read-write_plain c d v m = refl

read_pmpaddr : (j : ℕ) (m : Machine) → j < 64 → read_csr_raw (0x3b0 + j) m ≡ some (m.csrs.pmpaddr j)
unfolding read_csr_raw
read_pmpaddr j m k = ground arith

write_pmpaddr :
    (j v : ℕ) (m : Machine)
    → j < 64
    → write_csr_raw (0x3b0 + j) v m
      ≡ some (record m { csrs = record (m.csrs) { pmpaddr = update m.csrs.pmpaddr j v } })
unfolding write_csr_raw
write_pmpaddr j v m k = ground arith

-- For any two of the 64 PMP address registers, a write of one is read back from it and leaves the
-- other as it was.
pub read-write_pmpaddr :
    (i j v : ℕ) (m : Machine)
    → i < 64
    → j < 64
    → raw_or_zero (0x3b0 + j) (raw_write (0x3b0 + i) v m)
      ≡ (if j == i then v else raw_or_zero (0x3b0 + j) m)
read-write_pmpaddr i j v m h k =
    rw (write_pmpaddr i v m h, raw_write)
      (rw (
        read_pmpaddr j m k,
        read_pmpaddr j (record m { csrs = record (m.csrs) { pmpaddr = update m.csrs.pmpaddr i v } })
            k,
        raw_or_zero,
      ))

-- A write of sstatus changes the masked bits of mstatus and no other, a read of sstatus gives
-- them back, and the address 0x120 is written alike.
pub sstatus_window :
    (v : ℕ) (m : Machine)
    → (raw_or_zero 0x100 (raw_write 0x100 v m) ≡ bit_and v sstatus_mask)
      × (bit_and (raw_or_zero 0x300 (raw_write 0x100 v m)) (not64 sstatus_mask)
          ≡ bit_and (raw_or_zero 0x300 m) (not64 sstatus_mask))
      × (raw_write 0x120 v m ≡ raw_write 0x100 v m)
unfolding read_csr_raw write_csr_raw
sstatus_window v m = (
  merge_masked 64 m.csrs.mstatus v sstatus_mask (omega arith),
  merge_unmasked 64 m.csrs.mstatus v sstatus_mask (omega arith),
  refl,
)

-- With a 64-bit mideleg, a write of sie or sip changes the bits of mie or mip that mideleg
-- delegates and no other, and a read gives them back.
pub sie_window :
    (v : ℕ) (m : Machine)
    → m.csrs.mideleg < 2 ^ 64
    → (raw_or_zero 0x104 (raw_write 0x104 v m) ≡ bit_and v m.csrs.mideleg)
      × (bit_and (raw_or_zero 0x304 (raw_write 0x104 v m)) (not64 m.csrs.mideleg)
          ≡ bit_and (raw_or_zero 0x304 m) (not64 m.csrs.mideleg))
      × (raw_or_zero 0x144 (raw_write 0x144 v m) ≡ bit_and v m.csrs.mideleg)
      × (bit_and (raw_or_zero 0x344 (raw_write 0x144 v m)) (not64 m.csrs.mideleg)
          ≡ bit_and (raw_or_zero 0x344 m) (not64 m.csrs.mideleg))
unfolding read_csr_raw write_csr_raw
sie_window v m h = (
  merge_masked 64 m.csrs.mie v m.csrs.mideleg h,
  merge_unmasked 64 m.csrs.mie v m.csrs.mideleg h,
  merge_masked 64 m.csrs.mip v m.csrs.mideleg h,
  merge_unmasked 64 m.csrs.mip v m.csrs.mideleg h,
)
