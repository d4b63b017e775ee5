-- ===== src/Cpu/CsrFile.antt =====
-- src/Core/ProcessorCSR.cpp: `readCSRRaw` and `writeCSRRaw`, the two switches over CSR numbers.
-- `none` is their `false`, for a number that is not implemented.
pub mod Laws
use rv64i_simulator.Base.{
  ℕ, ◌-◌, ◌/◌, ◌%◌, Bool, ◌&&◌, ◌||◌, Option, none, some, leb, ◌==◌, if◌then◌else◌, bit_and, bit_or,
  ◌<<<◌, ◌>>>◌, not64, update,
}
use rv64i_simulator.Machine.{Csrs, Machine}

-- `SSTATUS_SIE | SSTATUS_SPIE | SSTATUS_SPP_MASK`.
abbrev pub sstatus_mask : ℕ
sstatus_mask = 0x122

-- `case lo ... hi`.
abbrev pub between : ℕ → ℕ → ℕ → Bool
between lo hi address = leb lo address && leb address hi

unfoldable pub read_csr_raw : ℕ → Machine → Option ℕ
read_csr_raw address m =
    let c = m.csrs in
    if address == 0x015
    then some 0
    else if address == 0x100 || address == 0x120
    then some (bit_and c.mstatus sstatus_mask)
    else if address == 0x300
    then some c.mstatus
    else if address == 0x301
    then some m.misa
    else if address == 0x302
    then some c.medeleg
    else if address == 0x303
    then some c.mideleg
    else if address == 0x304
    then some c.mie
    else if address == 0x305
    then some c.mtvec
    else if address == 0x340
    then some c.mscratch
    else if address == 0x341
    then some c.mepc
    else if address == 0x342
    then some c.mcause
    else if address == 0x343
    then some c.mtval
    else if address == 0x344
    then some c.mip
    else if address == 0xc00 || address == 0xb00 || address == 0xc02 || address == 0xb02
    then some m.step_count
    else if address == 0xf11
    then some 0
    else if address == 0xf12
    then some 0x8000_0000
    else if address == 0xf13
    then some 0x2024_0501
    else if address == 0xf14
    then some 0
    else if address == 0x306
    then some c.mcounteren
    else if address == 0xc01
    then some (m.step_count / 100)
    else if address == 0x001
    then some (bit_and c.fcsr 0x1f)
    else if address == 0x002
    then some (bit_and (c.fcsr >>> 5) 0x7)
    else if address == 0x003
    then some (bit_and c.fcsr 0xff)
    else if address == 0x104
    then some (bit_and c.mie c.mideleg)
    else if address == 0x105
    then some c.stvec
    else if address == 0x140
    then some c.sscratch
    else if address == 0x141
    then some c.sepc
    else if address == 0x142
    then some c.scause
    else if address == 0x143
    then some c.stval
    else if address == 0x144
    then some (bit_and c.mip c.mideleg)
    else if address == 0x180
    then some c.satp
    else if address == 0x106
    then some c.scounteren
    else if address == 0x30a
    then some c.menvcfg
    else if address == 0x10a
    then some c.senvcfg
    else if between 0x3a0 0x3af address
    then (let idx = address - 0x3a0 in some (if idx % 2 == 0 then c.pmpcfg (idx / 2) else 0))
    else if between 0x3b0 0x3ef address
    then some (c.pmpaddr (address - 0x3b0))
    else if between 0xb03 0xb1f address || between 0x320 0x33f address
    then some 0
    else none

abbrev with_csrs : Csrs → Machine → Option Machine
with_csrs c m = some (record m { csrs = c })

unfoldable pub write_csr_raw : ℕ → ℕ → Machine → Option Machine
write_csr_raw address val m =
    let c = m.csrs in
    if address == 0x100 || address == 0x120
    then with_csrs
        (record c {
          mstatus = bit_or (bit_and c.mstatus (not64 sstatus_mask)) (bit_and val sstatus_mask);
        })
        m
    else if address == 0x300
    then with_csrs (record c { mstatus = val }) m
    else if address == 0x301
    then some m
    else if address == 0x302
    then with_csrs (record c { medeleg = bit_and val (not64 (1 <<< 11)) }) m
    else if address == 0x303
    then with_csrs (record c { mideleg = bit_and val (not64 (bit_or (1 <<< 7) (1 <<< 3))) }) m
    else if address == 0x304
    then with_csrs (record c { mie = val }) m
    else if address == 0x305
    then with_csrs (record c { mtvec = val }) m
    else if address == 0x340
    then with_csrs (record c { mscratch = val }) m
    else if address == 0x341
    then with_csrs (record c { mepc = val }) m
    else if address == 0x342
    then with_csrs (record c { mcause = val }) m
    else if address == 0x343
    then with_csrs (record c { mtval = val }) m
    else if address == 0x344
    then with_csrs (record c { mip = val }) m
    else if address == 0x306
    then with_csrs (record c { mcounteren = val }) m
    else if address == 0x30a
    then with_csrs (record c { menvcfg = val }) m
    else if address == 0x10a
    then with_csrs (record c { senvcfg = val }) m
    else if address == 0x104
    then with_csrs
        (record c { mie = bit_or (bit_and c.mie (not64 c.mideleg)) (bit_and val c.mideleg) }) m
    else if address == 0x105
    then with_csrs (record c { stvec = val }) m
    else if address == 0x140
    then with_csrs (record c { sscratch = val }) m
    else if address == 0x141
    then with_csrs (record c { sepc = val }) m
    else if address == 0x142
    then with_csrs (record c { scause = val }) m
    else if address == 0x143
    then with_csrs (record c { stval = val }) m
    else if address == 0x144
    then with_csrs
        (record c { mip = bit_or (bit_and c.mip (not64 c.mideleg)) (bit_and val c.mideleg) }) m
    else if address == 0x180
    then with_csrs (record c { satp = val }) m
    else if address == 0x106
    then with_csrs (record c { scounteren = val }) m
    else if address == 0x001
    then with_csrs (record c { fcsr = bit_or (bit_and c.fcsr (not64 0x1f)) (bit_and val 0x1f) }) m
    else if address == 0x002
    then with_csrs
        (record c { fcsr = bit_or (bit_and c.fcsr (not64 0xe0)) (bit_and val 0x7 <<< 5) }) m
    else if address == 0x003
    then with_csrs (record c { fcsr = bit_and val 0xff }) m
    else if between 0x3a0 0x3af address
    then (let idx = address - 0x3a0 in
        if idx % 2 == 0
        then with_csrs (record c { pmpcfg = update c.pmpcfg (idx / 2) val }) m
        else some m)
    else if between 0x3b0 0x3ef address
    then with_csrs (record c { pmpaddr = update c.pmpaddr (address - 0x3b0) val }) m
    else if between 0xb03 0xb1f address || between 0x320 0x33f address
    then some m
    else none

-- A call whose result is not looked at: the variable that it fills starts as 0.
abbrev pub raw_or_zero : ℕ → Machine → ℕ
raw_or_zero address m = elim (read_csr_raw address m) [ some v ↦ v | none ↦ 0 ]

abbrev pub raw_write : ℕ → ℕ → Machine → Machine
raw_write address val m = elim (write_csr_raw address val m) [ some m' ↦ m' | none ↦ m ]
