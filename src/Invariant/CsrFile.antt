-- ===== src/Invariant/CsrFile.antt =====
-- The raw control registers keep the invariant.
use rv64i_simulator.Base.{
  ℕ, ◌-◌, ◌/◌, ◌^◌, ◌<◌, Option, none, some, bit_and, bit_or, ◌<<<◌, ◌>>>◌, not64, arith,
}
use rv64i_simulator.Base.Bits.{bit_and-le, bit_or-lt, bit_and_mask}
use rv64i_simulator.Machine.{Machine}
use rv64i_simulator.Cpu.CsrFile.{read_csr_raw, write_csr_raw, raw_or_zero, raw_write, sstatus_mask}
use rv64i_simulator.Invariant.{IsValid, Layout}

-- What an optional machine must be.
abbrev pub SomeValid : Layout → Option Machine → Type 0
SomeValid l none = Unit
SomeValid l (some m) = IsValid l m

abbrev pub Fits : Option ℕ → Type 0
Fits none = Unit
Fits (some v) = v < 2 ^ 64

merge-lt :
    (x y mask other : ℕ)
    → x < 2 ^ 64
    → y < 2 ^ 64
    → bit_or (bit_and x mask) (bit_and y other) < 2 ^ 64
merge-lt x y mask other h p =
    bit_or-lt 64 (bit_and x mask) (bit_and y other) (omega (arith, bit_and-le x mask))
      (omega (arith, bit_and-le y other))

module _ {l : Layout} {m : Machine} (h : IsValid l m) where
  pub read_csr_raw-Fits : (address : ℕ) → Fits (read_csr_raw address m)
  unfolding read_csr_raw
  read_csr_raw-Fits address =
      let c = h.csrs in
      ground (
        arith,
        bit_and-le m.csrs.mstatus sstatus_mask,
        bit_and-le m.csrs.fcsr 0x1f,
        bit_and-le m.csrs.fcsr 0xff,
        bit_and-le (m.csrs.fcsr >>> 5) 0x7,
        bit_and-le m.csrs.mie m.csrs.mideleg,
        bit_and-le m.csrs.mip m.csrs.mideleg,
        c.pmpcfg ((address - 0x3a0) / 2),
        c.pmpaddr (address - 0x3b0),
      )

  pub write_csr_raw-SomeValid :
      (address v : ℕ) → v < 2 ^ 64 → SomeValid l (write_csr_raw address v m)
  unfolding write_csr_raw
  write_csr_raw-SomeValid address v p =
      let c = h.csrs in
      let fcsr = bit_and (m.csrs.fcsr) (not64 0xe0) in
      ground (
        arith,
        merge-lt m.csrs.mstatus v (not64 sstatus_mask) sstatus_mask,
        merge-lt m.csrs.mie v (not64 m.csrs.mideleg) m.csrs.mideleg,
        merge-lt m.csrs.mip v (not64 m.csrs.mideleg) m.csrs.mideleg,
        merge-lt m.csrs.fcsr v (not64 0x1f) 0x1f,
        bit_or-lt 64 fcsr (bit_and v 0x7 <<< 5),
        bit_and-le m.csrs.fcsr (not64 0xe0),
        bit_and_mask 3 v,
        bit_and-le v 0xff,
        bit_and-le v (not64 (1 <<< 11)),
        bit_and-le v (not64 (bit_or (1 <<< 7) (1 <<< 3))),
        λ (i : ℕ). c.pmpcfg i,
        λ (i : ℕ). c.pmpaddr i,
      )

  pub raw_or_zero-lt : (address : ℕ) → raw_or_zero address m < 2 ^ 64
  raw_or_zero-lt address = ground (arith, read_csr_raw-Fits address)

  pub raw_write-IsValid : (address v : ℕ) → v < 2 ^ 64 → IsValid l (raw_write address v m)
  raw_write-IsValid address v p = ground (arith, write_csr_raw-SomeValid address v p)
