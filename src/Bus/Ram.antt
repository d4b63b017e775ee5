-- ===== src/Bus/Ram.antt =====
-- Bus.cpp on RAM: a value written over the bus is read back, and a refused access changes nothing but
-- what its trap changes.
use rv64i_simulator.Base.{
  ℕ, ◌+◌, ◌-◌, ◌^◌, ◌<◌, ◌≤◌, ◌≡◌, refl, true, false, any_set, u16, u32, arith, Bool-cases, inl,
  inr,
}
use rv64i_simulator.Memory
use rv64i_simulator.Memory.{Memory}
use rv64i_simulator.Memory.RoundTrip.{read-write_back}
use rv64i_simulator.Trap.{TrapCause, store_access_fault}
use rv64i_simulator.Machine.{Machine, load, store, machine_mode}
use rv64i_simulator.Cpu.Raise.{raise_trap, delegate_to_s, trap_to_s, trap_to_m}
use rv64i_simulator.Cpu.CsrFile.{write_csr_raw}
use rv64i_simulator.Cpu.Pmp.{check_pmp, entry_cfg}
use rv64i_simulator.Cpu.Pmp.First.{check_pmp_unlocked}
use rv64i_simulator.Bus.Read.{read_half, read_word, read_double}
use rv64i_simulator.Bus.Write.{write_byte, write_half, write_word, write_double}

-- An access of eight bytes at `address` is in RAM, and RAM is above the CLINT and does not reach the
-- last address.
pub record InRam (m : Machine) (address : ℕ) : Type 0 where
  pub fits : m.ram_base + m.ram.size < 2 ^ 64
  pub above : 0x0200_c000 ≤ m.ram_base
  pub from : m.ram_base ≤ address
  pub inside : address + 7 < m.ram_base + m.ram.size

-- Machine mode, and no locked protection entry.
pub record Unprotected (m : Machine) : Type 0 where
  pub mode : m.mode ≡ machine_mode
  pub unlocked : (j : ℕ) → any_set (entry_cfg m.csrs j) 0x80 ≡ false

module _ (m : Machine) (address : ℕ) (r : InRam m address) (p : Unprotected m) where
  pub reads :
      (read_half address m ≡ (Memory.read_half m.ram (address - m.ram_base), m))
      × (read_word address m ≡ (Memory.read_word m.ram (address - m.ram_base), m))
      × (read_double address m ≡ (Memory.read_double m.ram (address - m.ram_base), m))
  unfolding read_half read_word read_double Memory.get_size
  reads =
      let grant = check_pmp_unlocked m address load p.mode p.unlocked in
      let i = r.inside in
      let f = r.fits in
      let a = r.above in let b = r.from in (ground arith, ground arith, ground arith)

  pub writes :
      (v : ℕ)
      → (write_half address v m
          ≡ record m { ram = Memory.write_half m.ram (address - m.ram_base) v })
        × (write_word address v m
            ≡ record m { ram = Memory.write_word m.ram (address - m.ram_base) v })
        × (write_double address v m
            ≡ record m { ram = Memory.write_double m.ram (address - m.ram_base) v })
  unfolding write_half write_word write_double Memory.get_size
  writes v =
      let grant = check_pmp_unlocked m address store p.mode p.unlocked in
      let i = r.inside in
      let f = r.fits in
      let a = r.above in let b = r.from in (ground arith, ground arith, ground arith)

  -- The same machine with another RAM of the same size.
  pub still_in : (n : Memory) → n.size ≡ m.ram.size → InRam (record m { ram = n }) address
  still_in n e = record {
    fits = rw e r.fits;
    above = r.above;
    from = r.from;
    inside = rw e r.inside;
  }

  pub still_open : (n : Memory) → Unprotected (record m { ram = n })
  still_open n = record { mode = p.mode; unlocked = p.unlocked }

pub sizes :
    (m : Memory) (a v : ℕ)
    → ((Memory.write_half m a v).size ≡ m.size)
      × ((Memory.write_word m a v).size ≡ m.size)
      × ((Memory.write_double m a v).size ≡ m.size)
unfolding Memory.write_half Memory.write_word Memory.write_double
sizes m a v = (ground arith, ground arith, ground arith)

-- In machine mode with no locked PMP entry, a 64-bit value written over the bus to RAM above the
-- CLINT, with eight bytes left from the address on and RAM ending below 2^64, is read back over
-- the bus, cut to the width, for half-words, words and double words.
pub read-write_ram :
    (m : Machine) (address v : ℕ)
    → InRam m address
    → Unprotected m
    → v < 2 ^ 64
    → ((read_half address (write_half address (u16 v) m)).0 ≡ u16 v)
      × ((read_word address (write_word address (u32 v) m)).0 ≡ u32 v)
      × ((read_double address (write_double address v m)).0 ≡ v)
read-write_ram m address v r p fits =
    let a = address - m.ram_base in
    let f = r.fits in
    let b = r.from in
    let i = r.inside in
    let back = read-write_back m.ram a v (omega arith) (omega arith) fits in
    let h = Memory.write_half m.ram a (u16 v) in
    let w = Memory.write_word m.ram a (u32 v) in
    let d = Memory.write_double m.ram a v in
    let in_h = still_in m address r p h (sizes m.ram a (u16 v)).0 in
    let in_w = still_in m address r p w (sizes m.ram a (u32 v)).1 in
    let in_d = still_in m address r p d (sizes m.ram a v).2 in
    (
      rw
          (
            (writes m address r p (u16 v)).0,
            (reads (record m { ram = h }) address in_h (still_open m address r p h)).0,
          )
          back.1,
      rw
          (
            (writes m address r p (u32 v)).1,
            (reads (record m { ram = w }) address in_w (still_open m address r p w)).1,
          )
          back.2,
      rw
          (
            (writes m address r p v).2,
            (reads (record m { ram = d }) address in_d (still_open m address r p d)).2,
          )
          back.3,
    )

-- A trap changes no memory, no device and no register.
raise_trap-kept :
    (cause : TrapCause) (pc value : ℕ) (m : Machine)
    → let m' = raise_trap cause pc value m in
      (m'.ram ≡ m.ram)
      × (m'.registers ≡ m.registers)
      × (m'.uart ≡ m.uart)
      × (m'.msip ≡ m.msip)
      × (m'.mtimecmp ≡ m.mtimecmp)
unfolding raise_trap trap_to_s trap_to_m write_csr_raw
raise_trap-kept cause pc value m =
    elim (Bool-cases (delegate_to_s cause (record m { trap_pending = true }))) [
      | inl e ↦ rw e (refl, refl, refl, refl, refl)
      | inr e ↦ rw e (refl, refl, refl, refl, refl)
    ]

-- If protection refuses a store to an address, a write of each width raises a store access fault
-- with that address and changes no RAM, register, UART, msip or mtimecmp.
pub write_refused :
    (m : Machine) (address v : ℕ)
    → check_pmp address store m ≡ false
    → let m' = raise_trap store_access_fault m.program_counter address m in
      (write_byte address v m ≡ m')
      × (write_half address v m ≡ m')
      × (write_word address v m ≡ m')
      × (write_double address v m ≡ m')
      × (m'.ram ≡ m.ram)
      × (m'.registers ≡ m.registers)
      × (m'.uart ≡ m.uart)
      × (m'.msip ≡ m.msip)
      × (m'.mtimecmp ≡ m.mtimecmp)
unfolding write_byte write_half write_word write_double
write_refused m address v h =
    let (a, b, c, d, e) = raise_trap-kept store_access_fault m.program_counter address m in
    (rw h refl, rw h refl, rw h refl, rw h refl, a, b, c, d, e)
