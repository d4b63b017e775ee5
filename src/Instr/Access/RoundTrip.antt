-- ===== src/Instr/Access/RoundTrip.antt =====
-- A store and then a load of the same width at the same place of RAM, handler after handler.
use rv64i_simulator.Base.{ℕ, ◌-◌, ◌^◌, ◌<◌, ◌≡◌, ◌≢◌, refl, ==_ne, u16, u32, sx16, sx32, arith}
use rv64i_simulator.Memory
use rv64i_simulator.Memory.RoundTrip.{read-write_back}
use rv64i_simulator.Machine.{Machine, write_reg}
use rv64i_simulator.Decode.{DecodedInstruction}
use rv64i_simulator.Bus.Ram.{InRam, Unprotected, reads, writes, still_in, still_open, sizes}
use rv64i_simulator.Instr.Access.{
  address_of, exec_lh, exec_lw, exec_ld, exec_lhu, exec_lwu, exec_sh, exec_sw, exec_sd,
}

module _ (m : Machine) (a : ℕ) (r : InRam m a) (p : Unprotected m) (load : DecodedInstruction)
    (nonzero : load.rd ≢ 0) (loads_there : address_of load m ≡ a) where
  -- The machine with another RAM, from which the loads take what that RAM holds.
  module _ (ram : Memory.Memory) (same_size : ram.size ≡ m.ram.size) where
    abbrev with_ram : Machine
    with_ram = record m { ram = ram }

    abbrev held : (Memory.Memory → ℕ → ℕ) → ℕ
    held read = read ram (a - m.ram_base)

    loaded :
        (exec_lh load with_ram ≡ write_reg load.rd (sx16 (held Memory.read_half)) with_ram)
        × (exec_lhu load with_ram ≡ write_reg load.rd (u16 (held Memory.read_half)) with_ram)
        × (exec_lw load with_ram ≡ write_reg load.rd (sx32 (held Memory.read_word)) with_ram)
        × (exec_lwu load with_ram ≡ write_reg load.rd (u32 (held Memory.read_word)) with_ram)
        × (exec_ld load with_ram ≡ write_reg load.rd (held Memory.read_double) with_ram)
    unfolding exec_lh exec_lhu exec_lw exec_lwu exec_ld
    loaded =
        let e = ==_ne load.rd 0 nonzero in
        let there = reads with_ram a (still_in m a r p ram same_size) (still_open m a r p ram) in
        (
          rw (e, loads_there, there.0) refl,
          rw (e, loads_there, there.0) refl,
          rw (e, loads_there, there.1) refl,
          rw (e, loads_there, there.1) refl,
          rw (e, loads_there, there.2) refl,
        )

  module _ (store : DecodedInstruction) (stores_there : address_of store m ≡ a)
      (fits : m.registers store.rs2 < 2 ^ 64) where
    abbrev v : ℕ
    v = m.registers store.rs2

    stored :
        (exec_sh store m
          ≡ with_ram
              (Memory.write_half m.ram (a - m.ram_base) (u16 v))
              (sizes m.ram (a - m.ram_base) (u16 v)).0)
        × (exec_sw store m
            ≡ with_ram
                (Memory.write_word m.ram (a - m.ram_base) (u32 v))
                (sizes m.ram (a - m.ram_base) (u32 v)).1)
        × (exec_sd store m
            ≡ with_ram
                (Memory.write_double m.ram (a - m.ram_base) v)
                (sizes m.ram (a - m.ram_base) v).2)
    unfolding exec_sh exec_sw exec_sd
    stored = (
      rw (stores_there) (writes m a r p (u16 v)).0,
      rw (stores_there) (writes m a r p (u32 v)).1,
      rw (stores_there) (writes m a r p v).2,
    )

    -- In machine mode without a locked PMP entry, at an address with eight bytes of RAM left from it
    -- on, in a RAM that is above the CLINT and ends below 2^64, and that both instructions name, a
    -- load with a destination other than x0 that follows a store of the same width of a 64-bit
    -- register writes to its destination the stored value, cut to the width and extended as lh, lhu,
    -- lw, lwu and ld say, and changes nothing else.
    pub load-store :
        (exec_lh load (exec_sh store m) ≡ write_reg load.rd (sx16 (u16 v)) (exec_sh store m))
        × (exec_lhu load (exec_sh store m) ≡ write_reg load.rd (u16 v) (exec_sh store m))
        × (exec_lw load (exec_sw store m) ≡ write_reg load.rd (sx32 (u32 v)) (exec_sw store m))
        × (exec_lwu load (exec_sw store m) ≡ write_reg load.rd (u32 v) (exec_sw store m))
        × (exec_ld load (exec_sd store m) ≡ write_reg load.rd v (exec_sd store m))
    load-store =
        let b = r.from in
        let i = r.inside in
        let f = r.fits in
        let o = a - m.ram_base in
        let back = read-write_back m.ram o v (omega arith) (omega arith) fits in
        let halves = loaded (Memory.write_half m.ram o (u16 v)) (sizes m.ram o (u16 v)).0 in
        let words = loaded (Memory.write_word m.ram o (u32 v)) (sizes m.ram o (u32 v)).1 in
        let doubles = loaded (Memory.write_double m.ram o v) (sizes m.ram o v).2 in
        let again : u16 (u16 v) ≡ u16 v = omega arith in
        let again32 : u32 (u32 v) ≡ u32 v = omega arith in
        (
          rw (stored.0, halves.0, back.1) refl,
          rw (stored.0, halves.1, back.1, again) refl,
          rw (stored.1, words.2, back.2) refl,
          rw (stored.1, words.3, back.2, again32) refl,
          rw (stored.2, doubles.4, back.3) refl,
        )
