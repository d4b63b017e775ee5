-- ===== src/Memory.antt =====
-- src/Core/Memory.cpp: the RAM behind the bus. `cells` is what the host's address space holds from
-- the buffer's first byte on: the first `size` cells are the buffer's own, and a read or write at
-- an index past them is what C++ calls undefined. An index is a `uint64_t`, so it wraps. The
-- value that each write returns is its argument on every path, and is left out.
pub mod Bytes
pub mod RoundTrip
pub mod Safety
use rv64i_simulator.Base.{
  ℕ, ◌+◌, ◌^◌, ltb, if◌then◌else◌, u8, u16, u64, bit_and, bit_or, ◌<<<◌, ◌>>>◌, update,
}

pub record Memory : Type 0 where
  pub size : ℕ
  pub cells : ℕ → ℕ

-- The constructor: a buffer of zeros.
unfoldable pub create : ℕ → (ℕ → ℕ) → Memory
create size outside = record { size = size; cells = λ i. if ltb i size then 0 else outside i }

unfoldable pub get_size : Memory → ℕ
get_size m = m.size

-- `memory[address + i] = value`, with the index computed on 64 bits.
abbrev put : ℕ → ℕ → ℕ → Memory → Memory
put address i value m = record m { cells = update m.cells (u64 (address + i)) value }

unfoldable pub read_byte : Memory → ℕ → ℕ
read_byte m address = if ltb address m.size then m.cells address else 0

unfoldable pub write_byte : Memory → ℕ → ℕ → Memory
write_byte m address value =
    if ltb address m.size then record m { cells = update m.cells address value } else m

unfoldable pub read_half : Memory → ℕ → ℕ
read_half m address =
    if ltb (u64 (address + 1)) m.size
    then u16 (bit_or (m.cells address) (m.cells (u64 (address + 1)) <<< 8))
    else 0

unfoldable pub write_half : Memory → ℕ → ℕ → Memory
write_half m address value =
    if ltb (u64 (address + 1)) m.size
    then put address 1 (bit_and (value >>> 8) 0xff) (put address 0 (bit_and value 0xff) m)
    else m

unfoldable pub read_word : Memory → ℕ → ℕ
read_word m address =
    if ltb (u64 (address + 3)) m.size
    then bit_or
        (bit_or (bit_or (m.cells (u64 (address + 0))) (m.cells (u64 (address + 1)) <<< 8))
          (m.cells (u64 (address + 2)) <<< 16))
        (m.cells (u64 (address + 3)) <<< 24)
    else 0

unfoldable pub write_word : Memory → ℕ → ℕ → Memory
write_word m address value =
    if ltb (u64 (address + 3)) m.size
    then put address 3 (bit_and (value >>> 24) 0xff) (
        put address 2 (bit_and (value >>> 16) 0xff)
          (put address 1 (bit_and (value >>> 8) 0xff) (put address 0 (bit_and value 0xff) m)))
    else m

unfoldable pub read_double : Memory → ℕ → ℕ
read_double m address =
    if ltb (u64 (address + 7)) m.size
    then bit_or
        (bit_or
          (bit_or
            (bit_or
              (bit_or
                (bit_or (bit_or (m.cells (u64 (address + 0))) (m.cells (u64 (address + 1)) <<< 8))
                  (m.cells (u64 (address + 2)) <<< 16))
                (m.cells (u64 (address + 3)) <<< 24))
              (m.cells (u64 (address + 4)) <<< 32))
            (m.cells (u64 (address + 5)) <<< 40))
          (m.cells (u64 (address + 6)) <<< 48))
        (m.cells (u64 (address + 7)) <<< 56)
    else 0

unfoldable pub write_double : Memory → ℕ → ℕ → Memory
write_double m address value =
    if ltb (u64 (address + 7)) m.size
    then put address 7 (bit_and (value >>> 56) 0xff) (
        put address 6 (bit_and (value >>> 48) 0xff) (
          put address 5 (bit_and (value >>> 40) 0xff) (
            put address 4 (bit_and (value >>> 32) 0xff) (
              put address 3 (bit_and (value >>> 24) 0xff) (
                put address 2 (bit_and (value >>> 16) 0xff) (
                  put address 1 (bit_and (value >>> 8) 0xff)
                    (put address 0 (bit_and value 0xff) m)))))))
    else m
