-- ===== src/Memory/RoundTrip.antt =====
-- Memory.cpp: what is written is read back, at every width, and other bytes keep their values.
use rv64i_simulator.Base.{ℕ, ◌+◌, ◌/◌, ◌%◌, ◌^◌, ◌<◌, ◌≤◌, ◌≡◌, arith, u8, u16, u32, u64, ltb, true}
use rv64i_simulator.Memory.{
  Memory, read_byte, write_byte, read_half, write_half, read_word, write_word, read_double,
  write_double,
}
use rv64i_simulator.Memory.Bytes.{or_of_two, or_of_four, or_of_eight, byte_of}

read_byte-write_byte : (m : Memory) (a v : ℕ) → a < m.size → read_byte (write_byte m a v) a ≡ v
unfolding read_byte write_byte
read_byte-write_byte m a v h = ground arith

read_half-write_half :
    (m : Memory) (a v : ℕ)
    → m.size ≤ 2 ^ 64
    → a + 1 < m.size
    → v < 2 ^ 16
    → read_half (write_half m a v) a ≡ v
unfolding read_half write_half
read_half-write_half m a v s h b =
    ground (arith, byte_of 0 v, byte_of 8 v, or_of_two (v % 2 ^ 8) (v / 2 ^ 8 % 2 ^ 8))

read_word-write_word :
    (m : Memory) (a v : ℕ)
    → m.size ≤ 2 ^ 64
    → a + 3 < m.size
    → v < 2 ^ 32
    → read_word (write_word m a v) a ≡ v
unfolding read_word write_word
read_word-write_word m a v s h b = ground (
  arith,
  byte_of 0 v,
  byte_of 8 v,
  byte_of 16 v,
  byte_of 24 v,
  or_of_four (v % 2 ^ 8) (v / 2 ^ 8 % 2 ^ 8) (v / 2 ^ 16 % 2 ^ 8) (v / 2 ^ 24 % 2 ^ 8),
)

module _ (m : Memory) (a v : ℕ) (s : m.size ≤ 2 ^ 64) (h : a + 7 < m.size) where
  cells-write_double :
      ((write_double m a v).cells (u64 (a + 0)) ≡ v / 2 ^ 0 % 2 ^ 8)
      × ((write_double m a v).cells (u64 (a + 1)) ≡ v / 2 ^ 8 % 2 ^ 8)
      × ((write_double m a v).cells (u64 (a + 2)) ≡ v / 2 ^ 16 % 2 ^ 8)
      × ((write_double m a v).cells (u64 (a + 3)) ≡ v / 2 ^ 24 % 2 ^ 8)
      × ((write_double m a v).cells (u64 (a + 4)) ≡ v / 2 ^ 32 % 2 ^ 8)
      × ((write_double m a v).cells (u64 (a + 5)) ≡ v / 2 ^ 40 % 2 ^ 8)
      × ((write_double m a v).cells (u64 (a + 6)) ≡ v / 2 ^ 48 % 2 ^ 8)
      × ((write_double m a v).cells (u64 (a + 7)) ≡ v / 2 ^ 56 % 2 ^ 8)
  unfolding write_double
  cells-write_double = (
    ground (arith, byte_of 0 v),
    ground (arith, byte_of 8 v),
    ground (arith, byte_of 16 v),
    ground (arith, byte_of 24 v),
    ground (arith, byte_of 32 v),
    ground (arith, byte_of 40 v),
    ground (arith, byte_of 48 v),
    ground (arith, byte_of 56 v),
  )

  size-write_double : (write_double m a v).size ≡ m.size
  unfolding write_double
  size-write_double = ground arith

read_double-write_double :
    (m : Memory) (a v : ℕ)
    → m.size ≤ 2 ^ 64
    → a + 7 < m.size
    → v < 2 ^ 64
    → read_double (write_double m a v) a ≡ v
unfolding read_double
read_double-write_double m a v s h b =
    let w = cells-write_double m a v s h in
    let inside : ltb (u64 (a + 7)) (write_double m a v).size ≡ true =
      ground (arith, size-write_double m a v s h) in
    rw (inside, w.0, w.1, w.2, w.3, w.4, w.5, w.6, w.7)
      (omega (
        arith,
        or_of_eight (v / 2 ^ 0 % 2 ^ 8) (v / 2 ^ 8 % 2 ^ 8) (v / 2 ^ 16 % 2 ^ 8)
            (v / 2 ^ 24 % 2 ^ 8) (v / 2 ^ 32 % 2 ^ 8) (v / 2 ^ 40 % 2 ^ 8) (v / 2 ^ 48 % 2 ^ 8)
            (v / 2 ^ 56 % 2 ^ 8),
      ))

-- At every width, a 64-bit value written inside a RAM of at most 2^64 bytes, with eight bytes
-- left from the address on, is read back, cut to the width.
pub read-write_back :
    (m : Memory) (a v : ℕ)
    → m.size ≤ 2 ^ 64
    → a + 7 < m.size
    → v < 2 ^ 64
    → (read_byte (write_byte m a (u8 v)) a ≡ u8 v)
      × (read_half (write_half m a (u16 v)) a ≡ u16 v)
      × (read_word (write_word m a (u32 v)) a ≡ u32 v)
      × (read_double (write_double m a v) a ≡ v)
read-write_back m a v s h b = (
  read_byte-write_byte m a (u8 v) (omega arith),
  read_half-write_half m a (u16 v) s (omega arith) (omega arith),
  read_word-write_word m a (u32 v) s (omega arith) (omega arith),
  read_double-write_double m a v s h b,
)
