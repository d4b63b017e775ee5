-- ===== src/Memory/Safety.antt =====
-- Memory.cpp: which cells an access touches. Inside the buffer, unless the guard's sum wraps.
use rv64i_simulator.Base.{
  ℕ, ◌+◌, ◌%◌, ◌^◌, ◌<◌, ◌≤◌, ◌≡◌, ◌⊎◌, inl, inr, ◌-◌, ◌*◌, ◌/◌, ◌&&◌, Bool, zero, suc, u8,
  Bool-cases, leb, ltb, if◌then◌else◌, arith,
}
use rv64i_simulator.Memory.{
  Memory, read_byte, write_byte, read_half, write_half, read_word, write_word, read_double,
  write_double,
}
use rv64i_simulator.Memory.Bytes.{byte_of}

-- Two memories of one size that agree on the buffer's own cells.
pub record SameBuffer (m n : Memory) : Type 0 where
  pub same_size : m.size ≡ n.size
  pub same_cells : (i : ℕ) → i < m.size → m.cells i ≡ n.cells i

-- At an address whose seven successors do not wrap, every RAM read depends only on the buffer's
-- own cells.
pub read-SameBuffer :
    (m n : Memory) (a : ℕ)
    → SameBuffer m n
    → a + 7 < 2 ^ 64
    → (read_byte m a ≡ read_byte n a)
      × (read_half m a ≡ read_half n a)
      × (read_word m a ≡ read_word n a)
      × (read_double m a ≡ read_double n a)
unfolding read_byte read_half read_word read_double
read-SameBuffer m n a h nw = (
  ground (arith, h.same_cells a),
  ground (arith, h.same_cells a, h.same_cells (a + 1)),
  ground (arith, h.same_cells a, h.same_cells (a + 1), h.same_cells (a + 2), h.same_cells (a + 3)),
  ground (
    arith,
    h.same_cells a,
    h.same_cells (a + 1),
    h.same_cells (a + 2),
    h.same_cells (a + 3),
    h.same_cells (a + 4),
    h.same_cells (a + 5),
    h.same_cells (a + 6),
    h.same_cells (a + 7),
  ),
)

-- Whether an access of `n` bytes at `a` is in the buffer and reaches cell `i`.
abbrev pub reached : Memory → ℕ → ℕ → ℕ → Bool
reached m n a i = leb a i && ltb i (a + n) && leb (a + n) m.size

-- Byte `k` of a value.
abbrev pub little_endian : ℕ → ℕ → ℕ
little_endian v k = v / 2 ^ (8 * k) % 2 ^ 8

module _ (m : Memory) (a v : ℕ) (nw : a + 7 < 2 ^ 64) where
  -- What a write of `n` bytes does, from its bytes and its frame.
  write_exact :
      (n : ℕ) (m' : Memory) (i : ℕ)
      → ((k : ℕ) → k < n → a + n ≤ m.size → m'.cells (a + k) ≡ little_endian v k)
      → ((m.size < a + n) ⊎ (i < a) ⊎ (a + n ≤ i) → m'.cells i ≡ m.cells i)
      → m'.cells i ≡ (if reached m n a i then little_endian v (i - a) else m.cells i)
  write_exact n m' i bytes frame = elim (Bool-cases (ltb i a)) [
    | inl below ↦ ground (arith, frame)
    | inr above ↦
        let s : a + (i - a) ≡ i = ground arith in ground (arith, frame, rw s at (bytes (i - a)))
  ]

  half_bytes :
      (k : ℕ) → k < 2 → a + 2 ≤ m.size → (write_half m a v).cells (a + k) ≡ little_endian v k
  unfolding write_half
  half_bytes zero h b = ground (arith, byte_of 0 v)
  half_bytes (suc zero) h b = ground (arith, byte_of 8 v)
  half_bytes (suc (suc k)) h b = absurd (omega arith)

  word_bytes :
      (k : ℕ) → k < 4 → a + 4 ≤ m.size → (write_word m a v).cells (a + k) ≡ little_endian v k
  unfolding write_word
  word_bytes zero h b = ground (arith, byte_of 0 v)
  word_bytes (suc zero) h b = ground (arith, byte_of 8 v)
  word_bytes (suc (suc zero)) h b = ground (arith, byte_of 16 v)
  word_bytes (suc (suc (suc zero))) h b = ground (arith, byte_of 24 v)
  word_bytes (suc (suc (suc (suc k)))) h b = absurd (omega arith)

  double_bytes :
      (k : ℕ) → k < 8 → a + 8 ≤ m.size → (write_double m a v).cells (a + k) ≡ little_endian v k
  unfolding write_double
  double_bytes zero h b = ground (arith, byte_of 0 v)
  double_bytes (suc zero) h b = ground (arith, byte_of 8 v)
  double_bytes (suc (suc zero)) h b = ground (arith, byte_of 16 v)
  double_bytes (suc (suc (suc zero))) h b = ground (arith, byte_of 24 v)
  double_bytes (suc (suc (suc (suc zero)))) h b = ground (arith, byte_of 32 v)
  double_bytes (suc (suc (suc (suc (suc zero))))) h b = ground (arith, byte_of 40 v)
  double_bytes (suc (suc (suc (suc (suc (suc zero)))))) h b = ground (arith, byte_of 48 v)
  double_bytes (suc (suc (suc (suc (suc (suc (suc zero))))))) h b = ground (arith, byte_of 56 v)
  double_bytes (suc (suc (suc (suc (suc (suc (suc (suc k)))))))) h b = absurd (omega arith)

-- A RAM write of one, two, four or eight bytes at an address whose seven successors do not wrap
-- changes exactly the cells it reaches, to the bytes of the value in little-endian order, and
-- changes nothing if a byte of it is past the buffer.
pub write_frame :
    (m : Memory) (a v i : ℕ)
    → a + 7 < 2 ^ 64
    → ((write_byte m a (u8 v)).cells i
        ≡ (if reached m 1 a i then little_endian v (i - a) else m.cells i))
      × ((write_half m a v).cells i
          ≡ (if reached m 2 a i then little_endian v (i - a) else m.cells i))
      × ((write_word m a v).cells i
          ≡ (if reached m 4 a i then little_endian v (i - a) else m.cells i))
      × ((write_double m a v).cells i
          ≡ (if reached m 8 a i then little_endian v (i - a) else m.cells i))
unfolding write_byte write_half write_word write_double
write_frame m a v i nw = (
  write_exact m a v nw 1 (write_byte m a (u8 v)) i (λ k h b. ground arith) (λ h. ground arith),
  write_exact m a v nw 2 (write_half m a v) i (half_bytes m a v nw) (λ h. ground arith),
  write_exact m a v nw 4 (write_word m a v) i (word_bytes m a v nw) (λ h. ground arith),
  write_exact m a v nw 8 (write_double m a v) i (double_bytes m a v nw) (λ h. ground arith),
)

-- At one of the last seven 64-bit addresses, past a buffer of at least seven bytes, the wrapped
-- guard of writeDouble passes and the write changes a cell outside the buffer.
pub write_double_wraps :
    (m : Memory) (a v : ℕ)
    → 7 ≤ m.size
    → m.size ≤ a
    → a < 2 ^ 64
    → 2 ^ 64 ≤ a + 7
    → (write_double m a v).cells a ≡ v % 2 ^ 8
unfolding write_double
write_double_wraps m a v s o b w = ground (arith, byte_of 0 v)
