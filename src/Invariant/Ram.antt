-- ===== src/Invariant/Ram.antt =====
-- RAM holds bytes, reads give words of their width, and no write changes the size.
use rv64i_simulator.Base.{
  ℕ, ◌+◌, ◌/◌, ◌^◌, ◌<◌, ◌≡◌, ltb, bit_and, ◌>>>◌, u64, Bool-cases, inl, inr, update, arith,
}
use rv64i_simulator.Base.Bits.{bit_and_mask}
use rv64i_simulator.Memory.Bytes.{or_of_four, or_of_eight}
use rv64i_simulator.Memory.{
  Memory, read_byte, read_half, read_word, read_double, write_byte, write_half, write_word,
  write_double,
}

-- The RAM of a machine of the invariant: bytes, and a given size.
pub record RamFits (n : ℕ) (r : Memory) : Type 0 where
  pub cells : (i : ℕ) → r.cells i < 2 ^ 8
  pub size : r.size ≡ n

masked-lt : (x k : ℕ) → bit_and (x >>> k) 0xff < 2 ^ 8
masked-lt x k = omega (arith, bit_and_mask 8 (x / 2 ^ k))

low-lt : (x : ℕ) → bit_and x 0xff < 2 ^ 8
low-lt x = omega (arith, bit_and_mask 8 x)

module _ {n : ℕ} {r : Memory} (h : RamFits n r) where
  pub read_byte-lt : (a : ℕ) → read_byte r a < 2 ^ 8
  unfolding read_byte
  read_byte-lt a = ground (arith, h.cells a)

  pub read_half-lt : (a : ℕ) → read_half r a < 2 ^ 16
  unfolding read_half
  read_half-lt a = ground arith

  pub read_word-lt : (a : ℕ) → read_word r a < 2 ^ 32
  unfolding read_word
  read_word-lt a =
      let b0 = h.cells (u64 (a + 0)) in
      let b1 = h.cells (u64 (a + 1)) in
      let b2 = h.cells (u64 (a + 2)) in
      let b3 = h.cells (u64 (a + 3)) in
      let sum = or_of_four _ _ _ (r.cells (u64 (a + 3))) b0 b1 b2 in ground (arith, sum)

  pub read_double-lt : (a : ℕ) → read_double r a < 2 ^ 64
  unfolding read_double
  read_double-lt a =
      let b0 = h.cells (u64 (a + 0)) in
      let b1 = h.cells (u64 (a + 1)) in
      let b2 = h.cells (u64 (a + 2)) in
      let b3 = h.cells (u64 (a + 3)) in
      let b4 = h.cells (u64 (a + 4)) in
      let b5 = h.cells (u64 (a + 5)) in
      let b6 = h.cells (u64 (a + 6)) in
      let b7 = h.cells (u64 (a + 7)) in
      let sum = or_of_eight _ _ _ _ _ _ _ (r.cells (u64 (a + 7))) b0 b1 b2 b3 b4 b5 b6 in
      ground (arith, sum)

  put : (i v : ℕ) → v < 2 ^ 8 → RamFits n (record r { cells = update r.cells i v })
  put i v p = record { cells = λ j. ground (arith, h.cells j); size = h.size }

  pub write_byte-RamFits : (a v : ℕ) → v < 2 ^ 8 → RamFits n (write_byte r a v)
  unfolding write_byte
  write_byte-RamFits a v p = ground (arith, put a v p)

module _ {n : ℕ} {r : Memory} (h : RamFits n r) where
  pub write_half-RamFits : (a v : ℕ) → RamFits n (write_half r a v)
  unfolding write_half
  write_half-RamFits a v =
      let h0 = put h (u64 (a + 0)) _ (low-lt v) in
      let h1 = put h0 (u64 (a + 1)) _ (masked-lt v 8) in ground (arith, h1)

  pub write_word-RamFits : (a v : ℕ) → RamFits n (write_word r a v)
  unfolding write_word
  write_word-RamFits a v =
      let h0 = put h (u64 (a + 0)) _ (low-lt v) in
      let h1 = put h0 (u64 (a + 1)) _ (masked-lt v 8) in
      let h2 = put h1 (u64 (a + 2)) _ (masked-lt v 16) in
      let h3 = put h2 (u64 (a + 3)) _ (masked-lt v 24) in ground (arith, h3)

  pub write_double-RamFits : (a v : ℕ) → RamFits n (write_double r a v)
  unfolding write_double
  write_double-RamFits a v =
      let h0 = put h (u64 (a + 0)) _ (low-lt v) in
      let h1 = put h0 (u64 (a + 1)) _ (masked-lt v 8) in
      let h2 = put h1 (u64 (a + 2)) _ (masked-lt v 16) in
      let h3 = put h2 (u64 (a + 3)) _ (masked-lt v 24) in
      let h4 = put h3 (u64 (a + 4)) _ (masked-lt v 32) in
      let h5 = put h4 (u64 (a + 5)) _ (masked-lt v 40) in
      let h6 = put h5 (u64 (a + 6)) _ (masked-lt v 48) in
      let h7 = put h6 (u64 (a + 7)) _ (masked-lt v 56) in
      elim (Bool-cases (ltb (u64 (a + 7)) r.size)) [ inl e ↦ rw e h7 | inr e ↦ rw e h ]
