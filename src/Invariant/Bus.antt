-- ===== src/Invariant/Bus.antt =====
-- Reads and writes over the bus, and the checked accesses to control registers, keep the invariant, and
-- a read gives a word of its width.
use Prim.Native.String.{String}
use rv64i_simulator.Base.{
  ℕ, ◌-◌, ◌^◌, ◌<◌, ◌≡◌, ◌||◌, ltb, ◌==◌, Option, none, some, bit_and, ◌<<<◌, ◌>>>◌, not64, sub64,
  arith, Bool-cases, inl, inr, ◌⊎◌, refl,
}
use rv64i_simulator.Base.Bits.{bit_and-le, bit_or-lt, bit_and_mask}
use rv64i_simulator.Memory.{Memory}
use rv64i_simulator.Uart
use rv64i_simulator.Uart.{Uart}
use rv64i_simulator.Trap.{load_access_fault, store_access_fault, illegal_instruction}
use rv64i_simulator.Machine.{Machine, char, text, int, print}
use rv64i_simulator.Bus.Read.{uart_byte, read_byte, read_half, read_word, read_double}
use rv64i_simulator.Bus.Write.{
  uart_write, write_byte, write_half, write_word, write_double, write_msip,
}
use rv64i_simulator.Cpu.Csr.{read_csr, write_csr, raise_illegal, raise_illegal_here}
use rv64i_simulator.Invariant.{
  IsValid, Layout, UartFits, set_ram, set_uart, set_msip, set_mtimecmp, set_printed,
}
use rv64i_simulator.Invariant.Trap.{raise_trap-IsValid}
use rv64i_simulator.Invariant.CsrFile.{SomeValid, read_csr_raw-Fits, write_csr_raw-SomeValid}
use rv64i_simulator.Invariant.Ram.{
  RamFits, read_byte-lt, read_half-lt, read_word-lt, read_double-lt, write_byte-RamFits,
  write_half-RamFits, write_word-RamFits, write_double-RamFits,
}

-- A result below a bound, with a machine that keeps the invariant.
pub record Gives (l : Layout) (bound : ℕ) (r : ℕ × Machine) : Type 0 where
  pub value : r.0 < bound
  pub machine : IsValid l r.1

uart_read-lt : (u : Uart) (a : ℕ) → ((i : ℕ) → u.registers i < 2 ^ 8) → Uart.read_byte u a < 2 ^ 8
unfolding Uart.read_byte
uart_read-lt u a h = ground (arith, h (sub64 a u.base_address))

uart_write-Fits :
    (u : Uart) (a v i : ℕ)
    → ((i : ℕ) → u.registers i < 2 ^ 8)
    → v < 2 ^ 8
    → (Uart.write_byte u a v).0.registers i < 2 ^ 8
unfolding Uart.write_byte
uart_write-Fits u a v i h p = ground (arith, h i)

sent_cases : (o : Option ℕ) → (o ≡ none) ⊎ ((c : ℕ) × (o ≡ some c))
sent_cases none = inl refl
sent_cases (some c) = inr (c, refl)

module _ {l : Layout} {m : Machine} (h : IsValid l m) where
  ram_fits : RamFits l.ram_size m.ram
  ram_fits = record { cells = h.cells; size = h.size }

  pub read_half-Gives : (a : ℕ) → a < 2 ^ 64 → Gives l (2 ^ 16) (read_half a m)
  unfolding read_half
  read_half-Gives a p =
      let fault = raise_trap-IsValid h load_access_fault m.program_counter a h.program_counter p in
      ground (arith, read_half-lt ram_fits (a - m.ram_base), fault)

  pub read_word-Gives : (a : ℕ) → a < 2 ^ 64 → Gives l (2 ^ 32) (read_word a m)
  unfolding read_word
  read_word-Gives a p =
      let fault = raise_trap-IsValid h load_access_fault m.program_counter a h.program_counter p in
      let b = h.msip in
      let c = h.mtime in
      ground (
        arith,
        read_word-lt ram_fits (a - m.ram_base),
        fault,
        bit_and_mask 32 m.mtime,
        bit_and_mask 32 m.mtimecmp,
      )

  pub read_double-Gives : (a : ℕ) → a < 2 ^ 64 → Gives l (2 ^ 64) (read_double a m)
  unfolding read_double
  read_double-Gives a p =
      let fault = raise_trap-IsValid h load_access_fault m.program_counter a h.program_counter p in
      ground (arith, read_double-lt ram_fits (a - m.ram_base), fault)

  uart_read_lt : (u : Option Uart) (a : ℕ) → UartFits u → uart_byte u a < 2 ^ 8
  uart_read_lt none a f = omega arith
  uart_read_lt (some u) a f = uart_read-lt u a f

  pub read_byte-Gives : (a : ℕ) → a < 2 ^ 64 → Gives l (2 ^ 8) (read_byte a m)
  unfolding read_byte
  read_byte-Gives a p =
      let fault = raise_trap-IsValid h load_access_fault m.program_counter a h.program_counter p in
      ground (arith, read_byte-lt ram_fits (a - m.ram_base), fault, uart_read_lt m.uart a h.uart)

  with_ram : (r : Memory) → RamFits l.ram_size r → IsValid l (record m { ram = r })
  with_ram r f = set_ram h r f.cells f.size

  with_uart : (u : Option Uart) (a v : ℕ) → UartFits u → v < 2 ^ 8 → IsValid l (uart_write u a v m)
  with_uart none a v f p = h
  with_uart (some u) a v f p =
      let h1 = set_uart h (Uart.write_byte u a v).0 (λ i. uart_write-Fits u a v i f p) in
      elim (sent_cases (Uart.write_byte u a v).1) [
        | inl e ↦ rw (e, uart_write) h1
        | inr (c, e) ↦ rw (e, uart_write) (set_printed h1 (char c))
      ]

  pub write_byte-IsValid : (a v : ℕ) → a < 2 ^ 64 → v < 2 ^ 8 → IsValid l (write_byte a v m)
  unfolding write_byte
  write_byte-IsValid a v p q =
      let fault = raise_trap-IsValid h store_access_fault m.program_counter a h.program_counter p in
      let sent = with_uart m.uart a v h.uart q in
      let stored = with_ram _ (write_byte-RamFits ram_fits (a - m.ram_base) v q) in
      ground (arith, fault, sent, stored)

  pub write_half-IsValid : (a v : ℕ) → a < 2 ^ 64 → IsValid l (write_half a v m)
  unfolding write_half
  write_half-IsValid a v p =
      let fault = raise_trap-IsValid h store_access_fault m.program_counter a h.program_counter p in
      let stored = with_ram _ (write_half-RamFits ram_fits (a - m.ram_base) v) in
      ground (arith, fault, stored)

  pub raise_illegal-IsValid : (pc : ℕ) → pc < 2 ^ 64 → IsValid l (raise_illegal pc m)
  unfolding raise_illegal
  raise_illegal-IsValid pc p =
      let r = read_word-Gives pc p in
      raise_trap-IsValid r.machine illegal_instruction pc _ p (omega (arith, r.value))

  pub raise_illegal_here-IsValid : IsValid l (raise_illegal_here m)
  unfolding raise_illegal_here
  raise_illegal_here-IsValid =
      let r = read_word-Gives m.program_counter h.program_counter in
      raise_trap-IsValid r.machine illegal_instruction _ _ r.machine.program_counter
        (omega (arith, r.value))

module _ {l : Layout} {m : Machine} (h : IsValid l m) where
  some_or :
      (o : Option Machine) (d : Machine)
      → SomeValid l o
      → IsValid l d
      → IsValid l (elim o [ some m' ↦ m' | none ↦ d ])
  some_or none d f g = g
  some_or (some m') d f g = f

  complained :
      (t : String) (a : ℕ)
      → let m' = print (text "\n") (print (int a) (print (text t) m)) in
        IsValid l (raise_illegal_here m')
  complained t a =
      raise_illegal_here-IsValid
        (set_printed (set_printed (set_printed h (text t)) (int a)) (text "\n"))

  pub read_csr-Gives : (a : ℕ) → Gives l (2 ^ 64) (read_csr a m)
  unfolding read_csr
  read_csr-Gives a = ground (
    arith,
    complained "Unprivileged Read Access: " a,
    complained "Unimplemented CSR Read: " a,
    read_csr_raw-Fits h a,
  )

  pub write_csr-IsValid : (a v : ℕ) → v < 2 ^ 64 → IsValid l (write_csr a v m)
  unfolding write_csr
  write_csr-IsValid a v p =
      let read_only = bit_and (a >>> 10) 0x3 == 0x3 in
      elim (Bool-cases (ltb m.mode (bit_and (a >>> 8) 0x3) || read_only)) [
        | inl e ↦ rw e (complained _ a)
        | inr e ↦ rw e (
            some_or _ _ (write_csr_raw-SomeValid h a v p)
              (complained "Unimplemented CSR Write: " a))
      ]

module _ {l : Layout} {m : Machine} (h : IsValid l m) where
  write_msip-IsValid : (v : ℕ) → IsValid l (write_msip v m)
  unfolding write_msip
  write_msip-IsValid v =
      let h1 = set_msip h (bit_and v 1) (omega (arith, bit_and_mask 1 v)) in
      let r = read_csr-Gives h1 0x344 in
      let low = r.value in
      write_csr-IsValid r.machine 0x344 _ (
        ground (
          arith,
          bit_and-le (read_csr 0x344 (record m { msip = bit_and v 1 })).0 (not64 (1 <<< 3)),
          bit_or-lt 64 (read_csr 0x344 (record m { msip = bit_and v 1 })).0 (1 <<< 3),
        ))

  pub write_word-IsValid : (a v : ℕ) → a < 2 ^ 64 → v < 2 ^ 32 → IsValid l (write_word a v m)
  unfolding write_word
  write_word-IsValid a v p q =
      let fault = raise_trap-IsValid h store_access_fault m.program_counter a h.program_counter p in
      let stored = with_ram h _ (write_word-RamFits (ram_fits h) (a - m.ram_base) v) in
      let low = set_mtimecmp h _ (
        bit_or-lt 64 (bit_and m.mtimecmp 0xffff_ffff_0000_0000) v
          (omega (arith, h.mtimecmp, bit_and-le m.mtimecmp 0xffff_ffff_0000_0000)) (omega arith)) in
      let high = set_mtimecmp h _ (
        bit_or-lt 64 (bit_and m.mtimecmp 0xffff_ffff) (v <<< 32)
          (omega (arith, bit_and_mask 32 m.mtimecmp)) (omega arith)) in
      ground (arith, fault, stored, low, high, write_msip-IsValid v)

  pub write_double-IsValid : (a v : ℕ) → a < 2 ^ 64 → v < 2 ^ 64 → IsValid l (write_double a v m)
  unfolding write_double
  write_double-IsValid a v p q =
      let fault = raise_trap-IsValid h store_access_fault m.program_counter a h.program_counter p in
      let stored = with_ram h _ (write_double-RamFits (ram_fits h) (a - m.ram_base) v) in
      ground (arith, fault, stored, set_mtimecmp h v q)
