-- ===== src/Invariant.antt =====
-- The invariant of the machine: every field is a value of its C++ type, and what the program sets up
-- once keeps its value: the RAM's size and base, and `trap`, which no code of the processor sets.
pub mod CsrFile
pub mod Trap
pub mod Ram
pub mod Bus
pub mod Registers
pub mod Accesses
pub mod Control
pub mod Call
pub mod Words
pub mod Walk
pub mod Step
pub mod Run
use rv64i_simulator.Base.{ℕ, ◌+◌, ◌^◌, ◌≤◌, ◌<◌, ◌≡◌, arith, Bool, false, Option, none, some}
use rv64i_simulator.Memory.{Memory}
use rv64i_simulator.Uart.{Uart}
use rv64i_simulator.Machine.{Csrs, Machine, Printed, print}
use rv64i_simulator.Decode.{DecodedInstruction}

-- The control registers are 64-bit words.
pub record CsrsFit (c : Csrs) : Type 0 where
  pub mstatus : c.mstatus < 2 ^ 64
  pub medeleg : c.medeleg < 2 ^ 64
  pub mideleg : c.mideleg < 2 ^ 64
  pub mie : c.mie < 2 ^ 64
  pub mtvec : c.mtvec < 2 ^ 64
  pub mscratch : c.mscratch < 2 ^ 64
  pub mepc : c.mepc < 2 ^ 64
  pub mcause : c.mcause < 2 ^ 64
  pub mtval : c.mtval < 2 ^ 64
  pub mip : c.mip < 2 ^ 64
  pub mcounteren : c.mcounteren < 2 ^ 64
  pub scounteren : c.scounteren < 2 ^ 64
  pub menvcfg : c.menvcfg < 2 ^ 64
  pub senvcfg : c.senvcfg < 2 ^ 64
  pub fcsr : c.fcsr < 2 ^ 64
  pub stvec : c.stvec < 2 ^ 64
  pub sscratch : c.sscratch < 2 ^ 64
  pub sepc : c.sepc < 2 ^ 64
  pub scause : c.scause < 2 ^ 64
  pub stval : c.stval < 2 ^ 64
  pub satp : c.satp < 2 ^ 64
  pub pmpcfg : (i : ℕ) → c.pmpcfg i < 2 ^ 64
  pub pmpaddr : (i : ℕ) → c.pmpaddr i < 2 ^ 64

-- The UART's registers are bytes.
abbrev pub UartFits : Option Uart → Type 0
UartFits none = Unit
UartFits (some u) = (i : ℕ) → u.registers i < 2 ^ 8

-- Where RAM is and how large.
pub record Layout : Type 0 where
  pub ram_size : ℕ
  pub ram_base : ℕ

pub record IsValid (l : Layout) (m : Machine) : Type 0 where
  pub registers : (i : ℕ) → m.registers i < 2 ^ 64
  pub f_registers : (i : ℕ) → m.f_registers i < 2 ^ 64
  pub program_counter : m.program_counter < 2 ^ 64
  pub step_count : m.step_count < 2 ^ 64
  pub load_reservation : m.load_reservation < 2 ^ 64
  pub trap : m.trap ≡ false
  pub mode : m.mode ≤ 3
  pub mtime : m.mtime < 2 ^ 64
  pub mtimecmp : m.mtimecmp < 2 ^ 64
  pub msip : m.msip < 2 ^ 32
  pub misa : m.misa < 2 ^ 64
  pub csrs : CsrsFit m.csrs
  pub cells : (i : ℕ) → m.ram.cells i < 2 ^ 8
  pub size : m.ram.size ≡ l.ram_size
  pub base : m.ram_base ≡ l.ram_base
  pub uart : UartFits m.uart

-- The fields of an instruction that a handler writes to the machine.
pub record InstFits (inst : DecodedInstruction) : Type 0 where
  pub imm : inst.imm < 2 ^ 32
  pub rs1 : inst.rs1 < 2 ^ 5
  pub pc : inst.pc < 2 ^ 64

-- The same record of facts with one of them for a new value.
module _ {l : Layout} {m : Machine} (h : IsValid l m) where
  pub set_program_counter : (v : ℕ) → v < 2 ^ 64 → IsValid l (record m { program_counter = v })
  set_program_counter v p = grind arith

  pub set_csrs : (c : Csrs) → CsrsFit c → IsValid l (record m { csrs = c })
  set_csrs c p = ground arith

  pub set_mode : (v : ℕ) → v ≤ 3 → IsValid l (record m { mode = v })
  set_mode v p = ground arith

  pub set_trap_pending : (b : Bool) → IsValid l (record m { trap_pending = b })
  set_trap_pending b = ground arith

  pub set_ram :
      (r : Memory)
      → ((i : ℕ) → r.cells i < 2 ^ 8)
      → r.size ≡ l.ram_size
      → IsValid l (record m { ram = r })
  set_ram r p q = ground arith

  pub set_uart :
      (u : Uart) → ((i : ℕ) → u.registers i < 2 ^ 8) → IsValid l (record m { uart = some u })
  set_uart u p = ground arith

  pub set_msip : (v : ℕ) → v < 2 ^ 32 → IsValid l (record m { msip = v })
  set_msip v p = ground arith

  pub set_mtimecmp : (v : ℕ) → v < 2 ^ 64 → IsValid l (record m { mtimecmp = v })
  set_mtimecmp v p = ground arith

  pub set_printed : (p : Printed) → IsValid l (print p m)
  set_printed p = ground arith

  pub set_reservation :
      (a : ℕ) (b : Bool)
      → a < 2 ^ 64
      → IsValid l (record m { load_reservation = a; reservation_valid = b })
  set_reservation a b p = ground arith

  pub set_reservation_valid : (b : Bool) → IsValid l (record m { reservation_valid = b })
  set_reservation_valid b = ground arith

  pub set_step_count : (v : ℕ) → v < 2 ^ 64 → IsValid l (record m { step_count = v })
  set_step_count v p = ground arith

  pub set_mtime : (v : ℕ) → v < 2 ^ 64 → IsValid l (record m { mtime = v })
  set_mtime v p = ground arith

  pub set_misa : (v : ℕ) → v < 2 ^ 64 → IsValid l (record m { misa = v })
  set_misa v p = ground arith
