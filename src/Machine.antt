-- ===== src/Machine.antt =====
-- include/core/Processor.h, Bus.h and Constants.h: the state that the processor, the bus and the
-- devices share. A register is a `uint64_t`. An array is a function from its index. What is
-- printed is kept as a list, the latest first. Fields that no code reads are left out.
use Prim.Native.String.{String}
use rv64i_simulator.Base.{ℕ, Bool, false, Option, List, [], ◌∷◌, ◌==◌, if◌then◌else◌, u8, update}
use rv64i_simulator.Base.{◌<◌, ◌≡◌, arith}
use rv64i_simulator.Memory.{Memory}
use rv64i_simulator.Uart.{Uart}

pub data Printed : Type 0 where
  char : ℕ → Printed
  text : String → Printed
  int : ℕ → Printed
  exited : ℕ → Printed

pub data AccessType : Type 0 where
  load store fetch : AccessType

-- `enum class PrivilegeMode : uint8_t`: a number, since a cast can give it the value 2 as well.
abbrev pub user_mode : ℕ
user_mode = 0

abbrev pub supervisor_mode : ℕ
supervisor_mode = 1

abbrev pub machine_mode : ℕ
machine_mode = 3

pub record Csrs : Type 0 where
  pub mstatus : ℕ
  pub medeleg : ℕ
  pub mideleg : ℕ
  pub mie : ℕ
  pub mtvec : ℕ
  pub mscratch : ℕ
  pub mepc : ℕ
  pub mcause : ℕ
  pub mtval : ℕ
  pub mip : ℕ
  pub mcounteren : ℕ
  pub scounteren : ℕ
  pub menvcfg : ℕ
  pub senvcfg : ℕ
  pub fcsr : ℕ
  pub stvec : ℕ
  pub sscratch : ℕ
  pub sepc : ℕ
  pub scause : ℕ
  pub stval : ℕ
  pub satp : ℕ
  pub pmpcfg : ℕ → ℕ
  pub pmpaddr : ℕ → ℕ

pub record Machine : Type 0 where
  pub registers : ℕ → ℕ
  pub f_registers : ℕ → ℕ
  pub program_counter : ℕ
  pub step_count : ℕ
  pub load_reservation : ℕ
  pub reservation_valid : Bool
  pub trap : Bool
  pub trap_pending : Bool
  pub mode : ℕ
  pub mtime : ℕ
  pub mtimecmp : ℕ
  pub msip : ℕ
  pub misa : ℕ
  pub csrs : Csrs
  pub ram : Memory
  pub ram_base : ℕ
  pub uart : Option Uart
  pub printed : List Printed

abbrev pub print : Printed → Machine → Machine
print p m = record m { printed = p ∷ m.printed }

-- `Processor::write_reg`: its register number is a `uint8_t`, and register 0 is never written.
unfoldable pub write_reg : ℕ → ℕ → Machine → Machine
write_reg rd value m =
    if u8 rd == 0 then m else record m { registers = update m.registers (u8 rd) value }

pub write_reg-written :
    (rd value : ℕ) (m : Machine) → 0 < rd → rd < 32 → (write_reg rd value m).registers rd ≡ value
unfolding write_reg
write_reg-written rd value m h k = ground arith

abbrev pub zero_csrs : Csrs
zero_csrs = record {
  mstatus = 0;
  medeleg = 0;
  mideleg = 0;
  mie = 0;
  mtvec = 0;
  mscratch = 0;
  mepc = 0;
  mcause = 0;
  mtval = 0;
  mip = 0;
  mcounteren = 0;
  scounteren = 0;
  menvcfg = 0;
  senvcfg = 0;
  fcsr = 0;
  stvec = 0;
  sscratch = 0;
  sepc = 0;
  scause = 0;
  stval = 0;
  satp = 0;
  pmpcfg = λ i. 0;
  pmpaddr = λ i. 0;
}

-- The member initialisers and `Processor::initialize`. `write_reg(0, 0)` writes nothing, so that
-- register 0 keeps what the storage held, `x0`; every other register is 0.
unfoldable pub power_on : ℕ → Memory → ℕ → Option Uart → Machine
power_on x0 ram ram_base uart = record {
  registers = λ i. if i == 0 then x0 else 0;
  f_registers = λ i. 0;
  program_counter = 0;
  step_count = 0;
  load_reservation = 0;
  reservation_valid = false;
  trap = false;
  trap_pending = false;
  mode = machine_mode;
  mtime = 0;
  mtimecmp = 0xffff_ffff_ffff_ffff;
  msip = 0;
  misa = 0x8000_0000_0014_112d;
  csrs = zero_csrs;
  ram = ram;
  ram_base = ram_base;
  uart = uart;
  printed = [];
}

-- `Processor::reset`: 31 registers and the program counter are cleared, nothing else.
unfoldable pub reset : Machine → Machine
reset m = record m {
  registers = λ i. if i == 0 then m.registers 0 else 0;
  program_counter = 0;
  trap = false;
}
