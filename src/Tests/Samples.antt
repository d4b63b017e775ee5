-- ===== src/Tests/Samples.antt =====
-- Machines and instructions that the tests share.
use native.Mathlib.Nat.{zero-div}
use rv64i_simulator.Cpu.Pmp.{entry_cfg}
use rv64i_simulator.Base.{ℕ, ◌≡◌, ◌%◌, ◌*◌, ◌^◌, refl, false, [], none, ◌==◌, if◌then◌else◌}
use rv64i_simulator.Memory.{Memory}
use rv64i_simulator.Machine.{Machine, zero_csrs}
use rv64i_simulator.Decode.{DecodedInstruction}

-- 4 KiB of zeros.
abbrev pub blank : Memory
blank = record { size = 0x1000; cells = λ i. 0 }

-- Machine mode, at the start of RAM, with x1 = -7 and x2 = 3.
abbrev pub sample : Machine
sample = record {
  registers = λ i. if i == 1 then 0xffff_ffff_ffff_fff9 else if i == 2 then 3 else 0;
  f_registers = λ i. 0;
  program_counter = 0x8000_0000;
  step_count = 0;
  load_reservation = 0;
  reservation_valid = false;
  trap = false;
  trap_pending = false;
  mode = 3;
  mtime = 0;
  mtimecmp = 0xffff_ffff_ffff_ffff;
  msip = 0;
  misa = 0x8000_0000_0014_112d;
  csrs = record zero_csrs { mtvec = 0x8000_0100; mstatus = 0x8 };
  ram = blank;
  ram_base = 0x8000_0000;
  uart = none;
  printed = [];
}

-- The instruction with rd = x3, rs1 = x1 and rs2 = x2.
abbrev pub on_x1_x2 : DecodedInstruction
on_x1_x2 = record {
  opcode = 0x33;
  rd = 3;
  rs1 = 1;
  rs2 = 2;
  funct3 = 0;
  funct7 = 0;
  imm = 0;
  pc = 0x8000_0000;
  length = 4;
}

-- Supervisor mode with one gigapage at 0x8000_0000 and a PMP entry that covers everything.
abbrev pub paged : Machine
paged = record sample {
  mode = 1;
  csrs = record zero_csrs {
    satp = 0x8000_0000_0008_0000;
    pmpcfg = λ i. if i == 0 then 0x1f else 0;
    pmpaddr = λ i. if i == 0 then 0xffff_ffff_ffff_ffff else 0;
  };
  ram = record {
    size = 0x1000;
    cells = λ i. if i == 16 then 0x0f else if i == 19 then 0x20 else 0;
  };
}

-- No protection entry of the sample is set.
pub no_entry : (j : ℕ) → entry_cfg sample.csrs j ≡ 0
unfolding entry_cfg
no_entry j = rw (zero-div (2 ^ (j % 8 * 8))) refl
