-- ===== src/Bus/Read.antt =====
-- `Bus::readByte`, `readHalf`, `readWord`, `readDouble`: the value, and the machine after the trap that
-- a refused read raises.
use rv64i_simulator.Base.{
  ℕ, ◌+◌, ◌-◌, Bool, false, ◌&&◌, not, Option, none, some, leb, ltb, ◌==◌, if◌then◌else◌, bit_and,
  ◌>>>◌, u32, u64,
}
use rv64i_simulator.Trap.{load_access_fault}
use rv64i_simulator.Memory
use rv64i_simulator.Uart
use rv64i_simulator.Uart.{Uart}
use rv64i_simulator.Machine.{Machine, load}
use rv64i_simulator.Cpu.Raise.{raise_trap}
use rv64i_simulator.Cpu.Pmp.{check_pmp}

-- `uart && uart->contains(address)`.
abbrev pub in_uart : Option Uart → ℕ → Bool
in_uart none address = false
in_uart (some u) address = Uart.contains u address

abbrev pub uart_byte : Option Uart → ℕ → ℕ
uart_byte none address = 0
uart_byte (some u) address = Uart.read_byte u address

-- `address >= ram_base && address + extra <= ram_base + ram.getSize()`, on 64 bits.
abbrev pub in_ram : ℕ → ℕ → Machine → Bool
in_ram address extra m =
    leb m.ram_base address && leb (u64 (address + extra)) (u64 (m.ram_base + Memory.get_size m.ram))

-- `raiseTrap(LOAD_ACCESS_FAULT, program_counter, address); return 0;`
abbrev pub load_fault : ℕ → Machine → ℕ × Machine
load_fault address m = (0, raise_trap load_access_fault m.program_counter address m)

unfoldable pub read_byte : ℕ → Machine → ℕ × Machine
read_byte address m =
    if not (check_pmp address load m)
    then load_fault address m
    else if in_uart m.uart address
    then (uart_byte m.uart address, m)
    else if leb m.ram_base address && ltb address (u64 (m.ram_base + Memory.get_size m.ram))
    then (Memory.read_byte m.ram (address - m.ram_base), m)
    else load_fault address m

unfoldable pub read_half : ℕ → Machine → ℕ × Machine
read_half address m =
    if not (check_pmp address load m)
    then load_fault address m
    else if in_ram address 1 m
    then (Memory.read_half m.ram (address - m.ram_base), m)
    else load_fault address m

unfoldable pub read_word : ℕ → Machine → ℕ × Machine
read_word address m =
    if not (check_pmp address load m)
    then load_fault address m
    else if address == 0x0200_0000
    then (m.msip, m)
    else if address == 0x0200_bff8
    then (bit_and m.mtime 0xffff_ffff, m)
    else if address == 0x0200_bffc
    then (u32 (m.mtime >>> 32), m)
    else if address == 0x0200_4000
    then (bit_and m.mtimecmp 0xffff_ffff, m)
    else if address == 0x0200_4004
    then (u32 (m.mtimecmp >>> 32), m)
    else if in_ram address 3 m
    then (Memory.read_word m.ram (address - m.ram_base), m)
    else load_fault address m

unfoldable pub read_double : ℕ → Machine → ℕ × Machine
read_double address m =
    if not (check_pmp address load m)
    then load_fault address m
    else if address == 0x0200_bff8
    then (m.mtime, m)
    else if address == 0x0200_4000
    then (m.mtimecmp, m)
    else if in_ram address 7 m
    then (Memory.read_double m.ram (address - m.ram_base), m)
    else load_fault address m
