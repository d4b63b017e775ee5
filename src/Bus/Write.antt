-- ===== src/Bus/Write.antt =====
-- `Bus::writeByte`, `writeHalf`, `writeWord`, `writeDouble`. A write that reaches neither a device nor
-- RAM is dropped.
use rv64i_simulator.Base.{
  ℕ, ◌+◌, ◌-◌, ◌&&◌, not, Option, none, some, leb, ltb, ◌==◌, if◌then◌else◌, bit_and, bit_or, ◌<<<◌,
  not64, u64,
}
use rv64i_simulator.Trap.{store_access_fault}
use rv64i_simulator.Memory
use rv64i_simulator.Uart
use rv64i_simulator.Uart.{Uart}
use rv64i_simulator.Machine.{Machine, store, char, print}
use rv64i_simulator.Cpu.Raise.{raise_trap}
use rv64i_simulator.Cpu.Pmp.{check_pmp}
use rv64i_simulator.Cpu.Csr.{read_csr, write_csr}
use rv64i_simulator.Bus.Read.{in_uart, in_ram}

abbrev store_fault : ℕ → Machine → Machine
store_fault address m = raise_trap store_access_fault m.program_counter address m

-- The UART after a write, with the character that it sends to the output device.
abbrev pub uart_write : Option Uart → ℕ → ℕ → Machine → Machine
uart_write none address value m = m
uart_write (some u) address value m =
    let (u', sent) = Uart.write_byte u address value in
    let m' = record m { uart = some u' } in elim sent [ none ↦ m' | some c ↦ print (char c) m' ]

unfoldable pub write_byte : ℕ → ℕ → Machine → Machine
write_byte address value m =
    if not (check_pmp address store m)
    then store_fault address m
    else if in_uart m.uart address
    then uart_write m.uart address value m
    else if leb m.ram_base address && ltb address (u64 (m.ram_base + Memory.get_size m.ram))
    then record m { ram = Memory.write_byte m.ram (address - m.ram_base) value }
    else m

unfoldable pub write_half : ℕ → ℕ → Machine → Machine
write_half address value m =
    if not (check_pmp address store m)
    then store_fault address m
    else if in_ram address 1 m
    then record m { ram = Memory.write_half m.ram (address - m.ram_base) value }
    else m

-- The CLINT's software interrupt register, mirrored in bit 3 of `mip`.
unfoldable pub write_msip : ℕ → Machine → Machine
write_msip value m =
    let m1 = record m { msip = bit_and value 1 } in
    let (current_mip, m2) = read_csr 0x344 m1 in
    write_csr 0x344
      (if m2.msip == 0 then bit_and current_mip (not64 (1 <<< 3)) else bit_or current_mip (1 <<< 3))
      m2

unfoldable pub write_word : ℕ → ℕ → Machine → Machine
write_word address value m =
    if not (check_pmp address store m)
    then store_fault address m
    else if address == 0x0200_0000
    then write_msip value m
    else if address == 0x0200_4000
    then record m { mtimecmp = bit_or (bit_and m.mtimecmp 0xffff_ffff_0000_0000) value }
    else if address == 0x0200_4004
    then record m { mtimecmp = bit_or (bit_and m.mtimecmp 0xffff_ffff) (value <<< 32) }
    else if in_ram address 3 m
    then record m { ram = Memory.write_word m.ram (address - m.ram_base) value }
    else m

unfoldable pub write_double : ℕ → ℕ → Machine → Machine
write_double address value m =
    if not (check_pmp address store m)
    then store_fault address m
    else if address == 0x0200_4000
    then record m { mtimecmp = value }
    else if in_ram address 7 m
    then record m { ram = Memory.write_double m.ram (address - m.ram_base) value }
    else m
