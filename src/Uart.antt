-- ===== src/Uart.antt =====
-- src/Core/UART.cpp: the serial port. `io` says whether an output device is attached.
pub mod Registers
use rv64i_simulator.Base.{
  ℕ, ◌+◌, Bool, ◌&&◌, Option, none, some, ltb, leb, ◌==◌, if◌then◌else◌, sub64, u64, any_set,
  update,
}

pub record Uart : Type 0 where
  pub io : Bool
  pub base_address : ℕ
  pub registers : ℕ → ℕ

-- The constructor: all registers 0 but the line status, whose two transmitter bits say "empty".
unfoldable pub create : Bool → ℕ → Uart
create io base_addr = record {
  io = io;
  base_address = base_addr;
  registers = update (λ i. 0) 5 0x60;
}

unfoldable pub contains : Uart → ℕ → Bool
contains u address = leb u.base_address address && ltb address (u64 (u.base_address + 8))

unfoldable pub read_byte : Uart → ℕ → ℕ
read_byte u address =
    let offset = sub64 address u.base_address in if ltb offset 8 then u.registers offset else 0

-- The new state, and the character that goes to the output device.
unfoldable pub write_byte : Uart → ℕ → ℕ → Uart × Option ℕ
write_byte u address value =
    let offset = sub64 address u.base_address in
    if offset == 0
    then (if any_set (u.registers 3) 0x80
        then (u, none)
        else (u, if u.io then some value else none))
    else if ltb offset 8
    then (if offset == 5
        then (u, none)
        else (record u { registers = update u.registers offset value }, none))
    else (u, none)
