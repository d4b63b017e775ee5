-- ===== src/Uart/Registers.antt =====
-- The UART's registers: what a write leaves to be read.
use rv64i_simulator.Base.{ℕ, ◌+◌, ◌^◌, ◌<◌, ◌≡◌, ◌&&◌, not, ◌==◌, if◌then◌else◌, arith}
use rv64i_simulator.Uart.{Uart, read_byte, write_byte}

-- After a write to UART register i, register j reads as the value written if j is i and neither 0
-- nor 5, and as before otherwise, so the line status is never changed, for a base that does not
-- wrap.
pub read_byte-write_byte :
    (u : Uart) (i j value : ℕ)
    → u.base_address + 7 < 2 ^ 64
    → i < 8
    → j < 8
    → read_byte (write_byte u (u.base_address + i) value).0 (u.base_address + j)
      ≡ (if j == i && not (i == 0) && not (i == 5) then value else u.registers j)
unfolding read_byte write_byte
read_byte-write_byte u i j value h k l = ground arith
