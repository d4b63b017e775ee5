-- ===== src/Tests/Devices.antt =====
-- The theorems on the decoder, the bus, the UART and reservations, applied at concrete inputs.
use rv64i_simulator.Base.{
  sx16, sx32, ◌+◌, ◌*◌, ◌≡◌, refl, true, not, ◌&&◌, ◌==◌, if◌then◌else◌, u16, u32, arith,
}
use rv64i_simulator.Uart.{Uart, create, read_byte, write_byte}
use rv64i_simulator.Uart.Registers.{read_byte-write_byte}
use rv64i_simulator.Machine.{Machine, write_reg}
use rv64i_simulator.Decode.{decode, immediate, get_format, decode_i, decode_s, decode_b}
use rv64i_simulator.Decode.Fields.{word_of, decode-word_of}
use rv64i_simulator.Decode.Immediates.{signed, format_i, format_s, format_b, short_immediates}
use rv64i_simulator.Bus.Read.{read_word}
use rv64i_simulator.Bus.Ram.{InRam, Unprotected}
use rv64i_simulator.Instr.Atomics.{exec_lr_w, exec_sc_w}
use rv64i_simulator.Instr.Atomics.Reservation.{exec_sc_w-exec_lr_w}
use rv64i_simulator.Memory
use rv64i_simulator.Base.Int.{int32, int64}
use rv64i_simulator.Invariant.Ram.{RamFits}
use rv64i_simulator.Instr.Atomics.Operations.{
  Operation, handler_w, handler_d, result, operation-result,
}
use rv64i_simulator.Instr.Access.{
  exec_lh, exec_lw, exec_ld, exec_lhu, exec_lwu, exec_sb, exec_sh, exec_sw, exec_sd,
}
use rv64i_simulator.Instr.Access.Denied.{Faulted, exec_sb-Faulted}
use rv64i_simulator.Instr.Access.RoundTrip.{load-store}
use rv64i_simulator.Tests.Samples.{sample, on_x1_x2, no_entry}

-- addi x5, x6, -3.
decode-word_of_example :
    let raw = word_of 0x13 5 0 6 29 127 in
    let inst = decode raw 0x8000_0000 4 in
    (inst.opcode ≡ 0x13)
    × (inst.rd ≡ 5)
    × (inst.funct3 ≡ 0)
    × (inst.rs1 ≡ 6)
    × (inst.rs2 ≡ 29)
    × (inst.funct7 ≡ 127)
    × (inst.imm ≡ immediate (get_format 0x13) raw)
    × (inst.pc ≡ 0x8000_0000)
    × (inst.length ≡ 4)
decode-word_of_example =
    decode-word_of 0x13 5 0 6 29 127 0x8000_0000 4 (omega arith) (omega arith) (omega arith)
      (omega arith) (omega arith) (omega arith)

short_immediates_example :
    (decode_i (format_i 0xffd 0x13) ≡ signed 12 0xffd)
    × (decode_s (format_s 0xffd 0x62 0x13) ≡ signed 12 0xffd)
    × (decode_b (format_b (2 * 0xffd) 0x62 0x13) ≡ signed 13 (2 * 0xffd))
short_immediates_example =
    short_immediates 0xffd 0x62 0x13 (omega arith) (omega arith) (omega arith)

abbrev port : Uart
port = create true 0x1000_0000

read_byte-write_byte_example :
    read_byte (write_byte port (0x1000_0000 + 7) 0x5a).0 (0x1000_0000 + 7)
    ≡ (if 7 == 7 && not (7 == 0) && not (7 == 5) then 0x5a else 0)
unfolding create
read_byte-write_byte_example =
    read_byte-write_byte port 7 7 0x5a (omega arith) (omega arith) (omega arith)

-- x1 points into RAM, and x2 is to be stored.
abbrev pointing : Machine
pointing = record sample { registers = λ i. if i == 1 then 0x8000_0010 else 7 }

pointing-Unprotected : Unprotected pointing
pointing-Unprotected = record { mode = refl; unlocked = λ j. rw (no_entry j) refl }

pointing-InRam : InRam pointing 0x8000_0010
pointing-InRam = record {
  fits = omega arith;
  above = omega arith;
  from = omega arith;
  inside = omega arith;
}

abbrev in_user : Machine
in_user = record pointing { mode = 0 }

exec_sc_w-exec_lr_w_example :
    let s = exec_sc_w (record on_x1_x2 { rd = 4 }) (exec_lr_w on_x1_x2 pointing) in
    (s.registers 4 ≡ 0)
    × ((read_word 0x8000_0010 s).0 ≡ 7)
    × ((exec_sc_w (record on_x1_x2 { rd = 5 }) s).registers 5 ≡ 1)
exec_sc_w-exec_lr_w_example =
    exec_sc_w-exec_lr_w on_x1_x2 (record on_x1_x2 { rd = 4 }) (record on_x1_x2 { rd = 5 }) pointing
      pointing-InRam pointing-Unprotected (omega arith) (omega arith) (omega arith) (omega arith)
      (omega arith) (λ e. absurd (omega arith)) (λ e. absurd (omega arith)) refl

-- `sd x2, 0(x1)` and `ld x3, 0(x1)`, and the narrower ones.
load-store_example :
    let v = pointing.registers 2 in
    (exec_lh on_x1_x2 (exec_sh on_x1_x2 pointing)
      ≡ write_reg 3 (sx16 (u16 v)) (exec_sh on_x1_x2 pointing))
    × (exec_lhu on_x1_x2 (exec_sh on_x1_x2 pointing)
        ≡ write_reg 3 (u16 v) (exec_sh on_x1_x2 pointing))
    × (exec_lw on_x1_x2 (exec_sw on_x1_x2 pointing)
        ≡ write_reg 3 (sx32 (u32 v)) (exec_sw on_x1_x2 pointing))
    × (exec_lwu on_x1_x2 (exec_sw on_x1_x2 pointing)
        ≡ write_reg 3 (u32 v) (exec_sw on_x1_x2 pointing))
    × (exec_ld on_x1_x2 (exec_sd on_x1_x2 pointing) ≡ write_reg 3 v (exec_sd on_x1_x2 pointing))
load-store_example =
    load-store pointing 0x8000_0010 pointing-InRam pointing-Unprotected on_x1_x2 (omega arith) refl
      on_x1_x2 refl (omega arith)

pointing-RamFits : RamFits 0x1000 pointing.ram
pointing-RamFits = record { cells = λ i. omega arith; size = refl }

-- `amomin.w x3, x2, (x1)` and `amomin.d x3, x2, (x1)`.
operation-result_example :
    (handler_w Operation.min on_x1_x2 pointing
      ≡ write_reg 3 (sx32 (Memory.read_word pointing.ram 0x10)) (record pointing {
        ram =
            Memory.write_word pointing.ram 0x10
              (result 32 int32 Operation.min (Memory.read_word pointing.ram 0x10) 7);
      }))
    × (handler_d Operation.min on_x1_x2 pointing
        ≡ write_reg 3 (Memory.read_double pointing.ram 0x10) (record pointing {
          ram =
              Memory.write_double pointing.ram 0x10
                (result 64 int64 Operation.min (Memory.read_double pointing.ram 0x10) 7);
        }))
operation-result_example =
    operation-result pointing on_x1_x2 pointing-InRam pointing-Unprotected pointing-RamFits
      (omega arith) Operation.min

-- `sd x2, 0(x1)` in user mode.
exec_sb-Faulted_example :
    Faulted in_user 0x8000_0010 (exec_sb on_x1_x2 in_user)
    × Faulted in_user 0x8000_0010 (exec_sh on_x1_x2 in_user)
    × Faulted in_user 0x8000_0010 (exec_sw on_x1_x2 in_user)
    × Faulted in_user 0x8000_0010 (exec_sd on_x1_x2 in_user)
exec_sb-Faulted_example =
    exec_sb-Faulted in_user on_x1_x2 (omega arith) (λ j h. rw (no_entry j) refl) refl (omega arith)
