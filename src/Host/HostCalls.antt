-- ===== src/Host/HostCalls.antt =====
-- Host/WindowsEnvironment.cpp: the system calls of a program that runs without an operating system.
-- `get_line` is what `std::getline` reads when the machine makes the call, and `debug` says that debug output is on. `main` sets `io`, so it is not null. The host's
-- debugger is left out.
use rv64i_simulator.Base.{
  ℕ, zero, suc, ◌+◌, Bool, List, [], ◌∷◌, ltb, ◌==◌, if◌then◌else◌, u32, u64, sx32,
}
use rv64i_simulator.Machine.{Machine, text, char, int, exited, print, write_reg}
use rv64i_simulator.Bus.Read.{read_byte}
use rv64i_simulator.Bus.Write.{write_byte}
use rv64i_simulator.Instr.System.{Environment}
use rv64i_simulator.Output.Digits.{length}

-- The loop of `SYS_WRITE`, with `n` characters to go.
unfoldable pub write_chars : ℕ → ℕ → Machine → Machine
write_chars zero address m = m
write_chars (suc n) address m =
    let (c, m1) = read_byte address m in write_chars n (u64 (address + 1)) (print (char c) m1)

-- The loop of `SYS_READ`, with at most `n` characters to go.
unfoldable pub read_chars : ℕ → List ℕ → ℕ → Machine → Machine
read_chars zero input address m = m
read_chars (suc n) [] address m = m
read_chars (suc n) (c ∷ input) address m =
    read_chars n input (u64 (address + 1)) (write_byte address c m)

unfoldable pub sys_write : Machine → Machine
sys_write m = let arg2 = m.registers 12 in write_reg 10 arg2 (write_chars arg2 (m.registers 11) m)

unfoldable pub sys_read : List ℕ → Machine → Machine
sys_read input m =
    let arg2 = m.registers 12 in
    let bytes_to_copy = if ltb arg2 (length input) then arg2 else length input in
    write_reg 10 (u64 bytes_to_copy) (read_chars bytes_to_copy input (m.registers 11) m)

unfoldable pub sys_brk : Machine → Machine
sys_brk m = let arg0 = m.registers 10 in write_reg 10 (if arg0 == 0 then 0x400000 else arg0) m

-- `std::exit` ends the process: the last thing on record is `exited`, after which nothing that the model
-- computes is seen, and `Host.Main.run_process` makes no further step. `static_cast<int>(arg0)`, which `writeInt` then takes as a `uint64_t`.
unfoldable pub sys_exit : Machine → Machine
sys_exit m =
    let exit_code = u32 (m.registers 10) in
    print (exited exit_code) (
      print (text "\n")
        (print (int (sx32 exit_code)) (print (text "\n[OS] Program exited with code: ") m)))

unfoldable pub handle_ecall : (Machine → List ℕ) → Machine → Machine
handle_ecall get_line m =
    let syscall_num = m.registers 17 in
    if syscall_num == 64
    then sys_write m
    else if syscall_num == 63
    then sys_read (get_line m) m
    else if syscall_num == 214
    then sys_brk m
    else if syscall_num == 93
    then sys_exit m
    else print (text "\n") (print (int syscall_num) (print (text "[WARNING] Unhandled ECALL: ") m))

unfoldable pub handle_ebreak : Bool → Machine → Machine
handle_ebreak debug m =
    if debug
    then print (text "\n")
        (print (int m.program_counter) (print (text "[EBREAK] Breakpoint hit at PC: ") m))
    else m

abbrev pub host_environment : (Machine → List ℕ) → Bool → Environment
host_environment get_line debug = record {
  handle_ecall = handle_ecall get_line;
  handle_ebreak = handle_ebreak debug;
}
