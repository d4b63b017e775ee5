-- ===== src/Tests/Steps.antt =====
-- The theorems on whole steps, on compressed instructions and on a started program, applied at concrete inputs.
use rv64i_simulator.Base.{
  ap, ℕ, zero, suc, ◌+◌, ◌*◌, ◌^◌, ◌≤◌, ◌<◌, ◌≡◌, refl, true, false, some, none, List, [], ◌∷◌,
  arith, u32, u64, sx32, update, any_set, ◌==◌, if◌then◌else◌,
}
use rv64i_simulator.Base.Int.{pos}
use rv64i_simulator.Memory
use rv64i_simulator.Machine.{write_reg, Machine}
use rv64i_simulator.Registry.Default.{init_table}
use rv64i_simulator.Decode.Immediates.{signed}
use rv64i_simulator.Compressed.{decompress}
use rv64i_simulator.Compressed.Forms.{Rvc, encode, expansion}
use rv64i_simulator.Compressed.Expand.{decompress-expansion}
use rv64i_simulator.Step.{step, execute}
use rv64i_simulator.Step.Fetch.{IsReady, ticked, instruction, step-execute}
use rv64i_simulator.Step.Addi.{step-addi}
use rv64i_simulator.Tree.{Libfdt}
use rv64i_simulator.Output.{codes}
use rv64i_simulator.Output.Digits.{length}
use rv64i_simulator.Host.CommandLine.{Cli, initial}
use rv64i_simulator.Host.Main.{memory_kb, start}
use rv64i_simulator.Host.HostCalls.{handle_ecall}
use rv64i_simulator.Host.Loader.{print_codes}
use rv64i_simulator.Host.Echo.{first_of, after_read, to_write, sys_write-sys_read}
use rv64i_simulator.Host.Payload.{HasRoom, byte_at, start-payload}
use rv64i_simulator.Host.FirstStep.{start-step}
use rv64i_simulator.Tests.Samples.{sample, no_entry}

-- The sample machine with `addi x3, x1, -5` at its program counter.
abbrev program_cells : ℕ → ℕ
program_cells i =
    if i == 0
    then 0x93
    else if i == 1
    then 0x81
    else if i == 2
    then 0xb0
    else if i == 3
    then 0xff
    else 0

abbrev programmed : Machine
programmed = record sample { ram = record { size = 0x1000; cells = program_cells } }

programmed-IsReady : IsReady programmed
programmed-IsReady = record {
  first = record {
    fits = omega arith;
    above = omega arith;
    from = omega arith;
    inside = omega arith;
  };
  second = record {
    fits = omega arith;
    above = omega arith;
    from = omega arith;
    inside = omega arith;
  };
  access = record { mode = refl; unlocked = λ j. ap (λ c. any_set c 0x80) (no_entry j) };
}

program_cells-lt : (i : ℕ) → program_cells i < 2 ^ 8
program_cells-lt i = ground arith

-- x3 = -7 - 5.
step-addi_example : step none init_table programmed ≡ (
  true,
  record programmed {
    registers =
        update programmed.registers 3 (u64 (programmed.registers 1 + sx32 (signed 12 0xffb)));
    program_counter = programmed.program_counter + 4;
    mtime = u64 (programmed.mtime + 1);
    step_count = u64 (programmed.step_count + 1);
    trap_pending = false;
  },
)
unfolding Memory.read_word
step-addi_example =
    step-addi programmed none 3 1 0xffb programmed-IsReady program_cells-lt (omega arith)
      (omega arith) (omega arith) refl

step-execute_example : step none init_table programmed ≡ (
  true,
  execute none init_table 0x8000_0000
      (instruction programmed programmed-IsReady).0
      (instruction programmed programmed-IsReady).1
      (ticked programmed),
)
step-execute_example = step-execute programmed programmed-IsReady none init_table

-- `c.lw x9, 8(x10)` is `lw x9, 8(x10)`.
decompress-expansion_example : decompress (encode (Rvc.lw 1 2 2)) ≡ expansion (Rvc.lw 1 2 2)
decompress-expansion_example =
    decompress-expansion (Rvc.lw 1 2 2) (omega arith, omega arith, omega arith)

-- A file with `addi x5, x2, 16` and nothing else.
abbrev payload : List ℕ
payload = 0x93 ∷ 0x02 ∷ 0x01 ∷ 0x01 ∷ []

abbrev no_tree : Libfdt
no_tree calls = (λ i. 0, pos 16)

abbrev default_config : Cli
default_config = record initial { filename = some "kernel.bin"; valid = true }

payload-lt : (i : ℕ) → byte_at payload i < 2 ^ 8
unfolding byte_at
payload-lt zero = omega arith
payload-lt (suc zero) = omega arith
payload-lt (suc (suc zero)) = omega arith
payload-lt (suc (suc (suc zero))) = omega arith
payload-lt (suc (suc (suc (suc i)))) = omega arith

start-step_example :
    (m : Machine) × (start no_tree
        (λ name. some payload)
        (codes "rv64i")
        default_config
        (codes "kernel.bin")
        0
        (λ i. 0)
      ≡ some m)
    × (step none init_table m ≡ (
      true,
      record m {
        registers = update m.registers 5 (u64 (m.registers 2 + sx32 (signed 12 16)));
        program_counter = 0x8000_0000 + 4;
        mtime = 1;
        step_count = 1;
      },
    ))
unfolding byte_at memory_kb
start-step_example =
    start-step no_tree (λ name. some payload) (codes "rv64i") (codes "kernel.bin") payload
      default_config 0 (λ i. 0) refl refl (omega arith) (omega arith) payload-lt (λ i. omega arith)
      none 5 2 16 (omega arith) (omega arith) (omega arith) refl

start-payload_example :
    (m : Machine) × (start no_tree
        (λ name. some payload)
        (codes "rv64i")
        default_config
        (codes "kernel.bin")
        0
        (λ i. 0)
      ≡ some m)
    × (m.program_counter ≡ 0x8000_0000)
    × (m.ram_base ≡ 0x8000_0000)
    × (m.registers 2 ≡ u32 (memory_kb default_config * 1024))
    × ((i : ℕ) → i < length payload → m.ram.cells i ≡ byte_at payload i)
    × ((i : ℕ) → length payload ≤ i → i < u32 (memory_kb default_config * 1024) → m.ram.cells i ≡ 0)
unfolding memory_kb
start-payload_example =
    start-payload no_tree (λ name. some payload) (codes "rv64i") (codes "kernel.bin") payload
      default_config 0 (λ i. 0) refl refl (omega arith) (omega arith)

-- The sample machine asks for a line of at most 16 characters at the start of RAM.
abbrev asking : Machine
asking = record sample {
  registers =
      λ i. if i == 17 then 63 else if i == 11 then 0x8000_0000 else if i == 12 then 16 else 0;
}

abbrev hello : Machine → List ℕ
hello m = codes "hello"

asking-HasRoom : HasRoom asking 0x8000_0000 16
asking-HasRoom = record {
  access = record { mode = refl; unlocked = λ j. ap (λ c. any_set c 0x80) (no_entry j) };
  from = omega arith;
  inside = omega arith;
  fits = omega arith;
  no_uart = λ a h. refl;
}

sys_write-sys_read_example :
    ((after_read hello asking refl asking-HasRoom).registers 10 ≡ 5)
    × (handle_ecall hello (to_write hello asking refl asking-HasRoom)
        ≡ write_reg 10 5
            (print_codes (first_of 5 (codes "hello")) (to_write hello asking refl asking-HasRoom)))
sys_write-sys_read_example = sys_write-sys_read hello asking refl asking-HasRoom
