-- ===== src/Host/FirstStep.antt =====
-- From `main` to the first instruction: a payload that begins with an `addi` is loaded, the default system
-- started, and the first step executes the `addi`.
use rv64i_simulator.Base.{
  ℕ, suc, ◌+◌, ◌*◌, ◌^◌, ◌≤◌, ◌<◌, ◌≡◌, ◌∙◌, ap, true, Option, some, List, [], ◌∷◌, u32, u64, sx32,
  update, arith,
}
use rv64i_simulator.Memory
use rv64i_simulator.Machine.{Machine, power_on}
use rv64i_simulator.Registry.Default.{init_table}
use rv64i_simulator.Decode.Immediates.{signed}
use rv64i_simulator.Instr.System.{Environment}
use rv64i_simulator.Step.{step}
use rv64i_simulator.Step.Fetch.{IsReady}
use rv64i_simulator.Step.Addi.{addi_word, word_bytes, step-addi}
use rv64i_simulator.Output.Digits.{length}
use rv64i_simulator.Tree.{Libfdt}
use rv64i_simulator.Host.CommandLine.{SystemType, Cli}
use rv64i_simulator.Host.Systems.{system_ram_base}
use rv64i_simulator.Host.Main.{memory_kb, construct, start}
use rv64i_simulator.Host.Payload.{
  placed, byte_at, started, start-started, placed-byte_at, construct-HasRoom,
}

update-lt :
    (cells : ℕ → ℕ) (at b : ℕ)
    → ((i : ℕ) → cells i < 2 ^ 8)
    → b < 2 ^ 8
    → (i : ℕ) → update cells at b i < 2 ^ 8
update-lt cells at b h p i = let q = h i in ground arith

placed-lt :
    (bs : List ℕ) (at : ℕ) (cells : ℕ → ℕ)
    → ((i : ℕ) → byte_at bs i < 2 ^ 8)
    → ((i : ℕ) → cells i < 2 ^ 8)
    → (i : ℕ) → placed bs at cells i < 2 ^ 8
unfolding placed byte_at
placed-lt [] at cells p h i = h i
placed-lt (b ∷ bs) at cells p h i =
    placed-lt bs (at + 1) (update cells at b) (λ j. p (suc j)) (update-lt cells at b h (p 0)) i

construct-lt :
    (config : Cli) (x0 : ℕ) (outside : ℕ → ℕ)
    → ((i : ℕ) → outside i < 2 ^ 8)
    → (i : ℕ) → (construct config x0 outside).ram.cells i < 2 ^ 8
unfolding construct power_on Memory.create
construct-lt config x0 outside h i = let q = h i in ground arith

module _ (fdt : Libfdt) (files : List ℕ → Option (List ℕ)) (program filename bytes : List ℕ)
    (config : Cli) (x0 : ℕ) (outside : ℕ → ℕ) (default : config.system_type ≡ SystemType.default)
    (held : files filename ≡ some bytes) (long : 4 ≤ length bytes)
    (small : length bytes ≤ u32 (memory_kb config * 1024))
    (payload_bytes : (i : ℕ) → byte_at bytes i < 2 ^ 8)
    (outside_bytes : (i : ℕ) → outside i < 2 ^ 8) where
  abbrev booted : Machine
  booted = started config x0 outside bytes

  abbrev first_word : ℕ
  first_word =
      byte_at bytes 0
      + byte_at bytes 1 * 2 ^ 8
      + byte_at bytes 2 * 2 ^ 16
      + byte_at bytes 3 * 2 ^ 24

  size_enough : 1024 ≤ u32 (memory_kb config * 1024)
  size_enough = omega arith

  booted-IsReady : IsReady booted
  unfolding construct power_on Memory.create
  booted-IsReady =
      let room = construct-HasRoom config x0 (length bytes) outside small in
      let e = size_enough in
      record {
        first = record {
          fits = room.fits;
          above = omega arith;
          from = omega arith;
          inside = omega arith;
        };
        second = record {
          fits = room.fits;
          above = omega arith;
          from = omega arith;
          inside = omega arith;
        };
        access = record { mode = room.access.mode; unlocked = room.access.unlocked };
      }

  booted-lt : (i : ℕ) → booted.ram.cells i < 2 ^ 8
  booted-lt =
      placed-lt bytes 0 (construct config x0 outside).ram.cells payload_bytes
        (construct-lt config x0 outside outside_bytes)

  cell : (i : ℕ) → i < 4 → booted.ram.cells i ≡ byte_at bytes i
  cell i h =
      let e : i ≡ 0 + i = omega arith in
      ap booted.ram.cells e
      ∙ placed-byte_at bytes 0 (construct config x0 outside).ram.cells i (omega arith)

  booted-first_word : Memory.read_word booted.ram 0 ≡ first_word
  unfolding construct power_on Memory.create
  booted-first_word =
      let e = size_enough in
      word_bytes booted.ram 0 booted-lt (omega arith) (omega arith)
      ∙ omega (
        arith,
        cell 0 (omega arith),
        cell 1 (omega arith),
        cell 2 (omega arith),
        cell 3 (omega arith),
      )

  -- For the default system, a payload file of at least four bytes that fits RAM and begins with the
  -- word of an addi, and storage that holds bytes, the construction, loading and boot in main give
  -- a machine whose first step, whatever the host environment, writes the sum of the source
  -- register and the sign-extended immediate to the destination register, sets the program counter
  -- to the next word, the timer and the step counter to 1, and changes nothing else.
  pub start-step :
      (env : Option Environment) (rd rs1 imm : ℕ)
      → rd < 2 ^ 5
      → rs1 < 2 ^ 5
      → imm < 2 ^ 12
      → first_word ≡ addi_word rd rs1 imm
      → (m : Machine) × (start fdt files program config filename x0 outside ≡ some m)
        × (step env init_table m ≡ (
          true,
          record m {
            registers = update m.registers rd (u64 (m.registers rs1 + sx32 (signed 12 imm)));
            program_counter = system_ram_base + 4;
            mtime = 1;
            step_count = 1;
          },
        ))
  unfolding construct power_on
  start-step env rd rs1 imm a b c w = (
    booted,
    start-started fdt files program filename bytes config x0 outside default held (omega arith)
        small,
    step-addi booted env rd rs1 imm booted-IsReady booted-lt a b c (booted-first_word ∙ w),
  )
