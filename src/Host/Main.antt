-- ===== src/Host/Main.antt =====
-- Host.cpp: `main`, for a command line that was read. The parameters are those of the modules it calls;
-- `x0` is what the storage of register 0 held. Debug output is left out.
use rv64i_simulator.Base.{
  ℕ, zero, suc, ◌*◌, Bool, true, false, not, ◌||◌, Option, none, some, List, [], ◌∷◌, ltb, ◌==◌,
  if◌then◌else◌, u32,
}
use rv64i_simulator.Memory
use rv64i_simulator.Uart
use rv64i_simulator.Machine.{Machine, text, exited, print, power_on}
use rv64i_simulator.Registry.Default.{init_table}
use rv64i_simulator.Step.{step}
use rv64i_simulator.Instr.System.{Environment}
use rv64i_simulator.Output.{codes}
use rv64i_simulator.Tree.{Libfdt}
use rv64i_simulator.Host.CommandLine.{SystemType, Cli}
use rv64i_simulator.Host.Loader.{print_codes, load}
use rv64i_simulator.Host.HostCalls.{host_environment}
use rv64i_simulator.Host.Systems.{system_ram_base, payload_location, boot}

-- OpenSBI has at least 50000 kilobytes.
unfoldable pub memory_kb : Cli → ℕ
memory_kb config = elim config.system_type [
  | SystemType.open_sbi ↦ if ltb config.memory_kb 50000 then 50000 else config.memory_kb
  | SystemType.default ↦ config.memory_kb
]

-- The components as constructed; the product is one of `uint32_t`.
unfoldable pub construct : Cli → ℕ → (ℕ → ℕ) → Machine
construct config x0 outside =
    power_on x0 (Memory.create (u32 (memory_kb config * 1024)) outside) system_ram_base
      (some (Uart.create true 0x1000_0000))

-- The payload is loaded at the place that the system names.
unfoldable pub load_payload : (List ℕ → Option (List ℕ)) → Cli → List ℕ → Machine → Machine
load_payload files config filename m =
    let (payload_loaded, m1) = load files (payload_location config.system_type) filename m in
    if payload_loaded == 0
    then print (text "\" is not available or is incompatible.")
        (print_codes filename (print (text "Payload file \"") m1))
    else m1

-- From the construction to `boot`.
unfoldable pub start :
    Libfdt → (List ℕ → Option (List ℕ)) → List ℕ → Cli → List ℕ → ℕ → (ℕ → ℕ) → Option Machine
start fdt files program config filename x0 outside =
    boot config.system_type fdt files program
      (load_payload files config filename (construct config x0 outside))

-- `exit` was the last thing that happened.
unfoldable pub has_exited : Machine → Bool
has_exited m = elim m.printed [ [] ↦ false | p ∷ ps ↦ elim p [ exited code ↦ true | _ ↦ false ] ]

-- At most `n` rounds of `cpu.run()`, as long as the process lives.
unfoldable pub run_process : ℕ → Environment → Machine → Machine
run_process zero env m = m
run_process (suc n) env m = elim (m.trap || has_exited m) [
  | true ↦ m
  | false ↦ run_process n env (step (some env) init_table m).1
]

-- What `main` does: it returns a number, makes use of memory that is not its own, or runs.
pub data Outcome : Type 0 where
  returns : ℕ → Outcome
  undefined : Outcome
  runs : Machine → Outcome

-- `main` after the command line was read.
unfoldable pub run_program :
    Libfdt
    → (List ℕ → Option (List ℕ))
    → List ℕ
    → (Machine → List ℕ)
    → Cli
    → ℕ
    → (ℕ → ℕ)
    → ℕ
    → Outcome
run_program fdt files program get_line config x0 outside rounds =
    if not config.valid then Outcome.returns 1 else elim config.filename [
      | none ↦ Outcome.undefined
      | some name ↦ elim (start fdt files program config (codes name) x0 outside) [
        | none ↦ Outcome.undefined
        | some m ↦
            Outcome.runs (run_process rounds (host_environment get_line config.debug_enabled) m)
      ]
    ]
