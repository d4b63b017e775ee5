-- ===== src/Host/CommandLine.antt =====
-- Host/CLI.cpp and include/host/CLI.h: the command line. The parameter `stoul` is `std::stoul`, with
-- `none` where it throws; `has_io` says that the global `io` is not null.
pub mod Options
use Prim.Native.String.{String}
use text.Mathlib.Text.{◌==◌}
use rv64i_simulator.Base.{
  ℕ, Bool, true, false, ◌||◌, Option, none, some, List, [], ◌∷◌, if◌then◌else◌, u32,
}

pub data SystemType : Type 0 where
  default open_sbi : SystemType

-- `filename` is `none` while it is not set.
pub record Cli : Type 0 where
  pub filename : Option String
  pub memory_kb : ℕ
  pub system_type : SystemType
  pub debug_enabled : Bool
  pub trace_enabled : Bool
  pub valid : Bool

abbrev pub initial : Cli
initial = record {
  filename = none;
  memory_kb = 531072;
  system_type = SystemType.default;
  debug_enabled = false;
  trace_enabled = false;
  valid = false;
}

-- The chain of comparisons with an argument.
pub data Flag : Type 0 where
  debug trace memory system unknown : Flag

unfoldable pub flag : String → Flag
flag arg =
    if arg == "--debug"
    then Flag.debug
    else if arg == "--trace"
    then Flag.trace
    else if arg == "--memory"
    then Flag.memory
    else if arg == "--system"
    then Flag.system
    else Flag.unknown

unfoldable pub system_of : String → SystemType
system_of sys_val =
    if sys_val == "opensbi" || sys_val == "sbi" then SystemType.open_sbi else SystemType.default

-- A configuration with what was printed; `none` is an exception.
abbrev pub Parsed : Type 0
Parsed = Option (Cli × List String)

-- An error: its messages, and a configuration that is not valid.
abbrev pub refuse : Bool → Cli → List String → Parsed
refuse has_io config messages =
    some (record config { valid = false }, if has_io then messages else [])

-- The body of the loop for an argument without another after it.
unfoldable pub last_option : Bool → Cli → String → Parsed
last_option has_io config arg = elim (flag arg) [
  | Flag.debug ↦ some (record config { debug_enabled = true }, [])
  | Flag.trace ↦ some (record config { trace_enabled = true }, [])
  | Flag.memory ↦ refuse has_io config ("Error: --memory requires a value\n" ∷ [])
  | Flag.system ↦ refuse has_io config ("Error: --system requires a value (e.g., 'opensbi')\n" ∷ [])
  | Flag.unknown ↦ refuse has_io config ("Unknown argument: " ∷ arg ∷ "\n" ∷ [])
]

-- The loop.
unfoldable pub options : (String → Option ℕ) → Bool → Cli → List String → Parsed
options stoul has_io config [] = some (config, [])
options stoul has_io config (arg ∷ []) = last_option has_io config arg
options stoul has_io config (arg ∷ value ∷ more) = elim (flag arg) [
  | Flag.debug ↦ options stoul has_io (record config { debug_enabled = true }) (value ∷ more)
  | Flag.trace ↦ options stoul has_io (record config { trace_enabled = true }) (value ∷ more)
  | Flag.memory ↦ elim (stoul value) [
    | none ↦ none
    | some kb ↦ options stoul has_io (record config { memory_kb = u32 kb }) more
  ]
  | Flag.system ↦ options stoul has_io (record config { system_type = system_of value }) more
  | Flag.unknown ↦ refuse has_io config ("Unknown argument: " ∷ arg ∷ "\n" ∷ [])
]

-- `parseCommandLine`, on the arguments after the program's name.
unfoldable pub parse_command_line : (String → Option ℕ) → Bool → List String → Parsed
parse_command_line stoul has_io [] = some (
  initial,
  if has_io
      then "Usage: rv64i <binary_file> [--system opensbi] [--memory kb] [--debug] [--trace]\n" ∷ []
      else [],
)
parse_command_line stoul has_io (filename ∷ args) =
    options stoul has_io (record initial { filename = some filename; valid = true }) args
