-- ===== src/Tests/Program.antt =====
-- The theorems on the machine's invariant, the instruction table and the parts around the processor,
-- applied at concrete inputs.
use Prim.Native.String.{String}
use rv64i_simulator.Base.{
  ℕ, suc, ◌-◌, ◌^◌, ◌≤◌, ◌≡◌, refl, true, Option, some, none, List, [], ◌∷◌, ◌++◌, arith,
}
use rv64i_simulator.Machine.{Machine, power_on}
use rv64i_simulator.Registry.{lookup}
use rv64i_simulator.Registry.Default.{init_table, default_entries}
use rv64i_simulator.Registry.First.{first_match, init_table-first_match}
use rv64i_simulator.Step.{step, run_for}
use rv64i_simulator.Invariant.{IsValid, Layout}
use rv64i_simulator.Invariant.Step.{step-IsValid}
use rv64i_simulator.Invariant.Run.{run_for-steps, power_on-IsValid}
use rv64i_simulator.Output.{codes, write_signed_int}
use rv64i_simulator.Output.Digits.{
  all_digits, decimal, length, magnitude, with_sign, write_signed_int-decimal,
}
use rv64i_simulator.History.{history_size, record_string, dump}
use rv64i_simulator.History.Queue.{title, footer, last_of, tracing_log, dump-last_of}
use rv64i_simulator.Tree.{FdtCall, build_calls}
use rv64i_simulator.Tree.Calls.{Phase, follow, build_calls-follow}
use rv64i_simulator.Host.CommandLine.{initial, parse_command_line}
use rv64i_simulator.Host.CommandLine.Options.{
  Setting, render, apply_settings, parse_command_line-render,
}
use rv64i_simulator.Tests.Samples.{blank}

-- A machine that was just switched on.
abbrev fresh : Machine
fresh = power_on 0 blank 0x8000_0000 none

abbrev fresh_layout : Layout
fresh_layout = record { ram_size = 0x1000; ram_base = 0x8000_0000 }

fresh-IsValid : IsValid fresh_layout fresh
fresh-IsValid = power_on-IsValid 0 0x8000_0000 blank none (omega arith) (λ i. omega arith) tt

step-IsValid_example : IsValid fresh_layout (step none init_table fresh).1
step-IsValid_example = step-IsValid none tt init_table fresh fresh-IsValid

run_for-steps_example :
    run_for (suc 3) none init_table fresh
    ≡ (step none init_table (run_for 3 none init_table fresh)).1
run_for-steps_example = run_for-steps none tt init_table 3 fresh fresh-IsValid

init_table-first_match_example : lookup 0x33 init_table ≡ first_match 0x33 default_entries
init_table-first_match_example = init_table-first_match 0x33

-- -5.
write_signed_int-decimal_example :
    (digits : List ℕ) × (write_signed_int (2 ^ 64 - 5) ≡ some (with_sign (2 ^ 64 - 5) digits))
    × (all_digits digits ≡ true)
    × (decimal digits ≡ magnitude (2 ^ 64 - 5))
    × (length digits ≤ 20)
write_signed_int-decimal_example = write_signed_int-decimal (2 ^ 64 - 5) (omega arith)

dump-last_of_example :
    (dump (record_string (codes "[step] ") tracing_log)).sent
    ≡ (title ++ last_of history_size (codes "[step] ")) ++ footer
dump-last_of_example = dump-last_of (codes "[step] ")

build_calls-follow_example :
    (calls : List FdtCall) × (build_calls 4096 0x8000_0000 0x1000_0000 0x1000_0000 0x200_0000
        (codes "rv64imac")
      ≡ some calls)
    × (follow Phase.blank calls ≡ some Phase.finished)
build_calls-follow_example =
    build_calls-follow 4096 0x8000_0000 0x1000_0000 0x1000_0000 0x200_0000 (codes "rv64imac")
      (omega arith) (omega arith) (omega arith)

-- A reader of numbers that knows one.
abbrev one_number : String → Option ℕ
one_number s = some 65536

abbrev settings : List Setting
settings = Setting.debug ∷ Setting.memory "65536" 65536 ∷ Setting.opensbi ∷ []

parse_command_line-render_example :
    parse_command_line one_number true ("kernel.bin" ∷ render settings)
    ≡ some (
      apply_settings settings (record initial { filename = some "kernel.bin"; valid = true }),
      [],
    )
parse_command_line-render_example =
    parse_command_line-render one_number true "kernel.bin" settings (refl, tt)
