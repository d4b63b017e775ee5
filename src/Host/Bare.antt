-- ===== src/Host/Bare.antt =====
-- src/Core.cpp: `main` without an operating system. No console, loader or host environment; 1 MB of RAM
-- at address 0 and no UART; the default system.
use rv64i_simulator.Base.{ℕ, ◌+◌, ◌*◌, ◌^◌, ◌<◌, ◌≤◌, ◌≡◌, none, arith, subst, sym}
use rv64i_simulator.Memory
use rv64i_simulator.Machine.{Machine, power_on}
use rv64i_simulator.Registry.Default.{init_table}
use rv64i_simulator.Step.{run_for}
use rv64i_simulator.Invariant.{IsValid, Layout}
use rv64i_simulator.Invariant.Run.{power_on-IsValid, run_for-IsValid}
use rv64i_simulator.Host.Systems.{boot_default}
use rv64i_simulator.Host.Boot.{boot_default-IsValid}

-- Up to `system->boot`.
unfoldable bare_start : ℕ → (ℕ → ℕ) → Machine
bare_start x0 outside = boot_default (power_on x0 (Memory.create (1024 * 1024) outside) 0 none)

-- With `rounds` rounds of `cpu.run()`.
unfoldable bare_program : ℕ → (ℕ → ℕ) → ℕ → Machine
bare_program x0 outside rounds = run_for rounds none init_table (bare_start x0 outside)

abbrev bare_layout : Layout
bare_layout = record { ram_size = 1024 * 1024; ram_base = 0 }

-- The program counter that the system sets is past the end of this RAM.
bare_start-past_end :
    (x0 : ℕ) (outside : ℕ → ℕ) (m : Machine)
    → m ≡ bare_start x0 outside
    → m.ram_base + m.ram.size ≤ m.program_counter
unfolding bare_start boot_default power_on Memory.create
bare_start-past_end x0 outside m e =
    subst (λ k. k.ram_base + k.ram.size ≤ k.program_counter) (sym e) (omega arith)

-- A 64-bit value that the storage held for x0, and bytes behind the buffer: every round keeps the invariant.
bare_program-IsValid :
    (x0 : ℕ) (outside : ℕ → ℕ) (rounds : ℕ)
    → x0 < 2 ^ 64
    → ((i : ℕ) → outside i < 2 ^ 8)
    → IsValid bare_layout (bare_program x0 outside rounds)
unfolding bare_program bare_start Memory.create
bare_program-IsValid x0 outside rounds p q = run_for-IsValid none tt init_table rounds _ (
    boot_default-IsValid (omega arith) (
      power_on-IsValid x0 0 (Memory.create (1024 * 1024) outside) none p
        (λ i. let b = q i in ground arith) tt))
