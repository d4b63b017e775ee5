-- ===== src/Invariant/Run.antt =====
-- Processor::run from any machine that keeps the invariant, and from `Processor::initialize`.
use rv64i_simulator.Base.{ℕ, zero, suc, ◌^◌, ◌<◌, ◌≡◌, refl, Bool, true, false, Option, arith}
use rv64i_simulator.Memory.{Memory}
use rv64i_simulator.Uart.{Uart}
use rv64i_simulator.Machine.{Machine, power_on, reset}
use rv64i_simulator.Registry.{Table}
use rv64i_simulator.Instr.System.{Environment}
use rv64i_simulator.Step.{step, run_for}
use rv64i_simulator.Invariant.{IsValid, Layout, UartFits}
use rv64i_simulator.Invariant.Control.{HostKeeps}
use rv64i_simulator.Invariant.Step.{step-IsValid}

running : (b : Bool) (x y : Machine) → b ≡ false → elim b [ true ↦ x | false ↦ y ] ≡ y
running b x y e = rw e refl

-- The first round of a run.
run_for-suc :
    (n : ℕ) (env : Option Environment) (table : Table) (m : Machine)
    → m.trap ≡ false
    → run_for (suc n) env table m ≡ run_for n env table (step env table m).1
unfolding run_for
run_for-suc n env table m e = running m.trap _ _ e

module _ {l : Layout} (env : Option Environment) (k : HostKeeps l env) (table : Table) where
  pub run_for-IsValid : (n : ℕ) (m : Machine) → IsValid l m → IsValid l (run_for n env table m)
  unfolding run_for
  run_for-IsValid zero m h = h
  run_for-IsValid (suc n) m h =
      rw (run_for-suc n env table m h.trap)
        (run_for-IsValid n (step env table m).1 (step-IsValid env k table m h))

  -- From a machine that keeps the invariant, with a host environment that keeps it, n + 1 rounds of
  -- run are n rounds and one more step: the loop does not stop by itself.
  pub run_for-steps :
      (n : ℕ) (m : Machine)
      → IsValid l m
      → run_for (suc n) env table m ≡ (step env table (run_for n env table m)).1
  unfolding run_for
  run_for-steps zero m h = run_for-suc zero env table m h.trap
  run_for-steps (suc n) m h =
      rw (run_for-suc (suc n) env table m h.trap, run_for-suc n env table m h.trap)
        (run_for-steps n (step env table m).1 (step-IsValid env k table m h))

pub power_on-IsValid :
    (x0 base : ℕ) (ram : Memory) (uart : Option Uart)
    → x0 < 2 ^ 64
    → ((i : ℕ) → ram.cells i < 2 ^ 8)
    → UartFits uart
    → IsValid (record { ram_size = ram.size; ram_base = base }) (power_on x0 ram base uart)
unfolding power_on
power_on-IsValid x0 base ram uart p q r = ground arith

module _ {l : Layout} {m : Machine} (h : IsValid l m) where
  pub reset-IsValid : IsValid l (reset m)
  unfolding reset
  reset-IsValid = ground (arith, λ (i : ℕ). h.registers i)
