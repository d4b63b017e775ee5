-- ===== src/Invariant/Trap.antt =====
-- `raiseTrap` keeps the invariant.
use rv64i_simulator.Base.{
  ℕ, ◌/◌, ◌^◌, ◌≤◌, ◌<◌, Bool, true, ◌==◌, if◌then◌else◌, bit_and, bit_or, ◌<<<◌, ◌>>>◌, not64,
  arith,
}
use rv64i_simulator.Base.Bits.{bit_and-le, bit_or-lt, bit_and_mask}
use rv64i_simulator.Trap.{TrapCause, trap_code}
use rv64i_simulator.Machine.{Machine, supervisor_mode}
use rv64i_simulator.Cpu.Raise.{raise_trap, trap_to_s, trap_to_m, trap_target}
use rv64i_simulator.Invariant.{IsValid, Layout, set_program_counter, set_mode, set_trap_pending}
use rv64i_simulator.Invariant.CsrFile.{raw_or_zero-lt, raw_write-IsValid}

trap_target-lt : (cause : TrapCause) (tvec : ℕ) → tvec < 2 ^ 64 → trap_target cause tvec < 2 ^ 64
unfolding trap_target
trap_target-lt cause tvec h = ground (arith, bit_and-le tvec (not64 3))

trap_code-lt : (cause : TrapCause) → trap_code cause < 2 ^ 64
trap_code-lt cause = ground arith

-- The words that are stacked.
m_status-lt :
    (s mask mode : ℕ)
    → s < 2 ^ 64
    → mode ≤ 3
    → bit_or (bit_or (bit_and s mask) (bit_and (s >>> 3) 0x1 <<< 7)) (mode <<< 11) < 2 ^ 64
m_status-lt s mask mode h k =
    bit_or-lt 64 _ (mode <<< 11)
      (bit_or-lt 64 (bit_and s mask) (bit_and (s >>> 3) 0x1 <<< 7)
        (omega (arith, bit_and-le s mask)) (omega (arith, bit_and_mask 1 (s / 2 ^ 3))))
      (omega arith)

s_status-lt :
    (s mask : ℕ) (from_s : Bool)
    → s < 2 ^ 64
    → (if from_s
        then bit_or (bit_or (bit_and s mask) (bit_and (s >>> 1) 0x1 <<< 5)) (1 <<< 8)
        else bit_or (bit_and s mask) (bit_and (s >>> 1) 0x1 <<< 5))
      < 2 ^ 64
s_status-lt s mask from_s h =
    let low =
      bit_or-lt 64 (bit_and s mask) (bit_and (s >>> 1) 0x1 <<< 5) (omega (arith, bit_and-le s mask))
        (omega (arith, bit_and_mask 1 (s / 2 ^ 1))) in
    ground
      (arith, low, bit_or-lt 64 (bit_or (bit_and s mask) (bit_and (s >>> 1) 0x1 <<< 5)) (1 <<< 8))

module _ {l : Layout} {m : Machine} (h : IsValid l m) (cause : TrapCause) (pc value : ℕ)
    (pc_fits : pc < 2 ^ 64) (value_fits : value < 2 ^ 64) where
  trap_to_m-IsValid : IsValid l (trap_to_m cause pc value m)
  unfolding trap_to_m
  trap_to_m-IsValid =
      let h1 = raw_write-IsValid h 0x341 pc pc_fits in
      let h2 = raw_write-IsValid h1 0x342 (trap_code cause) (trap_code-lt cause) in
      let h3 = raw_write-IsValid h2 0x343 value value_fits in
      let s =
        m_status-lt _ (not64 (bit_or (bit_or (3 <<< 11) (1 <<< 7)) (1 <<< 3))) m.mode
          (raw_or_zero-lt h3 0x300) h.mode in
      let h4 = set_mode (raw_write-IsValid h3 0x300 _ s) 3 (omega arith) in
      set_program_counter h4 _ (trap_target-lt cause _ (raw_or_zero-lt h4 0x305))

  trap_to_s-IsValid : IsValid l (trap_to_s cause pc value m)
  unfolding trap_to_s
  trap_to_s-IsValid =
      let h1 = raw_write-IsValid h 0x141 pc pc_fits in
      let h2 = raw_write-IsValid h1 0x142 (trap_code cause) (trap_code-lt cause) in
      let h3 = raw_write-IsValid h2 0x143 value value_fits in
      let s =
        s_status-lt _ (not64 (bit_or (bit_or (1 <<< 8) (1 <<< 5)) (1 <<< 1)))
          (m.mode == supervisor_mode) (raw_or_zero-lt h3 0x100) in
      let h4 = set_mode (raw_write-IsValid h3 0x100 _ s) 1 (omega arith) in
      set_program_counter h4 _ (trap_target-lt cause _ (raw_or_zero-lt h4 0x105))

module _ {l : Layout} {m : Machine} (h : IsValid l m) where
  pub raise_trap-IsValid :
      (cause : TrapCause) (pc value : ℕ)
      → pc < 2 ^ 64
      → value < 2 ^ 64
      → IsValid l (raise_trap cause pc value m)
  unfolding raise_trap
  raise_trap-IsValid cause pc value p v =
      let pending = set_trap_pending h true in
      ground (
        arith,
        trap_to_m-IsValid pending cause pc value p v,
        trap_to_s-IsValid pending cause pc value p v,
      )
