-- ===== src/Step/Fetch.antt =====
-- What `Processor::step` executes: in machine mode, the instruction that RAM holds at the program counter.
use rv64i_simulator.Base.{
  ℕ, ◌+◌, ◌-◌, ◌≡◌, refl, ◌∙◌, ap, true, false, Option, some, ◌==◌, if◌then◌else◌, bit_and, bit_or,
  ◌<<<◌, u64, arith, Bool-cases, inl, inr,
}
use rv64i_simulator.Memory
use rv64i_simulator.Machine.{Machine, write_reg, fetch}
use rv64i_simulator.Registry.{Table}
use rv64i_simulator.Compressed.{decompress}
use rv64i_simulator.Cpu.Translate.{translate}
use rv64i_simulator.Bus.Read.{read_half}
use rv64i_simulator.Bus.Ram.{InRam, Unprotected, reads}
use rv64i_simulator.Instr.System.{Environment}
use rv64i_simulator.Step.{execute, fetch_second, fetch_first, step}

-- The machine at the start of its step: one tick of the timer.
abbrev pub ticked : Machine → Machine
ticked m = record m { mtime = u64 (m.mtime + 1) }

-- The half-word that RAM holds at an address.
abbrev pub half_at : Machine → ℕ → ℕ
half_at m address = Memory.read_half m.ram (address - m.ram_base)

-- The program counter is in RAM, eight bytes before its end, in machine mode without protection.
pub record IsReady (m : Machine) : Type 0 where
  pub first : InRam m m.program_counter
  pub second : InRam m (m.program_counter + 2)
  pub access : Unprotected m

module _ (m : Machine) (r : IsReady m) where
  abbrev here : ℕ
  here = m.program_counter

  ticked-InRam : (address : ℕ) → InRam m address → InRam (ticked m) address
  ticked-InRam address i = record {
    fits = i.fits;
    above = i.above;
    from = i.from;
    inside = i.inside;
  }

  ticked-Unprotected : Unprotected (ticked m)
  ticked-Unprotected = record { mode = r.access.mode; unlocked = r.access.unlocked }

  fetched :
      (address : ℕ) → InRam m address → read_half address (ticked m) ≡ (half_at m address, ticked m)
  fetched address i = (reads (ticked m) address (ticked-InRam address i) ticked-Unprotected).0

  same_address : (address : ℕ) → translate address fetch (ticked m) ≡ (some address, ticked m)
  unfolding translate
  same_address address = rw r.access.mode refl

  next_address : u64 (here + 2) ≡ here + 2
  next_address = let i = r.second.inside in let f = r.second.fits in omega arith

  -- The word of the two half-words at the program counter.
  abbrev pub word_here : ℕ
  word_here = bit_or (half_at m (here + 2) <<< 16) (half_at m here)

  fetch_second-execute :
      (env : Option Environment) (table : Table) (address : ℕ)
      → address ≡ here + 2
      → fetch_second env table here (half_at m here) address (ticked m)
        ≡ execute env table here word_here 4 (ticked m)
  unfolding fetch_second
  fetch_second-execute env table address e = rw (e, fetched (here + 2) r.second) refl

  started : write_reg 0 0 (ticked m) ≡ ticked m
  unfolding write_reg
  started = refl

  step-fetch_first :
      (env : Option Environment) (table : Table)
      → step env table m ≡ fetch_first env table (ticked m)
  unfolding step
  step-fetch_first env table = ap (fetch_first env table) started

  fetch_first-compressed :
      (env : Option Environment) (table : Table)
      → (bit_and (half_at m here) 0x3 == 0x3) ≡ false
      → fetch_first env table (ticked m)
        ≡ (true, execute env table here (decompress (half_at m here)) 2 (ticked m))
  unfolding fetch_first
  fetch_first-compressed env table e =
      rw (fetch_first, same_address here, same_address here, fetched here r.first, e) refl

  fetch_first-word :
      (env : Option Environment) (table : Table)
      → (bit_and (half_at m here) 0x3 == 0x3) ≡ true
      → fetch_first env table (ticked m) ≡ (true, execute env table here word_here 4 (ticked m))
  unfolding fetch_first
  fetch_first-word env table e = elim (Bool-cases (bit_and here 0xfff == 0xffe)) [
    | inl last ↦
        rw
          (
            fetch_first,
            same_address here,
            same_address here,
            fetched here r.first,
            e,
            last,
            same_address (u64 (here + 2)),
            same_address here,
            fetched here r.first,
            same_address (u64 (here + 2)),
          )
          (ap (λ s. (true, s)) (fetch_second-execute env table (u64 (here + 2)) next_address))
    | inr inner ↦
        rw (fetch_first, same_address here, same_address here, fetched here r.first, e, inner)
          (ap (λ s. (true, s)) (fetch_second-execute env table (u64 (here + 2)) next_address))
  ]

  pub step-word :
      (env : Option Environment) (table : Table)
      → (bit_and (half_at m here) 0x3 == 0x3) ≡ true
      → step env table m ≡ (true, execute env table here word_here 4 (ticked m))
  step-word env table e = step-fetch_first env table ∙ fetch_first-word env table e

  pub step-compressed :
      (env : Option Environment) (table : Table)
      → (bit_and (half_at m here) 0x3 == 0x3) ≡ false
      → step env table m ≡ (true, execute env table here (decompress (half_at m here)) 2 (ticked m))
  step-compressed env table e = step-fetch_first env table ∙ fetch_first-compressed env table e

  -- The instruction that is at the program counter, and its length.
  pub instruction : ℕ × ℕ
  instruction =
      if bit_and (half_at m here) 0x3 == 0x3
      then (word_here, 4)
      else (decompress (half_at m here), 2)

  -- In machine mode without a locked PMP entry, with ten bytes of RAM left from the program counter
  -- on, in a RAM that is above the CLINT and ends below 2^64, a step ticks the timer and executes
  -- the half-word at the program counter, expanded, with length 2 if its lowest two bits are not
  -- both set, and else the word of the two half-words there with length 4, at the end of a page
  -- too.
  pub step-execute :
      (env : Option Environment) (table : Table)
      → step env table m ≡ (true, execute env table here instruction.0 instruction.1 (ticked m))
  unfolding instruction
  step-execute env table = elim (Bool-cases (bit_and (half_at m here) 0x3 == 0x3)) [
    | inl e ↦ step-word env table e ∙ rw e refl
    | inr e ↦ step-compressed env table e ∙ rw e refl
  ]
