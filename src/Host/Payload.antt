-- ===== src/Host/Payload.antt =====
-- InjectionLoader.cpp on RAM, and Host.cpp with it: a file's bytes are in RAM where the system wants them.
use rv64i_simulator.Base.{
  ℕ, zero, suc, ◌+◌, ◌-◌, ◌*◌, ◌%◌, ◌^◌, ◌≤◌, ◌<◌, ◌≡◌, refl, ◌∙◌, sym, ap, ap₂, subst, true, false,
  Option, some, List, [], ◌∷◌, leb, ltb, lt→ltb, ◌==◌, ==_refl, ==_ne, u32, u64, update, arith,
}
use native.Mathlib.Nat.{zero-div}
use rv64i_simulator.Memory
use rv64i_simulator.Uart
use rv64i_simulator.Machine.{Machine, store, power_on}
use rv64i_simulator.Cpu.Pmp.{entry_cfg}
use rv64i_simulator.Cpu.Pmp.First.{check_pmp_unlocked}
use rv64i_simulator.Bus.Read.{in_uart}
use rv64i_simulator.Bus.Write.{write_byte}
use rv64i_simulator.Bus.Ram.{Unprotected}
use rv64i_simulator.Output.Digits.{length}
use rv64i_simulator.Tree.{Libfdt}
use rv64i_simulator.Host.CommandLine.{SystemType, Cli}
use rv64i_simulator.Host.Loader.{inject, load}
use rv64i_simulator.Host.Systems.{system_ram_base, payload_location, boot_default, boot}
use rv64i_simulator.Host.Main.{memory_kb, construct, load_payload, start}

-- An array with the bytes written from a place on.
unfoldable pub placed : List ℕ → ℕ → (ℕ → ℕ) → ℕ → ℕ
placed [] at cells = cells
placed (b ∷ bs) at cells = placed bs (at + 1) (update cells at b)

-- The byte of a list at a place, 0 past its end.
unfoldable pub byte_at : List ℕ → ℕ → ℕ
byte_at [] i = 0
byte_at (b ∷ bs) zero = b
byte_at (b ∷ bs) (suc i) = byte_at bs i

pub placed-before :
    (bs : List ℕ) (at : ℕ) (cells : ℕ → ℕ) (j : ℕ) → j < at → placed bs at cells j ≡ cells j
unfolding placed
placed-before [] at cells j h = refl
placed-before (b ∷ bs) at cells j h =
    placed-before bs (at + 1) (update cells at b) j (omega arith)
    ∙ rw (==_ne j at (λ q. omega arith)) refl

placed-after :
    (bs : List ℕ) (at : ℕ) (cells : ℕ → ℕ) (j : ℕ)
    → at + length bs ≤ j
    → placed bs at cells j ≡ cells j
unfolding placed
placed-after [] at cells j h = refl
placed-after (b ∷ bs) at cells j h =
    placed-after bs (at + 1) (update cells at b) j (omega arith)
    ∙ rw (==_ne j at (λ q. omega arith)) refl

pub placed-byte_at :
    (bs : List ℕ) (at : ℕ) (cells : ℕ → ℕ) (i : ℕ)
    → i < length bs
    → placed bs at cells (at + i) ≡ byte_at bs i
unfolding placed byte_at
placed-byte_at [] at cells i h = absurd (omega arith)
placed-byte_at (b ∷ bs) at cells zero h =
    let e : at + 0 ≡ at = omega arith in
    ap (placed bs (at + 1) (update cells at b)) e
    ∙ placed-before bs (at + 1) (update cells at b) at (omega arith)
    ∙ rw (==_refl at) refl
placed-byte_at (b ∷ bs) at cells (suc i) h =
    let e : at + suc i ≡ at + 1 + i = omega arith in
    ap (placed bs (at + 1) (update cells at b)) e
    ∙ placed-byte_at bs (at + 1) (update cells at b) i (omega arith)

-- Room for `n` bytes in RAM from `address` on, away from the UART, without protection.
pub record HasRoom (m : Machine) (address n : ℕ) : Type 0 where
  pub access : Unprotected m
  pub from : m.ram_base ≤ address
  pub inside : address + n ≤ m.ram_base + m.ram.size
  pub fits : m.ram_base + m.ram.size < 2 ^ 64
  pub no_uart : (a : ℕ) → m.ram_base ≤ a → in_uart m.uart a ≡ false

abbrev pub with_cells : (ℕ → ℕ) → Machine → Machine
with_cells cells m = record m { ram = record m.ram { cells = cells } }

pub write_byte-update :
    (m : Machine) (address n v : ℕ)
    → HasRoom m address (suc n)
    → write_byte address v m ≡ with_cells (update m.ram.cells (address - m.ram_base) v) m
unfolding write_byte Memory.write_byte Memory.get_size
write_byte-update m address n v r =
    let grant = check_pmp_unlocked m address store r.access.mode r.access.unlocked in
    let far = r.no_uart address r.from in
    let a = r.from in
    let i = r.inside in
    let f = r.fits in
    let above : leb m.ram_base address ≡ true = ground arith in
    let below : ltb address (u64 (m.ram_base + m.ram.size)) ≡ true = ground arith in
    let there : ltb (address - m.ram_base) m.ram.size ≡ true = ground arith in
    rw (write_byte, grant, far, above, below, Memory.write_byte, there) refl

-- After one byte there is room for the others.
pub rest_of_room :
    (m : Machine) (address n : ℕ) (cells : ℕ → ℕ)
    → HasRoom m address (suc n)
    → HasRoom (with_cells cells m) (address + 1) n
rest_of_room m address n cells r = record {
  access = record { mode = r.access.mode; unlocked = r.access.unlocked };
  from = let a = r.from in omega arith;
  inside = let i = r.inside in omega arith;
  fits = r.fits;
  no_uart = r.no_uart;
}

suc_length : (bs : List ℕ) → length bs + 1 ≡ suc (length bs)
suc_length bs = omega arith

inject-placed :
    (bytes : List ℕ) (start offset address : ℕ) (m : Machine)
    → HasRoom m address (length bytes)
    → start + offset ≡ address
    → inject bytes start offset m
      ≡ (offset + length bytes, with_cells (placed bytes (address - m.ram_base) m.ram.cells) m)
unfolding inject placed
inject-placed [] start offset address m r e =
    let same : offset ≡ offset + 0 = omega arith in ap (λ k. (k, m)) same
inject-placed (b ∷ bs) start offset address m r e =
    let i = r.inside in
    let f = r.fits in
    let a = r.from in
    let room : HasRoom m address (suc (length bs)) = subst (HasRoom m address) (suc_length bs) r in
    let next : u64 (offset + 1) ≡ offset + 1 = omega arith in
    let here : u64 (start + offset) ≡ address = omega arith in
    let cells = update m.ram.cells (address - m.ram_base) b in
    let count : offset + 1 + length bs ≡ offset + (length bs + 1) = omega arith in
    let place : address + 1 - m.ram_base ≡ address - m.ram_base + 1 = omega arith in
    ap (λ k. inject bs start k (write_byte (u64 (start + offset)) b m)) next
    ∙ ap (λ k. inject bs start (offset + 1) (write_byte k b m)) here
    ∙ ap (inject bs start (offset + 1)) (write_byte-update m address (length bs) b room)
    ∙ inject-placed bs start (offset + 1) (address + 1) (with_cells cells m)
        (rest_of_room m address (length bs) cells room) (omega arith)
    ∙ ap₂ (λ k o. (k, with_cells (placed bs o cells) m)) count place

-- The constructed machine has room for a file that is no larger than its RAM.
pub construct-HasRoom :
    (config : Cli) (x0 n : ℕ) (outside : ℕ → ℕ)
    → n ≤ u32 (memory_kb config * 1024)
    → HasRoom (construct config x0 outside) system_ram_base n
unfolding construct power_on Memory.create Uart.create Uart.contains entry_cfg
construct-HasRoom config x0 n outside p = record {
  access = record { mode = refl; unlocked = λ j. rw (zero-div (2 ^ (j % 8 * 8))) refl };
  from = omega arith;
  inside = omega arith;
  fits = omega arith;
  no_uart = λ a h. ground arith;
}

-- A loaded payload leaves no message.
load_payload-placed :
    (files : List ℕ → Option (List ℕ)) (config : Cli) (filename bytes : List ℕ) (m : Machine)
    → files filename ≡ some bytes
    → 0 < length bytes
    → HasRoom m (payload_location config.system_type) (length bytes)
    → payload_location config.system_type < 2 ^ 64
    → load_payload files config filename m
      ≡ with_cells (placed bytes (payload_location config.system_type - m.ram_base) m.ram.cells) m
unfolding load_payload load
load_payload-placed files config filename bytes m e p r q =
    let at = payload_location config.system_type in
    let loaded : load files at filename m
        ≡ (0 + length bytes, with_cells (placed bytes (at - m.ram_base) m.ram.cells) m) =
      rw (load, e) (inject-placed bytes at 0 at m r (omega arith)) in
    let some_bytes : (0 + length bytes == 0) ≡ false = ground arith in
    rw (load_payload, loaded, some_bytes) refl

-- The machine that the default system starts.
abbrev pub started : Cli → ℕ → (ℕ → ℕ) → List ℕ → Machine
started config x0 outside bytes =
    let m = construct config x0 outside in
    record (with_cells (placed bytes 0 m.ram.cells) m) {
      registers = update m.registers 2 m.ram.size;
      program_counter = system_ram_base;
    }

module _ (fdt : Libfdt) (files : List ℕ → Option (List ℕ)) (program filename bytes : List ℕ)
    (config : Cli) (x0 : ℕ) (outside : ℕ → ℕ) (default : config.system_type ≡ SystemType.default)
    (held : files filename ≡ some bytes) (some_bytes : 0 < length bytes)
    (small : length bytes ≤ u32 (memory_kb config * 1024)) where
  pub start-started :
      start fdt files program config filename x0 outside ≡ some (started config x0 outside bytes)
  unfolding start boot boot_default Memory.get_size payload_location construct power_on
      Memory.create
  start-started =
      let at : payload_location config.system_type ≡ system_ram_base =
        ap payload_location default in
      let m = construct config x0 outside in
      let room =
        subst (λ a. HasRoom m a (length bytes)) (sym at)
          (construct-HasRoom config x0 (length bytes) outside small) in
      let loaded =
        load_payload-placed files config filename bytes m held some_bytes room (omega arith) in
      ap (λ s. boot s fdt files program (load_payload files config filename m)) default
      ∙ ap (λ k. some (boot_default k)) loaded
      ∙ ap (λ a. some (boot_default (with_cells (placed bytes (a - m.ram_base) m.ram.cells) m))) at

  abbrev blank : ℕ → ℕ
  blank = (construct config x0 outside).ram.cells

  abbrev blank_with : ℕ → ℕ
  blank_with = placed bytes 0 blank

  -- For the default system and a payload file that is not empty and fits RAM, main starts a machine
  -- whose program counter and RAM base are 0x80000000 and whose register 2 is the size of RAM, with
  -- the file's bytes at the start of RAM and zeros after them.
  pub start-payload :
      (m : Machine) × (start fdt files program config filename x0 outside ≡ some m)
      × (m.program_counter ≡ system_ram_base)
      × (m.ram_base ≡ system_ram_base)
      × (m.registers 2 ≡ u32 (memory_kb config * 1024))
      × ((i : ℕ) → i < length bytes → m.ram.cells i ≡ byte_at bytes i)
      × ((i : ℕ) → length bytes ≤ i → i < u32 (memory_kb config * 1024) → m.ram.cells i ≡ 0)
  unfolding construct power_on Memory.create
  start-payload = (
    started config x0 outside bytes,
    start-started,
    refl,
    refl,
    refl,
    λ i h. let e : i ≡ 0 + i = omega arith in ap blank_with e ∙ placed-byte_at bytes 0 blank i h,
    λ i h k.
        placed-after bytes 0 blank i (omega arith)
        ∙ rw (lt→ltb i (u32 (memory_kb config * 1024)) k) refl,
  )
