-- ===== src/Host/Boot.antt =====
-- The whole program of Host.cpp: the machine that `main` boots keeps the invariant in every round.
use rv64i_simulator.Base.{
  ℕ, zero, suc, Bool, true, false, ◌||◌, ◌+◌, ◌*◌, ◌^◌, ◌<◌, ◌≡◌, refl, ◌∙◌, ap, not, none,
  if◌then◌else◌, Option, some, List, ◌==◌, ◌<<<◌, u32, u64, arith,
}
use rv64i_simulator.Base.Int.{ℤ, pos, negsuc}
use rv64i_simulator.Memory
use rv64i_simulator.Memory.{Memory, get_size}
use rv64i_simulator.Uart
use rv64i_simulator.Machine.{Machine, text, int}
use rv64i_simulator.Registry.Default.{init_table}
use rv64i_simulator.Step.{step}
use rv64i_simulator.Output.{codes, int64_to_hex}
use rv64i_simulator.Tree.{Libfdt, FdtCall, build}
use rv64i_simulator.Tree.Names.{generate_isa_string-fits}
use rv64i_simulator.Tree.Calls.{build_calls-follow}
use rv64i_simulator.Invariant.{IsValid, Layout, set_printed, set_program_counter, set_misa}
use rv64i_simulator.Invariant.Bus.{write_byte-IsValid, write_csr-IsValid}
use rv64i_simulator.Invariant.Registers.{choose, set_register}
use rv64i_simulator.Invariant.Run.{power_on-IsValid}
use rv64i_simulator.Invariant.Control.{HostKeeps}
use rv64i_simulator.Invariant.Step.{step-IsValid}
use rv64i_simulator.Instr.System.{Environment}
use Prim.Native.String.{String}
use rv64i_simulator.Host.CommandLine.{SystemType, Cli}
use rv64i_simulator.Host.Loader.{load, load_beside}
use rv64i_simulator.Host.HostCalls.{host_environment}
use rv64i_simulator.Host.Systems.{
  system_ram_base, payload_location, boot_default, dtb_address, system_misa, set_up, copy_tree,
  load_firmware, after_tree, boot_open_sbi, boot,
}
use rv64i_simulator.Host.Main.{
  memory_kb, construct, load_payload, start, has_exited, run_process, Outcome, run_program,
}
use rv64i_simulator.Host.Valid.{
  AllBytes, FilesFit, print_codes-IsValid, load-IsValid, load_beside-IsValid,
  host_environment-KeepsValid,
}

-- The buffer that libfdt leaves holds bytes.
abbrev pub TreeFits : Libfdt → Type 0
TreeFits fdt = (calls : List FdtCall) (i : ℕ) → (fdt calls).0 i < 2 ^ 8

-- What `boot` gives: a machine, and the invariant with it.
record Boots (l : Layout) (o : Option Machine) : Type 0 where
  machine : Machine
  booted : o ≡ some machine
  valid : IsValid l machine

module _ {l : Layout} (small : l.ram_size < 2 ^ 64) where
  pub boot_default-IsValid : {m : Machine} → IsValid l m → IsValid l (boot_default m)
  unfolding boot_default get_size
  boot_default-IsValid {m} h =
      let size = h.size in
      set_register (set_program_counter h system_ram_base (omega arith)) 2 (get_size m.ram)
        (omega arith)

  set_up-IsValid : {m : Machine} → IsValid l m → IsValid l (set_up m)
  unfolding set_up
  set_up-IsValid {m} h =
      let h1 =
        set_printed (set_printed (set_printed h (text "Booting with ")) (int (get_size m.ram)))
          (text " bytes of virtual memory. \n") in
      let h2 =
        set_misa (set_program_counter h1 system_ram_base (omega arith)) system_misa (omega arith) in
      let h3 =
        write_csr-IsValid
          (write_csr-IsValid (write_csr-IsValid h2 0x300 (3 <<< 11) (omega arith)) 0x3a0 0x1f
            (omega arith))
          0x3b0 0xffff_ffff_ffff_ffff (omega arith) in
      let h4 =
        print_codes-IsValid (int64_to_hex dtb_address)
          (set_printed (set_register h3 10 0 (omega arith)) (text "DTB Loaded at: ")) in
      set_register (set_register h4 11 dtb_address (omega arith)) 2 dtb_address (omega arith)

  copy_tree-IsValid :
      (fdt_buf : ℕ → ℕ) (i n : ℕ) {m : Machine}
      → ((j : ℕ) → fdt_buf j < 2 ^ 8)
      → IsValid l m
      → IsValid l (copy_tree fdt_buf i n m)
  unfolding copy_tree
  copy_tree-IsValid fdt_buf i zero p h = h
  copy_tree-IsValid fdt_buf i (suc n) p h =
      copy_tree-IsValid fdt_buf (i + 1) n p
        (write_byte-IsValid h (u64 (dtb_address + i)) (fdt_buf i) (omega arith) (p i))

  module _ (fdt : Libfdt) (files : List ℕ → Option (List ℕ)) (program : List ℕ)
      (tree : TreeFits fdt) (fits : FilesFit files) where
    load_firmware-IsValid :
        (fdt_buf : ℕ → ℕ) (n : ℕ) {m : Machine}
        → ((j : ℕ) → fdt_buf j < 2 ^ 8)
        → IsValid l m
        → IsValid l (load_firmware files program fdt_buf n m)
    unfolding load_firmware
    load_firmware-IsValid fdt_buf n {m} p h =
        let loaded = load_beside files program system_ram_base (codes "bin/fw_jump.bin") true m in
        let h1 =
          load_beside-IsValid files program system_ram_base (codes "bin/fw_jump.bin") true fits h in
        copy_tree-IsValid fdt_buf 0 n p (choose (loaded.0 == 0) (set_printed h1 _) h1)

    after_tree-IsValid :
        (fdt_buf : ℕ → ℕ) (size : ℤ) {m : Machine}
        → ((j : ℕ) → fdt_buf j < 2 ^ 8)
        → IsValid l m
        → IsValid l (after_tree files program fdt_buf size m)
    unfolding after_tree
    after_tree-IsValid fdt_buf (pos zero) p h = h
    after_tree-IsValid fdt_buf (pos (suc n)) p h = load_firmware-IsValid fdt_buf (suc n) p h
    after_tree-IsValid fdt_buf (negsuc n) p h = h

    boot_open_sbi-Boots : {m : Machine} → IsValid l m → Boots l (boot_open_sbi fdt files program m)
    unfolding boot_open_sbi build
    boot_open_sbi-Boots {m} h =
        let isa = generate_isa_string-fits system_misa 32 (omega arith) in
        let calls =
          build_calls-follow 4096 system_ram_base (get_size m.ram) 0x1000_0000 0x200_0000 isa.0
            (omega arith) (omega arith) (omega arith) in
        record {
          machine = after_tree files program (fdt calls.0).0 (fdt calls.0).1 (set_up m);
          booted = rw (boot_open_sbi, isa.1, build, calls.1) refl;
          valid =
              after_tree-IsValid (fdt calls.0).0 (fdt calls.0).1 (tree calls.0) (set_up-IsValid h);
        }

    boot-Boots :
        (system : SystemType) {m : Machine}
        → IsValid l m
        → Boots l (boot system fdt files program m)
    unfolding boot
    boot-Boots SystemType.default {m} h = record {
      machine = boot_default m;
      booted = refl;
      valid = boot_default-IsValid h;
    }
    boot-Boots SystemType.open_sbi h = boot_open_sbi-Boots h

-- The layout that `main` gives the machine.
abbrev pub program_layout : Cli → Layout
program_layout config = record {
  ram_size = u32 (memory_kb config * 1024);
  ram_base = system_ram_base;
}

construct-IsValid :
    (config : Cli) (x0 : ℕ) (outside : ℕ → ℕ)
    → x0 < 2 ^ 64
    → ((i : ℕ) → outside i < 2 ^ 8)
    → IsValid (program_layout config) (construct config x0 outside)
unfolding construct Memory.create Uart.create
construct-IsValid config x0 outside p q =
    power_on-IsValid x0 system_ram_base (Memory.create (u32 (memory_kb config * 1024)) outside)
      (some (Uart.create true 0x1000_0000)) p (λ i. ground (arith, q i)) (λ i. ground arith)

load_payload-IsValid :
    {l : Layout} (files : List ℕ → Option (List ℕ)) (config : Cli) (filename : List ℕ) {m : Machine}
    → FilesFit files
    → IsValid l m
    → IsValid l (load_payload files config filename m)
unfolding load_payload
load_payload-IsValid files config filename {m} p h =
    let loaded = load files (payload_location config.system_type) filename m in
    let h1 = load-IsValid files (payload_location config.system_type) filename p h in
    choose (loaded.0 == 0)
      (set_printed (print_codes-IsValid filename (set_printed h1 (text "Payload file \""))) _) h1

either :
    {A : Type 0} (b : Bool) (P : A → Type 0) (x y : A)
    → P x
    → P y
    → P (elim b [ true ↦ x | false ↦ y ])
either true P x y p q = p
either false P x y p q = q

accepted :
    (valid : Bool) (filename : Option String) (name : String) (k : String → Outcome)
    → valid ≡ true
    → filename ≡ some name
    → (if not valid
        then Outcome.returns 1
        else elim filename [ none ↦ Outcome.undefined | some name ↦ k name ])
      ≡ k name
accepted valid filename name k v f = rw (v, f) refl

run_process-IsValid :
    {l : Layout} (env : Environment)
    → HostKeeps l (some env)
    → (n : ℕ) (m : Machine) → IsValid l m
    → IsValid l (run_process n env m)
unfolding run_process
run_process-IsValid env k zero m h = h
run_process-IsValid {l} env k (suc n) m h = either (m.trap || has_exited m) (IsValid l) m _ h (
    run_process-IsValid env k n (step (some env) init_table m).1
      (step-IsValid (some env) k init_table m h))

module _ (fdt : Libfdt) (files : List ℕ → Option (List ℕ)) (program : List ℕ) (name : String)
    (config : Cli) (get_line : Machine → List ℕ) (x0 : ℕ) (outside : ℕ → ℕ) (tree : TreeFits fdt)
    (fits : FilesFit files) (lines : (m : Machine) → AllBytes (get_line m)) (register : x0 < 2 ^ 64)
    (bytes : (i : ℕ) → outside i < 2 ^ 8) where
  start-Boots :
      Boots (program_layout config) (start fdt files program config (codes name) x0 outside)
  unfolding start
  start-Boots = boot-Boots (omega arith) fdt files program tree fits config.system_type (
      load_payload-IsValid files config (codes name) fits
        (construct-IsValid config x0 outside register bytes))

  -- With a valid command line that names a file, main runs, whichever system is booted, and the
  -- invariant holds after any number of rounds. Files, lines that are read, libfdt's buffer and the
  -- memory's old contents are bytes.
  run_program-IsValid :
      (rounds : ℕ)
      → config.valid ≡ true
      → config.filename ≡ some name
      → (m : Machine) × (run_program fdt files program get_line config x0 outside rounds
          ≡ Outcome.runs m)
        × IsValid (program_layout config) m
  unfolding run_program
  run_program-IsValid rounds v f =
      let s = start-Boots in
      let env = host_environment get_line config.debug_enabled in
      let keeps = host_environment-KeepsValid get_line config.debug_enabled lines in
      (
        run_process rounds env s.machine,
        accepted config.valid config.filename name _ v f
            ∙ ap
                (λ o. elim o [
                  | none ↦ Outcome.undefined
                  | some m ↦
                      Outcome.runs
                        (run_process rounds (host_environment get_line config.debug_enabled) m)
                ])
                s.booted,
        run_process-IsValid env keeps rounds s.machine s.valid,
      )
