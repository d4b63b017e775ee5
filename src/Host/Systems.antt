-- ===== src/Host/Systems.antt =====
-- include/systems/DefaultSystem.h and OpenSBISystem.h: how each system places the program and sets the
-- machine up. Debug output is left out.
use rv64i_simulator.Base.{
  ℕ, zero, suc, ◌+◌, true, Option, none, some, List, ◌==◌, if◌then◌else◌, bit_or, ◌<<<◌, u64,
  update,
}
use rv64i_simulator.Base.Int.{ℤ, pos, negsuc}
use rv64i_simulator.Memory.{get_size}
use rv64i_simulator.Machine.{Machine, text, int, print}
use rv64i_simulator.Bus.Write.{write_byte}
use rv64i_simulator.Cpu.Csr.{write_csr}
use rv64i_simulator.Output.{codes, int64_to_hex}
use rv64i_simulator.Tree.{Libfdt, generate_isa_string, build}
use rv64i_simulator.Host.CommandLine.{SystemType}
use rv64i_simulator.Host.Loader.{print_codes, load_beside}

-- `getRamBase`, the same for both.
abbrev pub system_ram_base : ℕ
system_ram_base = 0x8000_0000

unfoldable pub payload_location : SystemType → ℕ
payload_location SystemType.default = system_ram_base
payload_location SystemType.open_sbi = 0x8020_0000

abbrev pub set_register : ℕ → ℕ → Machine → Machine
set_register i value m = record m { registers = update m.registers i value }

unfoldable pub boot_default : Machine → Machine
boot_default m = set_register 2 (get_size m.ram) (record m { program_counter = system_ram_base })

abbrev pub dtb_address : ℕ
dtb_address = system_ram_base + 0x220_0000

-- `RV64 | I | M | A | C | S | U | F`.
abbrev pub system_misa : ℕ
system_misa =
    bit_or
      (bit_or
        (bit_or
          (bit_or (bit_or (bit_or (bit_or (2 <<< 62) (1 <<< 8)) (1 <<< 12)) (1 <<< 0)) (1 <<< 2))
          (1 <<< 18))
        (1 <<< 20))
      (1 <<< 5)

-- The part of `boot` before the device tree.
unfoldable pub set_up : Machine → Machine
set_up m =
    let m1 =
      print (text " bytes of virtual memory. \n")
        (print (int (get_size m.ram)) (print (text "Booting with ") m)) in
    let m2 = record m1 { program_counter = system_ram_base; misa = system_misa } in
    let m3 =
      write_csr 0x3b0 0xffff_ffff_ffff_ffff
        (write_csr 0x3a0 0x1f (write_csr 0x300 (3 <<< 11) m2)) in
    let m4 =
      print_codes (int64_to_hex dtb_address)
        (print (text "DTB Loaded at: ") (set_register 10 0 m3)) in
    set_register 2 dtb_address (set_register 11 dtb_address m4)

-- The loop that copies the device tree, with `n` bytes to go.
unfoldable pub copy_tree : (ℕ → ℕ) → ℕ → ℕ → Machine → Machine
copy_tree fdt_buf i zero m = m
copy_tree fdt_buf i (suc n) m =
    copy_tree fdt_buf (i + 1) n (write_byte (u64 (dtb_address + i)) (fdt_buf i) m)

-- The part of `boot` after the device tree, of `fdt_size` bytes.
unfoldable pub load_firmware : (List ℕ → Option (List ℕ)) → List ℕ → (ℕ → ℕ) → ℕ → Machine → Machine
load_firmware files program fdt_buf fdt_size m =
    let (bios_loaded, m1) =
      load_beside files program system_ram_base (codes "bin/fw_jump.bin") true m in
    let m2 =
      if bios_loaded == 0 then print (text "No bin/fw_jump.bin file available.") m1 else m1 in
    copy_tree fdt_buf 0 fdt_size m2

-- `if (fdt_size <= 0) return;`
unfoldable pub after_tree : (List ℕ → Option (List ℕ)) → List ℕ → (ℕ → ℕ) → ℤ → Machine → Machine
after_tree files program fdt_buf (pos zero) m = m
after_tree files program fdt_buf (pos (suc n)) m = load_firmware files program fdt_buf (suc n) m
after_tree files program fdt_buf (negsuc n) m = m

-- `none`: a text that leaves its buffer.
unfoldable pub boot_open_sbi :
    Libfdt → (List ℕ → Option (List ℕ)) → List ℕ → Machine → Option Machine
boot_open_sbi fdt files program m =
    let m1 = set_up m in
    elim (generate_isa_string system_misa 32) [
      | none ↦ none
      | some system_isa ↦
          elim (build fdt 4096 system_ram_base (get_size m.ram) 0x1000_0000 0x200_0000 system_isa) [
            | none ↦ none
            | some (fdt_buf, fdt_size) ↦ some (after_tree files program fdt_buf fdt_size m1)
          ]
    ]

unfoldable pub boot :
    SystemType → Libfdt → (List ℕ → Option (List ℕ)) → List ℕ → Machine → Option Machine
boot SystemType.default fdt files program m = some (boot_default m)
boot SystemType.open_sbi fdt files program m = boot_open_sbi fdt files program m
