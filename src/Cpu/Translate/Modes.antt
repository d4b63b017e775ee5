-- ===== src/Cpu/Translate/Modes.antt =====
-- Where `translate` does not walk: machine mode, address translation off, and user mode.
use rv64i_simulator.Base.{
  ℕ, ◌*◌, ◌/◌, ◌%◌, ◌^◌, ◌<◌, ◌≡◌, none, some, ◌==◌, if◌then◌else◌, arith, ◌≢◌, ◌||◌,
}
use rv64i_simulator.Base.Bits.{bit_and_field, bit_and_mask}
use rv64i_simulator.Machine.{AccessType, Machine, user_mode, machine_mode, text, int, print}
use rv64i_simulator.Cpu.CsrFile.{read_csr_raw}
use rv64i_simulator.Cpu.Csr.{read_csr, raise_illegal_here}
use rv64i_simulator.Cpu.Translate.{translate, walk, page_size}

-- Outside user mode and with a 64-bit satp, translate is the identity in machine mode or with
-- satp's mode 0, a walk from level 2 with mode 8, and a refusal without a trap otherwise.
pub translate_modes :
    (vaddr : ℕ) (type : AccessType) (m : Machine)
    → m.mode ≢ user_mode
    → m.csrs.satp < 2 ^ 64
    → translate vaddr type m ≡ (
        if m.mode == machine_mode || m.csrs.satp / 2 ^ 60 == 0
        then (some vaddr, m)
        else if m.csrs.satp / 2 ^ 60 == 8
        then walk 2 vaddr type (m.csrs.satp % 2 ^ 44 * page_size) m
        else (none, m))
unfolding translate read_csr read_csr_raw
translate_modes vaddr type m u h =
    ground (arith, bit_and_field 60 4 m.csrs.satp, bit_and_mask 44 m.csrs.satp)

-- In user mode every translation prints a message, raises an illegal-instruction trap for reading
-- satp, and returns the address untranslated as a success.
pub translate_user :
    (vaddr : ℕ) (type : AccessType) (m : Machine)
    → m.mode ≡ user_mode
    → let m' =
        print (text "\n") (print (int 0x180) (print (text "Unprivileged Read Access: ") m)) in
      translate vaddr type m ≡ (some vaddr, raise_illegal_here m')
unfolding translate read_csr
translate_user vaddr type m e = ground arith
