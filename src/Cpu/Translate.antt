-- ===== src/Cpu/Translate.antt =====
-- `Processor::translate`: Sv39 address translation, used for instruction fetches.
pub mod Sv39
pub mod Spec
pub mod Modes
pub mod Alias
use rv64i_simulator.Base.{
  ℕ, zero, suc, ◌+◌, ◌*◌, Bool, ◌&&◌, ◌||◌, not, Option, none, some, ◌==◌, if◌then◌else◌, bit_and,
  bit_or, ◌>>>◌, ◌<<<◌, not64, u64, any_set,
}
use rv64i_simulator.Trap.{
  TrapCause, instruction_access_fault, load_access_fault, store_access_fault,
}
use rv64i_simulator.Machine.{
  AccessType, load, store, fetch, Machine, user_mode, supervisor_mode, machine_mode,
}
use rv64i_simulator.Cpu.Raise.{raise_trap}
use rv64i_simulator.Cpu.Csr.{read_csr}
use rv64i_simulator.Bus.Read.{read_double}

abbrev pub page_size : ℕ
page_size = 4096

abbrev pub ppn_mask : ℕ
ppn_mask = 0xfff_ffff_ffff

abbrev pub pte_v : ℕ
pte_v = 1

abbrev pub pte_r : ℕ
pte_r = 2

abbrev pub pte_w : ℕ
pte_w = 4

abbrev pub pte_x : ℕ
pte_x = 8

abbrev pub pte_u : ℕ
pte_u = 16

abbrev pub fault_cause : AccessType → TrapCause
fault_cause fetch = instruction_access_fault
fault_cause load = load_access_fault
fault_cause store = store_access_fault

-- `page_fault:`
unfoldable pub page_fault : AccessType → ℕ → Machine → Option ℕ × Machine
page_fault type vaddr m = (none, raise_trap (fault_cause type) m.program_counter vaddr m)

-- The entry is not valid, or writable and not readable.
unfoldable pub pte_invalid : ℕ → Bool
pte_invalid pte = bit_and pte pte_v == 0 || (bit_and pte pte_r == 0 && bit_and pte pte_w == pte_w)

unfoldable pub pte_leaf : ℕ → Bool
pte_leaf pte = any_set pte pte_r || any_set pte pte_w || any_set pte pte_x

abbrev access_bit : AccessType → ℕ
access_bit fetch = pte_x
access_bit load = pte_r
access_bit store = pte_w

-- The tests of a leaf, in the order of the code.
unfoldable pub leaf_refused : ℕ → AccessType → ℕ → Bool
leaf_refused pte type mode =
    not (any_set pte (access_bit type))
    || mode == user_mode && not (any_set pte pte_u)
    || mode == supervisor_mode && any_set pte pte_u

unfoldable pub pte_ppn : ℕ → ℕ
pte_ppn pte = bit_and (pte >>> 10) ppn_mask

-- The physical address of a leaf at level `i`; `none` is a superpage that is not aligned.
unfoldable pub leaf_address : ℕ → ℕ → ℕ → Option ℕ
leaf_address vaddr i pte =
    let offset = bit_and vaddr 0xfff in
    if i == 0
    then some (u64 (pte_ppn pte * page_size + offset))
    else (let mask : ℕ = if i == 1 then 0x1ff else 0x3ffff in
        if any_set (pte_ppn pte) mask
        then none
        else (let adjusted_ppn =
              bit_or (bit_and (pte_ppn pte) (not64 mask)) (bit_and (vaddr >>> 12) mask) in
            some (u64 (adjusted_ppn * page_size + offset))))

-- `vpn[i]`.
unfoldable pub vpn : ℕ → ℕ → ℕ
vpn vaddr i = bit_and (vaddr >>> (12 + 9 * i)) 0x1ff

-- What an entry read at level `i` leads to, `next` being the walk a level down.
unfoldable pub walk_entry :
    ℕ → AccessType → ℕ → ℕ → (Machine → Option ℕ × Machine) → Machine → Option ℕ × Machine
walk_entry vaddr type i pte next m =
    if pte_invalid pte
    then page_fault type vaddr m
    else if pte_leaf pte
    then (if leaf_refused pte type m.mode
        then page_fault type vaddr m
        else elim (leaf_address vaddr i pte) [
          | some paddr ↦ (some paddr, m)
          | none ↦ page_fault type vaddr m
        ])
    else next m

-- The loop, from level `i` with the page table at `a`.
unfoldable pub walk : ℕ → ℕ → AccessType → ℕ → Machine → Option ℕ × Machine
walk zero vaddr type a m =
    let (pte, m') = read_double (u64 (a + vpn vaddr 0 * 8)) m in
    walk_entry vaddr type 0 pte (page_fault type vaddr) m'
walk (suc i) vaddr type a m =
    let (pte, m') = read_double (u64 (a + vpn vaddr (suc i) * 8)) m in
    walk_entry vaddr type (suc i) pte (λ s. walk i vaddr type (pte_ppn pte * page_size) s) m'

-- `none` is the result `false`.
unfoldable pub translate : ℕ → AccessType → Machine → Option ℕ × Machine
translate vaddr type m =
    if m.mode == machine_mode
    then (some vaddr, m)
    else (let (satp_val, m') = read_csr 0x180 m in
        let satp_mode = bit_and satp_val (0xf <<< 60) >>> 60 in
        if satp_mode == 0
        then (some vaddr, m')
        else if not (satp_mode == 8)
        then (none, m')
        else walk 2 vaddr type (u64 (bit_and satp_val ppn_mask * page_size)) m')
