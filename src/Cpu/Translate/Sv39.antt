-- ===== src/Cpu/Translate/Sv39.antt =====
-- The page-table walk of Sv39 for an access in supervisor mode, on the bits of page-table entries, as a
-- relation. Of the rules of Sv39 it leaves out those that the code does not have: the address must be
-- canonical, the A and D bits, SUM and MXR.
-- An entry keeps V, R, W, X and U in its bits 0 to 4, and a page number of 44 bits from bit 10 on.
use rv64i_simulator.Base.{ℕ, suc, ◌+◌, ◌*◌, ◌/◌, ◌%◌, ◌^◌, ◌≡◌, ◌⊎◌, ◌↔◌, true, false, u64, arith}
use rv64i_simulator.Base.Bits.{bit_and_mask, bit_and_field}
use rv64i_simulator.Machine.{AccessType, load, store, fetch, Machine, supervisor_mode}
use rv64i_simulator.Bus.Read.{read_double}
use rv64i_simulator.Cpu.Translate.{pte_invalid, pte_leaf, leaf_refused, pte_ppn, vpn}

abbrev pub bit : ℕ → ℕ → ℕ
bit k pte = pte / 2 ^ k % 2

-- The bit that grants an access.
abbrev pub permission : AccessType → ℕ
permission load = 1
permission store = 2
permission fetch = 3

abbrev pub Valid : ℕ → Type 0
Valid pte = (bit 0 pte ≡ 1) × (bit 1 pte ≡ 1 ⊎ bit 2 pte ≡ 0)

abbrev pub Leaf : ℕ → Type 0
Leaf pte = bit 1 pte ≡ 1 ⊎ bit 2 pte ≡ 1 ⊎ bit 3 pte ≡ 1

abbrev pub Pointer : ℕ → Type 0
Pointer pte = (bit 1 pte ≡ 0) × (bit 2 pte ≡ 0) × (bit 3 pte ≡ 0)

-- The access is granted, and the page is not a user page.
abbrev pub Allows : AccessType → ℕ → Type 0
Allows type pte = (bit (permission type) pte ≡ 1) × (bit 4 pte ≡ 0)

-- Where the page or the table begins that an entry points to.
abbrev pub base : ℕ → ℕ
base pte = pte / 2 ^ 10 % 2 ^ 44 * 4096

-- 4 KiB, 2 MiB and 1 GiB.
abbrev pub page_bytes : ℕ → ℕ
page_bytes i = 2 ^ (12 + 9 * i)

-- The table at `a` has the entry `pte` for the address at level `i`, and reading it raises no trap.
abbrev pub Reads : Machine → ℕ → ℕ → ℕ → ℕ → Type 0
Reads m vaddr i a pte = read_double (u64 (a + vaddr / 2 ^ (12 + 9 * i) % 512 * 8)) m ≡ (pte, m)

-- `Maps m vaddr type i a p`: from the table at `a` of level `i` the address translates to `p`. A leaf is
-- valid, allows the access and is aligned to its page size, and the physical address is the page's,
-- plus the offset of `vaddr` within a page of that size.
pub data Maps (m : Machine) (vaddr : ℕ) (type : AccessType) : ℕ → ℕ → ℕ → Type 0 where
  leaf :
      {i a p : ℕ} (pte : ℕ)
      → Reads m vaddr i a pte
      → Valid pte
      → Leaf pte
      → Allows type pte
      → base pte % page_bytes i ≡ 0
      → p ≡ base pte + vaddr % page_bytes i
      → Maps m vaddr type i a p
  down :
      {i j a p : ℕ} (pte : ℕ)
      → j ≡ suc i
      → Reads m vaddr j a pte
      → Valid pte
      → Pointer pte
      → Maps m vaddr type i (base pte) p
      → Maps m vaddr type j a p

-- The tests of the code are those of the rules.
pub pte_invalid_iff : (pte : ℕ) → (pte_invalid pte ≡ false) ↔ Valid pte
unfolding pte_invalid
pte_invalid_iff pte =
    ground (arith, bit_and_field 0 1 pte, bit_and_field 1 1 pte, bit_and_field 2 1 pte)

pub pte_leaf_iff : (pte : ℕ) → (pte_leaf pte ≡ true) ↔ Leaf pte
unfolding pte_leaf
pte_leaf_iff pte =
    ground (arith, bit_and_field 1 1 pte, bit_and_field 2 1 pte, bit_and_field 3 1 pte)

pub pte_leaf-Pointer_iff : (pte : ℕ) → (pte_leaf pte ≡ false) ↔ Pointer pte
unfolding pte_leaf
pte_leaf-Pointer_iff pte =
    ground (arith, bit_and_field 1 1 pte, bit_and_field 2 1 pte, bit_and_field 3 1 pte)

pub leaf_refused_iff :
    (pte : ℕ) (type : AccessType)
    → (leaf_refused pte type supervisor_mode ≡ false) ↔ Allows type pte
unfolding leaf_refused
leaf_refused_iff pte load = ground (arith, bit_and_field 1 1 pte, bit_and_field 4 1 pte)
leaf_refused_iff pte store = ground (arith, bit_and_field 2 1 pte, bit_and_field 4 1 pte)
leaf_refused_iff pte fetch = ground (arith, bit_and_field 3 1 pte, bit_and_field 4 1 pte)

pub pte_ppn_lem : (pte : ℕ) → pte_ppn pte ≡ pte / 2 ^ 10 % 2 ^ 44
unfolding pte_ppn
pte_ppn_lem pte = bit_and_mask 44 (pte / 2 ^ 10)

pub vpn_lem : (vaddr i : ℕ) → vpn vaddr i ≡ vaddr / 2 ^ (12 + 9 * i) % 512
unfolding vpn
vpn_lem vaddr i = bit_and_mask 9 (vaddr / 2 ^ (12 + 9 * i))
