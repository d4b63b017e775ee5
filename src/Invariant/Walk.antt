-- ===== src/Invariant/Walk.antt =====
-- Address translation keeps the invariant, and a translated address is a word of 64 bits.
use rv64i_simulator.Base.{
  inl, inr, ◌⊎◌, ◌≡◌, refl, ℕ, zero, suc, ◌+◌, ◌*◌, ◌^◌, ◌<◌, Bool, true, false, not, Option, none,
  some, ◌==◌, if◌then◌else◌, bit_and, ◌>>>◌, ◌<<<◌, u64, any_set, arith,
}
use rv64i_simulator.Machine.{AccessType, Machine, machine_mode}
use rv64i_simulator.Cpu.Csr.{read_csr}
use rv64i_simulator.Cpu.Translate.{
  fault_cause, page_fault, pte_invalid, pte_leaf, leaf_refused, pte_ppn, leaf_address, vpn,
  walk_entry, walk, translate,
}
use rv64i_simulator.Invariant.{IsValid, Layout}
use rv64i_simulator.Invariant.Trap.{raise_trap-IsValid}
use rv64i_simulator.Invariant.Bus.{read_csr-Gives, read_double-Gives}

abbrev pub AddressFits : Option ℕ → Type 0
AddressFits none = Unit
AddressFits (some a) = a < 2 ^ 64

pub address_cases :
    (o : Option ℕ) → AddressFits o → (o ≡ none) ⊎ ((a : ℕ) × (a < 2 ^ 64) × (o ≡ some a))
address_cases none f = inl refl
address_cases (some a) f = inr (a, f, refl)

-- What a translation gives: an address that fits, and a machine that keeps the invariant.
pub record Leads (l : Layout) (r : Option ℕ × Machine) : Type 0 where
  pub address : AddressFits r.0
  pub machine : IsValid l r.1

choose-Leads :
    {l : Layout} {x y : Option ℕ × Machine} (b : Bool)
    → Leads l x
    → Leads l y
    → Leads l (if b then x else y)
choose-Leads true p q = p
choose-Leads false p q = q

choose-Fits :
    (x y : Option ℕ) (b : Bool) → AddressFits x → AddressFits y → AddressFits (if b then x else y)
choose-Fits x y true p q = p
choose-Fits x y false p q = q

some_address : (a : ℕ) → AddressFits (some (u64 a))
some_address a = omega arith

leaf_address-Fits : (vaddr i pte : ℕ) → AddressFits (leaf_address vaddr i pte)
unfolding leaf_address
leaf_address-Fits vaddr i pte =
    let mask : ℕ = if i == 1 then 0x1ff else 0x3ffff in
    choose-Fits _ _ (i == 0) (some_address _)
      (choose-Fits none _ (any_set (pte_ppn pte) mask) tt (some_address _))

module _ {l : Layout} (vaddr : ℕ) (p : vaddr < 2 ^ 64) (type : AccessType) where
  module _ {m : Machine} (h : IsValid l m) where
    page_fault-Leads : Leads l (page_fault type vaddr m)
    unfolding page_fault
    page_fault-Leads = record {
      address = tt;
      machine = raise_trap-IsValid h (fault_cause type) m.program_counter vaddr h.program_counter p;
    }

    found-Leads :
        (o : Option ℕ)
        → AddressFits o
        → Leads l (elim o [ some a ↦ (some a, m) | none ↦ page_fault type vaddr m ])
    found-Leads none f = page_fault-Leads
    found-Leads (some a) f = record { address = f; machine = h }

    walk_entry-Leads :
        (i pte : ℕ) (next : Machine → Option ℕ × Machine)
        → Leads l (next m)
        → Leads l (walk_entry vaddr type i pte next m)
    unfolding walk_entry
    walk_entry-Leads i pte next k = choose-Leads (pte_invalid pte) page_fault-Leads (
        choose-Leads (pte_leaf pte)
          (choose-Leads (leaf_refused pte type m.mode) page_fault-Leads
            (found-Leads (leaf_address vaddr i pte) (leaf_address-Fits vaddr i pte)))
          k)

  walk-Leads : (i : ℕ) {m : Machine} (h : IsValid l m) (a : ℕ) → Leads l (walk i vaddr type a m)
  unfolding walk
  walk-Leads zero {m} h a =
      let r = read_double-Gives h (u64 (a + vpn vaddr 0 * 8)) (omega arith) in
      walk_entry-Leads r.machine 0 _ (page_fault type vaddr) (page_fault-Leads r.machine)
  walk-Leads (suc i) {m} h a =
      let r = read_double-Gives h (u64 (a + vpn vaddr (suc i) * 8)) (omega arith) in
      walk_entry-Leads r.machine (suc i) _ _ (walk-Leads i r.machine _)

  pub translate-Leads : {m : Machine} (h : IsValid l m) → Leads l (translate vaddr type m)
  unfolding translate
  translate-Leads {m} h =
      let satp_mode = bit_and (read_csr 0x180 m).0 (0xf <<< 60) >>> 60 in
      let r = read_csr-Gives h 0x180 in
      choose-Leads (m.mode == machine_mode) (record { address = p; machine = h })
        (choose-Leads (satp_mode == 0) (record { address = p; machine = r.machine })
          (choose-Leads (not (satp_mode == 8)) (record { address = tt; machine = r.machine })
            (walk-Leads 2 r.machine _)))
