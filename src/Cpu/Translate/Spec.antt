-- ===== src/Cpu/Translate/Spec.antt =====
-- The page-table walk of the code against the walk of Sv39 as a relation, which has no canonical-address
-- check, A and D bits, SUM and MXR.
mod Leaf
use rv64i_simulator.Base.{
  ℕ, zero, suc, ◌+◌, ◌-◌, ◌*◌, ◌/◌, ◌%◌, ◌^◌, ◌<◌, ◌≤◌, ◌≡◌, ◌≢◌, ◌⊎◌, inl, inr, refl, Bool, true,
  false, Option, none, some, ◌==◌, ltb, if◌then◌else◌, bit_and, ◌>>>◌, ◌<<<◌, arith, u64, ap, sym,
  ◌∙◌, Bool-cases, ◌↔◌,
}
use rv64i_simulator.Machine.{
  AccessType, load, store, fetch, Machine, user_mode, supervisor_mode, machine_mode,
}
use rv64i_simulator.Bus.Read.{read_double}
use rv64i_simulator.Cpu.Translate.{
  translate, walk, walk_entry, page_fault, pte_invalid, pte_leaf, leaf_refused, leaf_address,
  pte_ppn, vpn, page_size,
}
use rv64i_simulator.Cpu.Translate.Modes.{translate_modes}
use rv64i_simulator.Cpu.Translate.Sv39.{
  page_bytes, Maps, leaf, down, pte_invalid_iff, pte_leaf_iff, pte_leaf-Pointer_iff,
  leaf_refused_iff, pte_ppn_lem, vpn_lem, base,
}
use Leaf.{leaf_address_lem}

-- The entry for `vaddr` in the table at `a` of level `i` is `pte`, and reading it changes nothing.
abbrev Finds : Machine → ℕ → ℕ → ℕ → ℕ → Type 0
Finds m vaddr i a pte = read_double (u64 (a + vpn vaddr i * 8)) m ≡ (pte, m)

-- What the walk finds, in the code's own tests.
data Walks (m : Machine) (vaddr : ℕ) (type : AccessType) : ℕ → ℕ → ℕ → Type 0 where
  at_page :
      {i a p : ℕ} (pte : ℕ)
      → Finds m vaddr i a pte
      → pte_invalid pte ≡ false
      → pte_leaf pte ≡ true
      → leaf_refused pte type m.mode ≡ false
      → pte_ppn pte * page_size % page_bytes i ≡ 0
      → p ≡ pte_ppn pte * page_size + vaddr % page_bytes i
      → Walks m vaddr type i a p
  at_table :
      {i j a p : ℕ} (pte : ℕ)
      → j ≡ suc i
      → Finds m vaddr j a pte
      → pte_invalid pte ≡ false
      → pte_leaf pte ≡ false
      → Walks m vaddr type i (pte_ppn pte * page_size) p
      → Walks m vaddr type j a p

module _ (m : Machine) (vaddr : ℕ) (type : AccessType) (fits : vaddr < 2 ^ 64) where
  at_leaf :
      (i pte p : ℕ) (next : Machine → Option ℕ × Machine)
      → i ≤ 2
      → pte_invalid pte ≡ false
      → pte_leaf pte ≡ true
      → leaf_refused pte type m.mode ≡ false
      → pte_ppn pte * page_size % page_bytes i ≡ 0
      → p ≡ pte_ppn pte * page_size + vaddr % page_bytes i
      → walk_entry vaddr type i pte next m ≡ (some p, m)
  unfolding walk_entry
  at_leaf i pte p next h v l r al e =
      rw (v, l, r, (leaf_address_lem vaddr i pte p h fits).1 (al, e))

  from_leaf :
      (i a pte p : ℕ)
      → i ≤ 2
      → Finds m vaddr i a pte
      → pte_invalid pte ≡ false
      → pte_leaf pte ≡ true
      → leaf_refused pte type m.mode ≡ false
      → pte_ppn pte * page_size % page_bytes i ≡ 0
      → p ≡ pte_ppn pte * page_size + vaddr % page_bytes i
      → walk i vaddr type a m ≡ (some p, m)
  unfolding walk
  from_leaf zero a pte p h rd v l r al e = rw rd (at_leaf zero pte p _ h v l r al e)
  from_leaf (suc i) a pte p h rd v l r al e = rw rd (at_leaf (suc i) pte p _ h v l r al e)

  from_down :
      (i a pte : ℕ)
      → Finds m vaddr (suc i) a pte
      → pte_invalid pte ≡ false
      → pte_leaf pte ≡ false
      → walk (suc i) vaddr type a m ≡ walk i vaddr type (pte_ppn pte * page_size) m
  unfolding walk walk_entry
  from_down i a pte rd v l = rw rd (rw (v, l))

  -- An address that the relation maps is translated so, and the machine is left as it was.
  walk_complete :
      {i a p : ℕ} → i ≤ 2 → Walks m vaddr type i a p → walk i vaddr type a m ≡ (some p, m)
  walk_complete h (at_page {i} {a} {p} pte rd v l r al e) = from_leaf i a pte p h rd v l r al e
  walk_complete h (at_table {i} {j} {a} {p} pte s rd v l below) =
      rw s (from_down i a pte (rw s at rd) v l ∙ walk_complete (omega arith) below)

  -- What an entry of a successful walk must be: an aligned leaf that allows the access, or a pointer.
  entry_sound :
      (i pte p : ℕ) (next : Machine → Option ℕ × Machine) (s t : Machine)
      → i ≤ 2
      → walk_entry vaddr type i pte next s ≡ (some p, t)
      → (pte_invalid pte ≡ false)
        × ((pte_leaf pte ≡ true)
              × (leaf_refused pte type s.mode ≡ false)
              × (leaf_address vaddr i pte ≡ some p)
              × (t ≡ s)
            ⊎ (pte_leaf pte ≡ false) × (next s ≡ (some p, t)))
  unfolding walk_entry page_fault
  entry_sound i pte p next s t h e = elim (Bool-cases (pte_invalid pte)) [
    | inl bad ↦ absurd (cc (ap (λ (x : Option ℕ × Machine). x.0) (rw bad at e)))
    | inr ok ↦ (
      ok,
      elim (Bool-cases (pte_leaf pte)) [
        | inl is_leaf ↦ inl (is_leaf, ground arith, ground arith, ground arith)
        | inr pointer ↦ inr (pointer, rw (ok, pointer) at e)
      ],
    )
  ]

  -- A failed read gives 0, and any other leaves the machine as it was.
  read_double_cases :
      (a : ℕ) → (read_double a m ≡ ((read_double a m).0, m)) ⊎ ((read_double a m).0 ≡ 0)
  unfolding read_double
  read_double_cases a = ground arith

  no_fault : (p : ℕ) (t : Machine) → page_fault type vaddr m ≡ (some p, t) → ⊥
  unfolding page_fault
  no_fault p t e = cc (ap (λ (x : Option ℕ × Machine). x.0) e)

  zero_invalid : (pte : ℕ) → pte ≡ 0 → pte_invalid pte ≡ false → ⊥
  unfolding pte_invalid
  zero_invalid pte z ok = cc (rw z at ok)

  -- Conversely, if the walk yields an address then the relation maps to it, and the machine is
  -- left as it was.
  walk_sound :
      (i a p : ℕ) (t : Machine)
      → i ≤ 2
      → walk i vaddr type a m ≡ (some p, t)
      → Walks m vaddr type i a p × (t ≡ m)
  unfolding walk
  walk_sound zero a p t h e = elim (read_double_cases (u64 (a + vpn vaddr 0 * 8))) [
    | inl same ↦
        let (ok, rest) = entry_sound 0 _ p _ m t h (rw same at e) in
        elim rest [
          | inl (l, r, addr, back) ↦
              let (al, eq) = (leaf_address_lem vaddr 0 _ p h fits).0 addr in
              (at_page _ same ok l r al eq, back)
          | inr (l, more) ↦ absurd (no_fault p t more)
        ]
    | inr failed ↦ absurd (zero_invalid _ failed (entry_sound 0 _ p _ _ t h e).0)
  ]
  walk_sound (suc i) a p t h e = elim (read_double_cases (u64 (a + vpn vaddr (suc i) * 8))) [
    | inl same ↦
        let (ok, rest) = entry_sound (suc i) _ p _ m t h (rw same at e) in
        elim rest [
          | inl (l, r, addr, back) ↦
              let (al, eq) = (leaf_address_lem vaddr (suc i) _ p h fits).0 addr in
              (at_page _ same ok l r al eq, back)
          | inr (l, more) ↦
              let (below, back) = walk_sound i _ p t (omega arith) more in
              (at_table _ refl same ok l below, back)
        ]
    | inr failed ↦ absurd (zero_invalid _ failed (entry_sound (suc i) _ p _ _ t h e).0)
  ]

module _ (m : Machine) (vaddr : ℕ) (type : AccessType) (mode : m.mode ≡ supervisor_mode) where
  -- The walk finds what the rules say, and the other way round.
  rules_of_walk : {i a p : ℕ} → Walks m vaddr type i a p → Maps m vaddr type i a p
  rules_of_walk (at_page {i} pte rd v l r al e) =
      leaf pte (rw (vpn_lem vaddr i) at rd) ((pte_invalid_iff pte).0 v) ((pte_leaf_iff pte).0 l)
        ((leaf_refused_iff pte type).0 (rw mode at r)) (rw (pte_ppn_lem pte) at al)
        (rw (pte_ppn_lem pte) at e)
  rules_of_walk (at_table {i} {j} pte s rd v l below) =
      down pte s (rw (vpn_lem vaddr j) at rd) ((pte_invalid_iff pte).0 v)
        ((pte_leaf-Pointer_iff pte).0 l) (rw (pte_ppn_lem pte) at (rules_of_walk below))

  walk_of_rules : {i a p : ℕ} → Maps m vaddr type i a p → Walks m vaddr type i a p
  walk_of_rules (leaf {i} pte rd v l r al e) =
      at_page pte (rw (← vpn_lem vaddr i) at rd) ((pte_invalid_iff pte).1 v)
        ((pte_leaf_iff pte).1 l) (rw mode ((leaf_refused_iff pte type).1 r))
        (rw (pte_ppn_lem pte) al) (rw (pte_ppn_lem pte) e)
  walk_of_rules (down {i} {j} pte s rd v l below) =
      at_table pte s (rw (← vpn_lem vaddr j) at rd) ((pte_invalid_iff pte).1 v)
        ((pte_leaf-Pointer_iff pte).1 l) (rw (pte_ppn_lem pte) (walk_of_rules below))

-- In supervisor mode with satp's mode field 8 and 64-bit values, translate yields a physical
-- address and leaves the machine as it was exactly when the three-level page-table walk of Sv39,
-- stated as a relation on the bits of the entries (V, R, W, X, U, the page numbers and the
-- alignment of large pages), maps the address to it for this kind of access. The relation has no
-- canonical-address check, A and D bits, SUM and MXR, as the code has none.
pub translate-Maps_iff :
    (m : Machine) (vaddr p : ℕ) (type : AccessType)
    → vaddr < 2 ^ 64
    → m.mode ≡ supervisor_mode
    → m.csrs.satp < 2 ^ 64
    → m.csrs.satp / 2 ^ 60 ≡ 8
    → (translate vaddr type m ≡ (some p, m))
      ↔ Maps m vaddr type 2 (m.csrs.satp % 2 ^ 44 * page_size) p
translate-Maps_iff m vaddr p type fits s b e =
    let modes : translate vaddr type m ≡ walk 2 vaddr type (m.csrs.satp % 2 ^ 44 * page_size) m =
      ground (arith, translate_modes vaddr type m) in
    rw modes (
      λ w. rules_of_walk m vaddr type s (walk_sound m vaddr type fits 2 _ p m (omega arith) w).0,
      λ maps. walk_complete m vaddr type fits (omega arith) (walk_of_rules m vaddr type s maps),
    )
