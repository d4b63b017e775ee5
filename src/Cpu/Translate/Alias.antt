-- ===== src/Cpu/Translate/Alias.antt =====
-- The upper 25 bits of a virtual address play no part in its translation. Sv39 wants them to be copies of
-- bit 38, and has a page fault otherwise; the code does not look at them.
use rv64i_simulator.Base.{
  ℕ, zero, suc, ◌+◌, ◌*◌, ◌/◌, ◌%◌, ◌^◌, ◌<◌, ◌≤◌, ◌≡◌, sym, ◌∙◌, ap, subst, some, ◌↔◌, u64, arith,
}
use rv64i_simulator.Machine.{AccessType, Machine, supervisor_mode}
use rv64i_simulator.Bus.Read.{read_double}
use rv64i_simulator.Cpu.Translate.{translate}
use rv64i_simulator.Cpu.Translate.Sv39.{Reads, Maps, leaf, down, page_bytes, base}
use rv64i_simulator.Cpu.Translate.Spec.{translate-Maps_iff}

module _ (v w : ℕ) (same : v % 2 ^ 39 ≡ w % 2 ^ 39) where
  same_index : (i : ℕ) → i ≤ 2 → v / 2 ^ (12 + 9 * i) % 512 ≡ w / 2 ^ (12 + 9 * i) % 512
  same_index zero h = omega arith
  same_index (suc zero) h = omega arith
  same_index (suc (suc zero)) h = omega arith
  same_index (suc (suc (suc i))) h = absurd (omega arith)

  same_offset : (i : ℕ) → i ≤ 2 → v % page_bytes i ≡ w % page_bytes i
  same_offset zero h = omega arith
  same_offset (suc zero) h = omega arith
  same_offset (suc (suc zero)) h = omega arith
  same_offset (suc (suc (suc i))) h = absurd (omega arith)

  module _ (m : Machine) (type : AccessType) where
    same_read : (i a pte : ℕ) → i ≤ 2 → Reads m v i a pte → Reads m w i a pte
    same_read i a pte h r =
        subst (λ k. read_double (u64 (a + k * 8)) m ≡ (pte, m)) (same_index i h) r

    same_map : {i a p : ℕ} → i ≤ 2 → Maps m v type i a p → Maps m w type i a p
    same_map {i} {a} {p} h (leaf pte r valid is_leaf allows aligned e) =
        leaf pte (same_read i a pte h r) valid is_leaf allows aligned
          (e ∙ ap (λ k. base pte + k) (same_offset i h))
    same_map {i} {a} {p} h (down pte e r valid pointer maps) =
        down pte e (same_read i a pte h r) valid pointer (same_map (omega arith) maps)

-- In supervisor mode with satp's mode field 8 and a 64-bit satp, two 64-bit addresses that agree
-- in their lower 39 bits translate to the same physical addresses, canonical or not, where Sv39
-- has a page fault for those that are not.
pub translate_alias :
    (m : Machine) (v w p : ℕ) (type : AccessType)
    → v < 2 ^ 64
    → w < 2 ^ 64
    → v % 2 ^ 39 ≡ w % 2 ^ 39
    → m.mode ≡ supervisor_mode
    → m.csrs.satp < 2 ^ 64
    → m.csrs.satp / 2 ^ 60 ≡ 8
    → (translate v type m ≡ (some p, m)) ↔ (translate w type m ≡ (some p, m))
translate_alias m v w p type a b same s fits e =
    let one = translate-Maps_iff m v p type a s fits e in
    let other = translate-Maps_iff m w p type b s fits e in
    (
      λ t. other.1 (same_map v w same m type (omega arith) (one.0 t)),
      λ t. one.1 (same_map w v (sym same) m type (omega arith) (other.0 t)),
    )
