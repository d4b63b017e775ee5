-- ===== src/Cpu/Translate/Spec/Leaf.antt =====
-- The physical address of a leaf, at each of the three page sizes.
use rv64i_simulator.Base.{
  ℕ, zero, suc, ◌+◌, ◌-◌, ◌*◌, ◌/◌, ◌%◌, ◌^◌, ◌<◌, ◌≤◌, ◌≡◌, ◌↔◌, some, bit_and, bit_or, not64,
  arith,
}
use rv64i_simulator.Base.Bits.{
  bit_and_mask, bit_and_complement, bit_and_low, bit_or-bit_and, zero-bit_and, pow-pos,
}
use native.Mathlib.Nat.{pow-le-pow_right}
use rv64i_simulator.Cpu.Translate.Sv39.{page_bytes}
use rv64i_simulator.Cpu.Translate.{leaf_address, pte_ppn, page_size}

ppn-lt : (pte : ℕ) → pte_ppn pte < 2 ^ 44
unfolding pte_ppn
ppn-lt pte = omega (arith, bit_and_mask 44 (pte / 2 ^ 10))

-- The page number with its low bits taken from the virtual address.
adjusted :
    (k ppn v : ℕ)
    → ppn < 2 ^ 64
    → k ≤ 64
    → ppn % 2 ^ k ≡ 0
    → bit_or (bit_and ppn (not64 (2 ^ k - 1))) (bit_and v (2 ^ k - 1)) ≡ ppn + v % 2 ^ k
adjusted k ppn v h b z =
    let pos = pow-pos k in
    let small : 2 ^ k ≤ 2 ^ 64 = pow-le-pow_right (omega arith) {j = 64} b in
    let kept : bit_and ppn (not64 (2 ^ k - 1)) ≡ ppn =
      omega (arith, bit_and_complement 64 ppn (2 ^ k - 1) h (omega arith), bit_and_mask k ppn) in
    let apart : bit_and ppn (v % 2 ^ k) ≡ 0 =
      rw (bit_and_low k ppn (v % 2 ^ k) (omega arith), z) (zero-bit_and _) in
    rw (kept, bit_and_mask k v) (omega (arith, bit_or-bit_and ppn (v % 2 ^ k)))

pub leaf_address_lem :
    (vaddr i pte p : ℕ)
    → i ≤ 2
    → vaddr < 2 ^ 64
    → (leaf_address vaddr i pte ≡ some p)
      ↔ (pte_ppn pte * page_size % page_bytes i ≡ 0)
        × (p ≡ pte_ppn pte * page_size + vaddr % page_bytes i)
unfolding leaf_address
leaf_address_lem vaddr zero pte p h b = ground (arith, ppn-lt pte, bit_and_mask 12 vaddr)
leaf_address_lem vaddr (suc zero) pte p h b = ground (
  arith,
  ppn-lt pte,
  bit_and_mask 12 vaddr,
  bit_and_mask 9 (pte_ppn pte),
  adjusted 9 (pte_ppn pte) (vaddr / 2 ^ 12),
)
leaf_address_lem vaddr (suc (suc zero)) pte p h b = ground (
  arith,
  ppn-lt pte,
  bit_and_mask 12 vaddr,
  bit_and_mask 18 (pte_ppn pte),
  adjusted 18 (pte_ppn pte) (vaddr / 2 ^ 12),
)
leaf_address_lem vaddr (suc (suc (suc i))) pte p h b = absurd (omega arith)
