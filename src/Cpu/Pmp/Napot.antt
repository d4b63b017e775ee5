-- ===== src/Cpu/Pmp/Napot.antt =====
-- The NAPOT encoding of `checkPMP`: trailing ones give the size of a naturally aligned region.
use rv64i_simulator.Base.{
  ℕ, zero, suc, ◌+◌, ◌-◌, ◌*◌, ◌/◌, ◌%◌, ◌^◌, ◌<◌, ◌≤◌, ◌≡◌, ◌↔◌, true, bit_and, ◌<<<◌, arith,
  any_set, ones64, u64, ◌∙◌, ap, ==_iff,
}
use native.Mathlib.Nat.{pow-suc, pow-le-pow_right}
use rv64i_simulator.Base.Bits.{bit_and_mask, pow-pos, bit_and_complement, mod_of_fields}
use rv64i_simulator.Cpu.Pmp.{trailing_mask, napot_match}

-- A number with `k` trailing ones, and a zero above them.
abbrev pub with_trailing : ℕ → ℕ → ℕ
with_trailing q k = q * 2 ^ suc k + (2 ^ k - 1)

half-with_trailing :
    (q k : ℕ)
    → (with_trailing q (suc k) / 2 ≡ with_trailing q k) × (with_trailing q (suc k) % 2 ≡ 1)
half-with_trailing q k =
    let e : with_trailing q (suc k) ≡ 2 * with_trailing q k + 1 =
      simp pow-suc (omega (arith, pow-pos k)) in
    (omega arith, omega arith)

trailing_mask_lem :
    (k fuel q mask : ℕ)
    → k < fuel
    → trailing_mask fuel (with_trailing q k) (u64 mask) ≡ u64 (mask * 2 ^ k)
unfolding trailing_mask
trailing_mask_lem k zero q mask h = absurd (omega arith)
trailing_mask_lem zero (suc fuel) q mask h = ground (arith, bit_and_mask 1 (with_trailing q zero))
trailing_mask_lem (suc k) (suc fuel) q mask h =
    let e = half-with_trailing q k in
    let odd : any_set (with_trailing q (suc k)) 1 ≡ true =
      ground (arith, e, bit_and_mask 1 (with_trailing q (suc k))) in
    let m : u64 (u64 mask * 2) ≡ u64 (mask * 2) = omega arith in
    rw (odd, e.0, m)
      (trailing_mask_lem k fuel q (mask * 2) (omega arith) ∙ rw (pow-suc 2 k) (omega arith))

-- The mask of a NAPOT register clears the bits of the offset within its region.
napot_mask :
    (k q : ℕ)
    → k < 64
    → u64 (trailing_mask 64 (with_trailing q k) ones64 <<< 1) ≡ 2 ^ 64 - 2 ^ suc k
napot_mask k q h =
    let small : 2 ^ suc k ≤ 2 ^ 64 = pow-le-pow_right (omega arith) {j = 64} (omega arith) in
    rw (trailing_mask_lem k 64 q ones64 h) (omega (arith, pow-suc 2 k, pow-pos k))

-- Such a mask keeps the part of a word above position `n`.
and_high : (n x : ℕ) → n ≤ 64 → x < 2 ^ 64 → bit_and x (2 ^ 64 - 2 ^ n) + x % 2 ^ n ≡ x
and_high n x h b =
    let small : 2 ^ n ≤ 2 ^ 64 = pow-le-pow_right (omega arith) h in
    let pos : 0 < 2 ^ n = pow-pos n in
    let e : 2 ^ 64 - 2 ^ n ≡ 2 ^ 64 - 1 - (2 ^ n - 1) = omega arith in
    rw (e, ← bit_and_mask n x) (bit_and_complement 64 x (2 ^ n - 1) b (omega arith))

-- The multiples of `2 ^ n` that a word stands above.
same_block : (n q x : ℕ) → (x ≡ q * 2 ^ n + x % 2 ^ n) ↔ (q * 2 ^ n ≤ x) × (x < q * 2 ^ n + 2 ^ n)
same_block n q x = (
  λ e. (omega arith, omega (arith, pow-pos n)),
  λ h.
      let e : q * 2 ^ n + (x - q * 2 ^ n) ≡ x = omega arith in
      let r = mod_of_fields n q (x - q * 2 ^ n) (omega arith) in ground (arith, r, e),
)

-- The mask loop for a NAPOT register with k < 64 trailing ones matches a 64-bit address exactly
-- when the address is in the aligned region of 2^(k+3) bytes that the register's upper bits name.
pub napot_match-region :
    (k q addr : ℕ)
    → k < 64
    → with_trailing q k < 2 ^ 64
    → addr < 2 ^ 64
    → (napot_match (with_trailing q k) addr ≡ true)
      ↔ (q * (8 * 2 ^ k) ≤ addr) × (addr < (q + 1) * (8 * 2 ^ k))
unfolding napot_match
napot_match-region k q addr h b c =
    let p = pow-suc 2 k in
    let hi = and_high (suc k) (addr / 4) (omega arith) (omega arith) in
    let ha = and_high (suc k) (with_trailing q k) (omega arith) b in
    let low = mod_of_fields (suc k) q (2 ^ k - 1) (omega (arith, pow-pos k)) in
    let block = same_block (suc k) q (addr / 4) in
    let qp = ap (λ (t : ℕ). q * t) p in
    rw (napot_mask k q h) (
      λ e. let s = block.0 (omega (arith, (==_iff _ _).0 e)) in (omega arith, omega arith),
      λ r. (==_iff _ _).1 (omega (arith, block.1 (omega arith, omega arith))),
    )
