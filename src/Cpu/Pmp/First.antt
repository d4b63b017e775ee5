-- ===== src/Cpu/Pmp/First.antt =====
-- `checkPMP`: the entry with the least number that covers the address decides.
use rv64i_simulator.Base.{
  ℕ, zero, suc, ◌+◌, ◌<◌, ◌≤◌, ◌≡◌, refl, Bool, true, false, ◌&&◌, not, ◌==◌, bit_and, ◌>>>◌, arith,
  any_set, ◌∙◌,
}
use rv64i_simulator.Machine.{AccessType, load, Machine, machine_mode}
use rv64i_simulator.Cpu.Pmp.{entry_cfg, entry_match, entry_grants, check_entries, check_pmp}

-- The address-matching mode of an entry, and whether the entry covers an address.
abbrev pub entry_mode : Machine → ℕ → ℕ
entry_mode m i = bit_and (entry_cfg m.csrs i >>> 3) 0x3

abbrev pub covers : Machine → ℕ → ℕ → Bool
covers m addr i = not (entry_mode m i == 0) && entry_match m.csrs i (entry_mode m i) addr

module _ (m : Machine) (addr : ℕ) (type : AccessType) where
  skip :
      (left i : ℕ)
      → covers m addr i ≡ false
      → check_entries (suc left) i m addr type ≡ check_entries left (i + 1) m addr type
  unfolding check_entries
  skip left i h = ground arith

  stop :
      (left i : ℕ)
      → covers m addr i ≡ true
      → check_entries (suc left) i m addr type ≡ entry_grants (entry_cfg m.csrs i) m.mode type
  unfolding check_entries
  stop left i h = ground arith

  reaches :
      (left i d t : ℕ)
      → i + d ≡ t
      → d < left
      → ((j : ℕ) → i ≤ j → j < t → covers m addr j ≡ false)
      → covers m addr t ≡ true
      → check_entries left i m addr type ≡ entry_grants (entry_cfg m.csrs t) m.mode type
  reaches zero i d t e h none hit = absurd (omega arith)
  reaches (suc left) i zero t e h none hit =
      let s : i ≡ t = omega arith in rw (← s) (stop left i (rw s hit))
  reaches (suc left) i (suc d) t e h none hit =
      skip left i (none i (omega arith) (omega arith))
      ∙ reaches left (i + 1) d t (omega arith) (omega arith) (λ j p q. none j (omega arith) q) hit

  falls_through :
      (left i : ℕ)
      → ((j : ℕ) → i ≤ j → j < i + left → covers m addr j ≡ false)
      → check_entries left i m addr type ≡ (m.mode == machine_mode)
  unfolding check_entries
  falls_through zero i none = refl
  falls_through (suc left) i none =
      skip left i (none i (omega arith) (omega arith))
      ∙ falls_through left (i + 1) (λ j p q. none j (omega arith) (omega arith))

-- If a PMP entry covers the address and no entry with a smaller number does, its lock and
-- permission bits alone decide the access.
pub check_pmp-first :
    (m : Machine) (addr : ℕ) (type : AccessType) (i : ℕ)
    → i < 64
    → covers m addr i ≡ true
    → ((j : ℕ) → j < i → covers m addr j ≡ false)
    → check_pmp addr type m ≡ entry_grants (entry_cfg m.csrs i) m.mode type
unfolding check_pmp
check_pmp-first m addr type i h hit none =
    reaches m addr type 64 0 i i (omega arith) h (λ j p q. none j q) hit

-- If none of the 64 PMP entries covers the address, access is granted exactly in machine mode.
pub check_pmp_none :
    (m : Machine) (addr : ℕ) (type : AccessType)
    → ((j : ℕ) → j < 64 → covers m addr j ≡ false)
    → check_pmp addr type m ≡ (m.mode == machine_mode)
unfolding check_pmp
check_pmp_none m addr type none = falls_through m addr type 64 0 (λ j p q. none j (omega arith))

unlocked_grants :
    (cfg : ℕ) (type : AccessType)
    → any_set cfg 0x80 ≡ false
    → entry_grants cfg machine_mode type ≡ true
unfolding entry_grants
unlocked_grants cfg load h = rw h
unlocked_grants cfg type h = rw h

unlocked_from :
    (m : Machine) (addr : ℕ) (type : AccessType) (left i : ℕ)
    → m.mode ≡ machine_mode
    → ((j : ℕ) → any_set (entry_cfg m.csrs j) 0x80 ≡ false)
    → check_entries left i m addr type ≡ true
unfolding check_entries
unlocked_from m addr type zero i k h = rw k
unlocked_from m addr type (suc left) i k h = ground (
  arith,
  h i,
  unlocked_grants (entry_cfg m.csrs i) type,
  unlocked_from m addr type left (i + 1) k h,
)

-- In machine mode, while no PMP entry is locked, every access to every address is granted.
pub check_pmp_unlocked :
    (m : Machine) (addr : ℕ) (type : AccessType)
    → m.mode ≡ machine_mode
    → ((j : ℕ) → any_set (entry_cfg m.csrs j) 0x80 ≡ false)
    → check_pmp addr type m ≡ true
unfolding check_pmp
check_pmp_unlocked m addr type k h = unlocked_from m addr type 64 0 k h
