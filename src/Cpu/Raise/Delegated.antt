-- ===== src/Cpu/Raise/Delegated.antt =====
-- The sstatus words that delegated traps and `sret` compute. Only the three bits SPP, SPIE and SIE of
-- the word count, so that eight cases decide each.
use rv64i_simulator.Base.{
  ℕ, ◌+◌, ◌/◌, ◌^◌, ◌≡◌, refl, Bool, true, false, bit_and, bit_or, ◌<<<◌, ◌>>>◌, not64, any_set,
  ◌==◌, if◌then◌else◌, arith,
}
use rv64i_simulator.Machine.{user_mode, supervisor_mode}
use rv64i_simulator.Base.Bits.{bit_and_join, bit_and_mask, bit_and_field}

-- The word with these bits.
abbrev pub status : Bool → Bool → Bool → ℕ
status spp spie sie =
    (if spp then 0x100 else 0) + (if spie then 0x20 else 0) + (if sie then 0x2 else 0)

abbrev pub bit_set : ℕ → ℕ → Bool
bit_set k s = any_set s (1 <<< k)

pub window_lem : (s : ℕ) → bit_and s 0x122 ≡ status (bit_set 8 s) (bit_set 5 s) (bit_set 1 s)
window_lem s = ground (
  arith,
  bit_and_join 8 s 1 0x22 (omega arith),
  bit_and_join 5 s 1 0x2 (omega arith),
  bit_and_mask 1 (s / 2 ^ 8),
  bit_and_mask 1 (s / 2 ^ 5),
  bit_and_field 8 1 s,
  bit_and_field 5 1 s,
  bit_and_field 1 1 s,
)

-- What `raiseTrap` makes of sstatus, cut to the window.
abbrev pub on_trap : Bool → ℕ → ℕ
on_trap from_s x =
    let sie = bit_and (x >>> 1) 0x1 in
    let cleared = bit_and x (not64 (bit_or (bit_or (1 <<< 8) (1 <<< 5)) (1 <<< 1))) in
    let saved = bit_or cleared (sie <<< 5) in if from_s then bit_or saved (1 <<< 8) else saved

pub on_trap_lem :
    (from_s spp spie sie : Bool)
    → bit_and (on_trap from_s (status spp spie sie)) 0x122 ≡ status from_s sie false
on_trap_lem true true true true = refl
on_trap_lem true true true false = refl
on_trap_lem true true false true = refl
on_trap_lem true true false false = refl
on_trap_lem true false true true = refl
on_trap_lem true false true false = refl
on_trap_lem true false false true = refl
on_trap_lem true false false false = refl
on_trap_lem false true true true = refl
on_trap_lem false true true false = refl
on_trap_lem false true false true = refl
on_trap_lem false true false false = refl
on_trap_lem false false true true = refl
on_trap_lem false false true false = refl
on_trap_lem false false false true = refl
on_trap_lem false false false false = refl

-- What `sret` makes of it.
abbrev pub on_return : ℕ → ℕ
on_return x =
    let with_sie =
      if any_set x (1 <<< 5) then bit_or x (1 <<< 1) else bit_and x (not64 (1 <<< 1)) in
    bit_and (bit_or with_sie (1 <<< 5)) (not64 (1 <<< 8))

pub on_return_lem :
    (spp spie sie : Bool) → bit_and (on_return (status spp spie sie)) 0x122 ≡ status false true spie
on_return_lem true true true = refl
on_return_lem true true false = refl
on_return_lem true false true = refl
on_return_lem true false false = refl
on_return_lem false true true = refl
on_return_lem false true false = refl
on_return_lem false false true = refl
on_return_lem false false false = refl

-- The mode that `sret` goes to.
pub return_mode :
    (spp spie sie : Bool)
    → (if bit_and (status spp spie sie) (1 <<< 8) >>> 8 == 0 then user_mode else supervisor_mode)
      ≡ (if spp then supervisor_mode else user_mode)
return_mode true true true = refl
return_mode true true false = refl
return_mode true false true = refl
return_mode true false false = refl
return_mode false true true = refl
return_mode false true false = refl
return_mode false false true = refl
return_mode false false false = refl
