-- ===== src/Compressed/Expand/Below.antt =====
-- A test on every number below a bound, and what it shows: the forms are few enough to be tried one by one.
use rv64i_simulator.Base.{
  ℕ, zero, suc, ◌<◌, ◌≡◌, Bool, true, false, if◌then◌else◌, arith, ◌==◌, ==_iff, Bool-cases, inl,
  inr, ap, ◌∙◌, bit_and,
}
use rv64i_simulator.Compressed.{decompress}
use rv64i_simulator.Compressed.Forms.{Rvc, expansion, encode}

unfoldable pub all_below : ℕ → (ℕ → Bool) → Bool
all_below zero p = true
all_below (suc n) p = if p n then all_below n p else false

-- Where the exception does not hold, the test of the rest does.
pub unless_lem : (b c : Bool) → (if b then true else c) ≡ true → b ≡ false → c ≡ true
unless_lem b c h e = ground arith

pub all_below_lem : (n : ℕ) (p : ℕ → Bool) → all_below n p ≡ true → (k : ℕ) → k < n → p k ≡ true
unfolding all_below
all_below_lem zero p h k q = ground arith
all_below_lem (suc n) p h k q = elim (Bool-cases (k == n)) [
  | inl e ↦ ap p ((==_iff k n).0 e) ∙ and_left (p n) (all_below n p) h
  | inr e ↦ all_below_lem n p (and_right (p n) (all_below n p) h) k (ground arith)
]
  where
    and_left : (b c : Bool) → (if b then c else false) ≡ true → b ≡ true
    and_left b c h = ground arith

    and_right : (b c : Bool) → (if b then c else false) ≡ true → c ≡ true
    and_right b c h = ground arith

-- The decompressor expands the form, and its lowest two bits are not both set.
abbrev pub Expands : Rvc → Type 0
Expands form =
    (decompress (encode form) ≡ expansion form) × ((bit_and (encode form) 0x3 == 0x3) ≡ false)

unfoldable pub agrees : Rvc → Bool
agrees form =
    if bit_and (encode form) 0x3 == 0x3 then false else decompress (encode form) == expansion form

pub agrees_lem : (form : Rvc) → agrees form ≡ true → Expands form
unfolding agrees
agrees_lem form h =
    ((==_iff (decompress (encode form)) (expansion form)).0 (ground arith), ground arith)
