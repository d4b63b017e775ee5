-- ===== src/Registry/Insert.antt =====
-- InstructionRegistry.cpp: what a registration does to every later lookup.
use rv64i_simulator.Base.{
  ℕ, zero, suc, ◌+◌, ◌-◌, ◌≤◌, ◌<◌, ◌^◌, ◌%◌, ◌≡◌, refl, sym, ap, subst, ◌∙◌, ◌⊎◌, inl, inr, Bool,
  true, false, Option, none, some, ◌==◌, ==_ne, ==_refl, if◌then◌else◌, bit_and, update, Bool-cases,
  ltb, ltb→lt, arith,
}
use rv64i_simulator.Base.Bits.{bit_and_mask, bit_and_split}
use rv64i_simulator.Registry.{ExecFunc, Entry, Table, home, register_inst, free_slot, lookup}
use rv64i_simulator.Registry.Probe.{
  taken, matches, find, find-vacant, find-occupied, slot_cases, free-taken, FirstFree,
  free_slot-FirstFree, lookup_from-find,
}

abbrev pub or_else : Option ExecFunc → Option ExecFunc → Option ExecFunc
or_else none o = o
or_else (some f) o = some f

pub or_else-none : (o : Option ExecFunc) → or_else o none ≡ o
or_else-none none = refl
or_else-none (some f) = refl

or_else_if :
    (b : Bool) (func : ExecFunc) (x y : Option ExecFunc)
    → (if b then some func else or_else x y) ≡ or_else (if b then some func else x) y
or_else_if true func x y = refl
or_else_if false func x y = refl

-- What one entry gives for an instruction word.
abbrev pub hit : ℕ → Entry → Option ExecFunc
hit raw e = if matches raw e then some e.func else none

hit-none : (raw : ℕ) (e : Entry) → matches raw e ≡ false → hit raw e ≡ none
hit-none raw e h = rw h refl

-- An entry whose mask holds the opcode.
pub record KeepsOpcode (e : Entry) : Type 0 where
  pub opcode : e.mask % 2 ^ 7 ≡ 2 ^ 7 - 1

-- A table that `n` registrations may have filled.
pub record IsProbed (n : ℕ) (table : Table) : Type 0 where
  pub free : (i : ℕ) → 128 + n ≤ i → table i ≡ none
  pub opcode : (i : ℕ) (e : Entry) → table i ≡ some e → KeepsOpcode e
  pub reached :
      (i : ℕ) (e : Entry)
      → table i ≡ some e
      → (j : ℕ) → home e.key ≤ j
      → j ≤ i
      → taken (table j) ≡ true

pub home-mod : (key : ℕ) → home key ≡ key % 2 ^ 7
unfolding home
home-mod key = omega (arith, bit_and_mask 7 key, bit_and_mask 11 (bit_and key 0x7f))

-- A match has the home of its key.
matches-home : (raw : ℕ) (e : Entry) → KeepsOpcode e → matches raw e ≡ true → home e.key ≡ home raw
matches-home raw e k h =
    let keyed : bit_and raw e.mask ≡ e.key = ground arith in
    let low : bit_and raw e.mask % 2 ^ 7 ≡ raw % 2 ^ 7 =
      rw (bit_and_split 7 raw e.mask, k.opcode) (omega (arith, bit_and_mask 7 (raw % 2 ^ 7))) in
    home-mod e.key ∙ rw (sym keyed) (low ∙ sym (home-mod raw))

module _ (table : Table) (raw : ℕ) (e : Entry) (f last : ℕ) (below : f ≤ last) where
  abbrev after : Table
  after = update table f (some e)

  -- Tables that agree from `i` on.
  find-same :
      (d i : ℕ) (other : Table)
      → ((j : ℕ) → i ≤ j → other j ≡ table j)
      → find d raw i other ≡ find d raw i table
  unfolding find
  find-same zero i other same = refl
  find-same (suc d) i other same =
      let rest = find-same d (i + 1) other (λ j p. same j (omega arith)) in
      let here = same i (omega arith) in
      elim (slot_cases (table i)) [
        | inl free ↦ find-vacant d raw i other (here ∙ free) ∙ sym (find-vacant d raw i table free)
        | inr (x, s) ↦
            find-occupied d raw i other x (here ∙ s)
            ∙ rw rest (sym (find-occupied d raw i table x s))
      ]

  unchanged : (j : ℕ) → f < j → after j ≡ table j
  unchanged j p = rw (==_ne j f (λ q. omega arith)) refl

  find-none :
      (d i : ℕ)
      → ((j : ℕ) (x : Entry) → i ≤ j → table j ≡ some x → matches raw x ≡ false)
      → find d raw i table ≡ none
  unfolding find
  find-none zero i h = refl
  find-none (suc d) i h = elim (slot_cases (table i)) [
    | inl free ↦ find-vacant d raw i table free
    | inr (x, s) ↦
        find-occupied d raw i table x s
        ∙ rw (h i x (omega arith) s) (find-none d (i + 1) (λ j y p. h j y (omega arith)))
  ]

  -- The new entry's own slot.
  find-own :
      (d : ℕ)
      → table f ≡ none
      → ((j : ℕ) (x : Entry) → f < j → table j ≡ some x → matches raw x ≡ false)
      → find (suc d) raw f after ≡ or_else (find (suc d) raw f table) (hit raw e)
  find-own d free above =
      let own : after f ≡ some e = rw (==_refl f) refl in
      let rest : find d raw (f + 1) after ≡ none =
        find-same d (f + 1) after (λ j p. unchanged j (omega arith))
        ∙ find-none d (f + 1) (λ j x p. above j x (omega arith)) in
      find-occupied d raw f after e own ∙ rw (rest, find-vacant d raw f table free) refl

  find-update :
      (d i : ℕ)
      → i + d ≡ last
      → i ≤ f
      → f < last
      → table f ≡ none
      → (matches raw e ≡ true → (j : ℕ) → i ≤ j → j < f → taken (table j) ≡ true)
      → ((j : ℕ) (x : Entry) → f < j → table j ≡ some x → matches raw x ≡ false)
      → find d raw i after ≡ or_else (find d raw i table) (hit raw e)
  find-update zero i same p q free run above = absurd (omega arith)
  find-update (suc d) i same p q free run above = elim (Bool-cases (i == f)) [
    | inl own ↦ let e : i ≡ f = ground arith in rw e (find-own d free above)
    | inr other ↦
        let below : i < f = ground arith in
        let kept : after i ≡ table i = rw other refl in
        let missed : (table i ≡ none) → hit raw e ≡ none = λ v. elim (Bool-cases (matches raw e)) [
          | inl m ↦ absurd (free-taken (table i) v (run m i (omega arith) below))
          | inr m ↦ hit-none raw e m
        ] in
        elim (slot_cases (table i)) [
          | inl vacant ↦
              find-vacant d raw i after (kept ∙ vacant)
              ∙ rw (find-vacant d raw i table vacant, missed vacant) refl
          | inr (x, s) ↦
              let rest =
                find-update d (i + 1) (omega arith) (omega arith) q free
                  (λ m j a b. run m j (omega arith) b) above in
              find-occupied d raw i after x (kept ∙ s)
              ∙ rw (rest, find-occupied d raw i table x s) (or_else_if (matches raw x) x.func _ _)
        ]
  ]

chosen :
    (o : Option ℕ) (x : ℕ → Table) (y : Table) (f : ℕ)
    → o ≡ some f
    → elim o [ some index ↦ x index | none ↦ y ] ≡ x f
chosen o x y f h = rw h refl

register_at :
    (f : ℕ) (table : Table) (e : Entry)
    → free_slot 2048 (home e.key) (home e.key) table ≡ some f
    → register_inst table e ≡ update table f (some e)
unfolding register_inst
register_at f table e h = chosen (free_slot 2048 (home e.key) (home e.key) table) _ _ f h

abbrev entry_or : Entry → Option Entry → Entry
entry_or x none = x
entry_or x (some y) = y

-- A registration is the last resort of every lookup, and keeps the table in shape.
module _ (n : ℕ) (table : Table) (p : IsProbed n table) (room : n < 1919) (e : Entry)
    (k : KeepsOpcode e) where
  home-lt : (key : ℕ) → home key < 128
  home-lt key = omega (arith, home-mod key)

  -- The slot that `register_inst` fills.
  slot :
      (f : ℕ) × (free_slot 2048 (home e.key) (home e.key) table ≡ some f)
      × FirstFree table (home e.key) (128 + n) f
  slot =
      let low = home-lt e.key in
      free_slot-FirstFree (128 + n - home e.key) 2048 (home e.key) (home e.key) (128 + n) table
        (omega arith) (omega arith) (omega arith) (omega arith) (p.free (128 + n) (omega arith))

  lookup-find :
      (other : Table) (raw : ℕ)
      → other (129 + n) ≡ none
      → lookup raw other ≡ find (129 + n - home raw) raw (home raw) other
  unfolding lookup
  lookup-find other raw free =
      let low = home-lt raw in
      lookup_from-find (129 + n - home raw) 2048 raw (home raw) (home raw) (129 + n) other
        (omega arith) (omega arith) (omega arith) (omega arith) free

  module _ (raw : ℕ) where
    -- An entry past the free slot is for no word whose search starts before it.
    none_above :
        home raw ≤ slot.0
        → (j : ℕ) (x : Entry) → slot.0 < j
        → table j ≡ some x
        → matches raw x ≡ false
    none_above q j x r s = elim (Bool-cases (matches raw x)) [
      | inl m ↦
          let same = matches-home raw x (p.opcode j x s) m in
          absurd (
            free-taken (table slot.0) slot.2.free
              (p.reached j x s slot.0 (omega arith) (omega arith)))
      | inr m ↦ m
    ]

    run_before : matches raw e ≡ true → (j : ℕ) → home raw ≤ j → j < slot.0 → taken (table j) ≡ true
    run_before m j q r = let same = matches-home raw e k m in slot.2.taken_before j (omega arith) r

    missed : slot.0 < home raw → hit raw e ≡ none
    missed q = elim (Bool-cases (matches raw e)) [
      | inl m ↦ let same = matches-home raw e k m in let low = slot.2.after in absurd (omega arith)
      | inr m ↦ hit-none raw e m
    ]

    abbrev span : ℕ
    span = 129 + n - home raw

    find-registered :
        find span raw (home raw) (update table slot.0 (some e))
        ≡ or_else (find span raw (home raw) table) (hit raw e)
    find-registered =
        let below = slot.2.before in
        let low = home-lt raw in
        elim (Bool-cases (ltb slot.0 (home raw))) [
          | inl past ↦
              let q = ltb→lt slot.0 (home raw) past in
              rw (missed q, or_else-none)
                (find-same table raw e slot.0 (129 + n) (omega arith) span (home raw) _
                  (λ j r. unchanged table raw e slot.0 (129 + n) (omega arith) j (omega arith)))
          | inr ahead ↦
              let q : home raw ≤ slot.0 = ground arith in
              find-update table raw e slot.0 (129 + n) (omega arith) span (home raw) (omega arith) q
                (omega arith) slot.2.free run_before (none_above q)
        ]

    pub register_inst-lookup :
        lookup raw (register_inst table e) ≡ or_else (lookup raw table) (hit raw e)
    register_inst-lookup =
        let below = slot.2.before in
        let last = p.free (129 + n) (omega arith) in
        let still : update table slot.0 (some e) (129 + n) ≡ none =
          rw (==_ne (129 + n) slot.0 (λ q. omega arith)) last in
        rw
          (
            register_at slot.0 table e slot.1,
            lookup-find (update table slot.0 (some e)) raw still,
            lookup-find table raw last,
          )
          find-registered

  abbrev filled : Table
  filled = update table slot.0 (some e)

  filled-taken : (j : ℕ) → taken (table j) ≡ true → taken (filled j) ≡ true
  filled-taken j h = elim (Bool-cases (j == slot.0)) [ inl q ↦ rw q refl | inr q ↦ rw q h ]

  filled-entry :
      (i : ℕ) (x : Entry) → filled i ≡ some x → ((i ≡ slot.0) × (e ≡ x)) ⊎ (table i ≡ some x)
  filled-entry i x h = elim (Bool-cases (i == slot.0)) [
    | inl q ↦
        let own : filled i ≡ some e = rw q refl in inl (ground arith, ap (entry_or e) (sym own ∙ h))
    | inr q ↦ inr (sym (rw q refl) ∙ h)
  ]

  filled-reached :
      (i : ℕ) (x : Entry)
      → filled i ≡ some x
      → (j : ℕ) → home x.key ≤ j
      → j ≤ i
      → taken (filled j) ≡ true
  filled-reached i x h j a b = elim (filled-entry i x h) [
    | inl (at, same) ↦ elim (Bool-cases (j == slot.0)) [
      | inl q ↦ rw q refl
      | inr q ↦
          let start : home e.key ≤ j = subst (λ (y : Entry). home y.key ≤ j) (sym same) a in
          filled-taken j (slot.2.taken_before j start (ground arith))
    ]
    | inr s ↦ filled-taken j (p.reached i x s j a b)
  ]

  filled-opcode : (i : ℕ) (x : Entry) → filled i ≡ some x → KeepsOpcode x
  filled-opcode i x h = elim (filled-entry i x h) [
    | inl (at, same) ↦ subst KeepsOpcode same k
    | inr s ↦ p.opcode i x s
  ]

  filled-free : (i : ℕ) → 128 + (n + 1) ≤ i → filled i ≡ none
  filled-free i a =
      let below = slot.2.before in rw (==_ne i slot.0 (λ q. omega arith)) (p.free i (omega arith))

  pub register_inst-IsProbed : IsProbed (n + 1) (register_inst table e)
  register_inst-IsProbed =
      rw (register_at slot.0 table e slot.1)
        (record { free = filled-free; opcode = filled-opcode; reached = filled-reached })
