-- ===== src/Registry/Probe.antt =====
-- The probing loops of InstructionRegistry.cpp on a table with a free slot ahead: neither comes round.
use rv64i_simulator.Base.{
  ℕ, zero, suc, ◌+◌, ◌≤◌, ◌<◌, ◌≡◌, Bool-cases, ◌-◌, ap, sym, ◌⊎◌, inl, inr, ◌∙◌, refl, Bool, true,
  false, Option, none, some, ◌==◌, if◌then◌else◌, bit_and, ==_ne, arith,
}
use rv64i_simulator.Base.Bits.{bit_and_mask}
use rv64i_simulator.Registry.{ExecFunc, Entry, Table, next_index, free_slot, lookup_from}

-- A slot is in use.
abbrev pub taken : Option Entry → Bool
taken none = false
taken (some e) = true

-- An entry is for an instruction word.
abbrev pub matches : ℕ → Entry → Bool
matches raw e = bit_and raw e.mask == e.key

-- The first match in a run of `d` slots, which a free slot ends.
unfoldable pub find : ℕ → ℕ → ℕ → Table → Option ExecFunc
find zero raw index table = none
find (suc d) raw index table =
    let rest = find d raw (index + 1) table in
    elim (table index) [ none ↦ none | some e ↦ if matches raw e then some e.func else rest ]

next_index_inside : (i : ℕ) → i + 1 < 2048 → next_index i ≡ i + 1
next_index_inside i h = omega (arith, bit_and_mask 11 (i + 1))

not_round : (start i : ℕ) → start ≤ i → i + 1 < 2048 → (next_index i == start) ≡ false
not_round start i p h = ==_ne (next_index i) start (λ e. omega (arith, next_index_inside i h))

-- The first free slot from `i` on.
pub record FirstFree (table : Table) (i x f : ℕ) : Type 0 where
  pub after : i ≤ f
  pub before : f ≤ x
  pub free : table f ≡ none
  pub taken_before : (j : ℕ) → i ≤ j → j < f → taken (table j) ≡ true

pub slot_cases : (o : Option Entry) → (o ≡ none) ⊎ ((e : Entry) × (o ≡ some e))
slot_cases none = inl refl
slot_cases (some e) = inr (e, refl)

occupied :
    {A : Type 0} (o : Option Entry) (x : A) (y : Entry → A) (e : Entry)
    → o ≡ some e
    → elim o [ none ↦ x | some e ↦ y e ] ≡ y e
occupied o x y e h = rw h refl

vacant :
    {A : Type 0} (o : Option Entry) (x : A) (y : Entry → A)
    → o ≡ none
    → elim o [ none ↦ x | some e ↦ y e ] ≡ x
vacant o x y h = rw h refl

module _ (d raw i : ℕ) (table : Table) where
  pub find-vacant : table i ≡ none → find (suc d) raw i table ≡ none
  unfolding find
  find-vacant h = vacant (table i) _ _ h

  pub find-occupied :
      (e : Entry)
      → table i ≡ some e
      → find (suc d) raw i table ≡ (if matches raw e then some e.func else find d raw (i + 1) table)
  unfolding find
  find-occupied e h = occupied (table i) _ _ e h

pub free-taken : (o : Option Entry) → o ≡ none → taken o ≡ true → ⊥
free-taken o p q = cc (p, q)

-- One round of each loop at a slot in use.
module _ (k start i : ℕ) (table : Table) (p : start ≤ i) (q : i + 1 < 2048) (e : Entry)
    (h : table i ≡ some e) where
  free_slot-taken : free_slot (suc k) start i table ≡ free_slot k start (i + 1) table
  unfolding free_slot
  free_slot-taken =
      occupied (table i) _ _ e h ∙ rw (not_round start i p q, next_index_inside i q) refl

  lookup_from-taken :
      (raw : ℕ)
      → lookup_from (suc k) raw start i table
        ≡ (if matches raw e then some e.func else lookup_from k raw start (i + 1) table)
  unfolding lookup_from
  lookup_from-taken raw =
      occupied (table i) _ _ e h ∙ rw (not_round start i p q, next_index_inside i q) refl

-- A slot in use before a free one.
before_free :
    (d i last : ℕ) (table : Table) (x : Entry)
    → i + d ≡ last
    → table last ≡ none
    → table i ≡ some x
    → i < last
before_free d i last table x same e h = grind arith

one_before :
    (i last : ℕ) (table : Table) (x : Entry) (f : ℕ)
    → table i ≡ some x
    → FirstFree table (i + 1) last f
    → FirstFree table i last f
one_before i last table x f h first = record {
  after = let a = first.after in omega arith;
  before = first.before;
  free = first.free;
  taken_before = λ j a b. elim (Bool-cases (j == i)) [
    | inl same ↦ let e : j ≡ i = ground arith in ap (λ s. taken (table s)) e ∙ ap taken h
    | inr other ↦ first.taken_before j (ground arith) b
  ];
}

pub free_slot-FirstFree :
    (d k start i last : ℕ) (table : Table)
    → start ≤ i
    → i + d ≡ last
    → last < 2048
    → d < k
    → table last ≡ none
    → (f : ℕ) × (free_slot k start i table ≡ some f) × FirstFree table i last f
unfolding free_slot
free_slot-FirstFree d zero start i last table p same q r e = absurd (omega arith)
free_slot-FirstFree d (suc k) start i last table p same q r e = elim (slot_cases (table i)) [
  | inl free ↦ (
    i,
    vacant (table i) _ _ free,
    record {
      after = omega arith;
      before = omega arith;
      free = free;
      taken_before = λ j a b. absurd (omega arith);
    },
  )
  | inr (x, h) ↦
      let below = before_free d i last table x same e h in
      let (f, found, first) =
        free_slot-FirstFree (d - 1) k start (i + 1) last table (omega arith) (omega arith) q
          (omega arith) e in
      (
        f,
        free_slot-taken k start i table p (omega arith) x h ∙ found,
        one_before i last table x f h first,
      )
]

pub lookup_from-find :
    (d k raw start i last : ℕ) (table : Table)
    → start ≤ i
    → i + d ≡ last
    → last < 2048
    → d < k
    → table last ≡ none
    → lookup_from k raw start i table ≡ find d raw i table
unfolding lookup_from find
lookup_from-find d zero raw start i last table p same q r e = absurd (omega arith)
lookup_from-find zero (suc k) raw start i last table p same q r e =
    let here : i ≡ last = omega arith in vacant (table i) _ _ (ap table here ∙ e)
lookup_from-find (suc d) (suc k) raw start i last table p same q r e =
    let rest =
      lookup_from-find d k raw start (i + 1) last table (omega arith) (omega arith) q (omega arith)
        e in
    elim (slot_cases (table i)) [
      | inl free ↦ vacant (table i) _ _ free ∙ sym (find-vacant d raw i table free)
      | inr (x, h) ↦
          lookup_from-taken k start i table p (omega arith) x h raw
          ∙ rw rest (sym (find-occupied d raw i table x h))
    ]
