-- ===== src/Registry/First.antt =====
-- The instruction table as the list of its registrations: InstructionRegistry.cpp and DefaultRegistry.cpp.
use rv64i_simulator.Base.{
  ℕ, ◌+◌, ◌-◌, ◌≤◌, ◌<◌, ◌^◌, ◌%◌, ◌≡◌, refl, sym, subst, ◌∙◌, Bool, true, false, Option, none,
  some, List, [], ◌∷◌, ◌==◌, leb, if◌then◌else◌, arith,
}
use rv64i_simulator.Registry.{
  ExecFunc, Entry, Table, home, lookup, lookup_from, register_inst, register_all, entry_r, get_mask,
  entry_i, entry_s, entry_b, entry_opcode, entry_u,
}
use rv64i_simulator.Registry.Probe.{matches, free-taken, lookup_from-find}
use rv64i_simulator.Registry.Insert.{
  or_else, or_else-none, hit, KeepsOpcode, IsProbed, home-mod, register_inst-lookup,
  register_inst-IsProbed,
}
use rv64i_simulator.Registry.Default.{
  default_entries, init_table, register_rv64i, register_loads, register_stores,
  register_branch_jump, register_rv64i_arithmetic, register_csr, register_float, register_mul,
  register_atomics, amo_entries,
}

-- The first registration that is for an instruction word.
unfoldable pub first_match : ℕ → List Entry → Option ExecFunc
first_match raw [] = none
first_match raw (e ∷ es) = if matches raw e then some e.func else first_match raw es

-- The entries that fit in the table and have the opcode in their masks.
abbrev pub AllKeepOpcode : List Entry → Type 0
AllKeepOpcode [] = Unit
AllKeepOpcode (e ∷ es) = KeepsOpcode e × AllKeepOpcode es

abbrev pub count : List Entry → ℕ
count [] = 0
count (e ∷ es) = count es + 1

or_else_assoc : (a b c : Option ExecFunc) → or_else (or_else a b) c ≡ or_else a (or_else b c)
or_else_assoc none b c = refl
or_else_assoc (some f) b c = refl

or_else-if :
    (b : Bool) (func : ExecFunc) (o : Option ExecFunc)
    → or_else (if b then some func else none) o ≡ (if b then some func else o)
or_else-if true func o = refl
or_else-if false func o = refl

register_all-lookup :
    (es : List Entry) (n : ℕ) (table : Table) (raw : ℕ)
    → IsProbed n table
    → n + count es ≤ 1919
    → AllKeepOpcode es
    → lookup raw (register_all es table) ≡ or_else (lookup raw table) (first_match raw es)
unfolding register_all first_match
register_all-lookup [] n table raw p room all = sym (or_else-none (lookup raw table))
register_all-lookup (e ∷ es) n table raw p room all =
    let inside : n < 1919 = omega arith in
    let next = register_inst-IsProbed n table p inside e all.0 in
    rw
      (
        register_all-lookup es (n + 1) (register_inst table e) raw next (omega arith) all.1,
        register_inst-lookup n table p inside e all.0 raw,
        or_else_assoc (lookup raw table) (hit raw e) (first_match raw es),
        or_else-if (matches raw e) e.func (first_match raw es),
      )
      refl

register_all-IsProbed :
    (es : List Entry) (n : ℕ) (table : Table)
    → IsProbed n table
    → n + count es ≤ 1919
    → AllKeepOpcode es
    → IsProbed (n + count es) (register_all es table)
unfolding register_all
register_all-IsProbed [] n table p room all =
    let same : n ≡ n + 0 = omega arith in subst (λ k. IsProbed k table) same p
register_all-IsProbed (e ∷ es) n table p room all =
    let next = register_inst-IsProbed n table p (omega arith) e all.0 in
    let same : n + 1 + count es ≡ n + (count es + 1) = omega arith in
    subst (λ k. IsProbed k (register_all (e ∷ es) table)) same
      (register_all-IsProbed es (n + 1) (register_inst table e) next (omega arith) all.1)

abbrev pub empty_table : Table
empty_table = λ index. none

no_entry_at : (e : Entry) → none ≡ some e → ⊥
no_entry_at e s = free-taken (some e) (sym s) refl

empty-IsProbed : IsProbed 0 empty_table
empty-IsProbed = record {
  free = λ i p. refl;
  opcode = λ i e s. absurd (no_entry_at e s);
  reached = λ i e s. absurd (no_entry_at e s);
}

empty-lookup : (raw : ℕ) → lookup raw empty_table ≡ none
unfolding lookup lookup_from
empty-lookup raw = refl

pub registered-first_match :
    (es : List Entry) (raw : ℕ)
    → count es ≤ 1919
    → AllKeepOpcode es
    → lookup raw (register_all es empty_table) ≡ first_match raw es
registered-first_match es raw room all =
    rw (register_all-lookup es 0 empty_table raw empty-IsProbed (omega arith) all, empty-lookup raw)
      refl

-- For a table filled with at most 1919 entries that have the opcode in their masks, a probe with 129 of the
-- model's rounds and one for each entry, or more, gives what the full lookup gives.
pub lookup-rounds :
    (es : List Entry) (raw k : ℕ)
    → count es ≤ 1919
    → AllKeepOpcode es
    → 129 + count es ≤ k
    → lookup_from k raw (home raw) (home raw) (register_all es empty_table)
      ≡ lookup raw (register_all es empty_table)
unfolding lookup
lookup-rounds es raw k room all fuel =
    let table = register_all es empty_table in
    let p = register_all-IsProbed es 0 empty_table empty-IsProbed (omega arith) all in
    let last = 128 + count es in
    let free = p.free last (omega arith) in
    let low = home-mod raw in
    let within =
      lookup_from-find (last - home raw) k raw (home raw) (home raw) last table (omega arith)
        (omega arith) (omega arith) (omega arith) free in
    within
    ∙ sym (
        lookup_from-find (last - home raw) 2048 raw (home raw) (home raw) last table (omega arith)
          (omega arith) (omega arith) (omega arith) free)

keep_opcode : List Entry → Bool
keep_opcode [] = true
keep_opcode (e ∷ es) = if e.mask % 2 ^ 7 == 2 ^ 7 - 1 then keep_opcode es else false

if_true : (a b : Bool) → (if a then b else false) ≡ true → (a ≡ true) × (b ≡ true)
if_true true b h = (refl, h)
if_true false b h = absurd (cc h)

keep_opcode_lem : (es : List Entry) → keep_opcode es ≡ true → AllKeepOpcode es
unfolding keep_opcode
keep_opcode_lem [] h = tt
keep_opcode_lem (e ∷ es) h =
    let (first, rest) = if_true (e.mask % 2 ^ 7 == 2 ^ 7 - 1) (keep_opcode es) h in
    (record { opcode = ground arith }, keep_opcode_lem es rest)

default_fits : leb (count default_entries) 1919 ≡ true
unfolding default_entries register_rv64i register_loads register_stores register_branch_jump
    register_rv64i_arithmetic register_csr register_float register_mul register_atomics amo_entries
default_fits = refl

default_keeps : keep_opcode default_entries ≡ true
unfolding default_entries register_rv64i register_loads register_stores register_branch_jump
    register_rv64i_arithmetic register_csr register_float register_mul register_atomics amo_entries
    keep_opcode entry_r get_mask entry_i entry_s entry_b entry_opcode entry_u
default_keeps = refl

-- For every key, the lookup in the instruction table that the program fills finds the handler of
-- the first registration, in the order of the code, whose mask and key match, and none if no
-- registration does.
pub init_table-first_match : (raw : ℕ) → lookup raw init_table ≡ first_match raw default_entries
unfolding init_table
init_table-first_match raw =
    let fits : count default_entries ≤ 1919 = ground (arith, default_fits) in
    registered-first_match default_entries raw fits (keep_opcode_lem default_entries default_keeps)
