-- ===== src/Tree/Names.antt =====
-- The names of nodes and the ISA string of DTBBuilder.h: what they say, and that they fit.
use rv64i_simulator.Base.{
  ℕ, ◌+◌, lt→ltb, ◌-◌, ◌^◌, ◌≤◌, ◌<◌, ◌≡◌, refl, Bool, true, false, ◌&&◌, some, List, [], ◌∷◌, ◌++◌,
  ltb, ◌==◌, if◌then◌else◌, ◌<<<◌, any_set, Bool-cases, inl, inr, arith,
}
use rv64i_simulator.Output.{codes}
use rv64i_simulator.Output.Digits.{number, length, ++-length, push_digits-Writes}
use rv64i_simulator.Tree.{lower_hex, fitting, make_node_name, append_letter, generate_isa_string}

abbrev pub hex_value : ℕ → ℕ
hex_value c = if ltb c 97 then c - 48 else c - 87

lower_hex-value : (d : ℕ) → d < 16 → hex_value (lower_hex d) ≡ d
unfolding lower_hex
lower_hex-value d h = ground arith

fitting_lem : (room : ℕ) (text : List ℕ) → length text < room → fitting room text ≡ some text
unfolding fitting
fitting_lem room text h = rw (lt→ltb (length text) room h) refl

-- For a 64-bit address and an array with 18 places more than the prefix has, make_node_name gives the
-- prefix, an at sign and digits to base 16 that stand for the address, at most 16 of them.
pub make_node_name-number :
    (room : ℕ) (prefix : List ℕ) (addr : ℕ)
    → addr < 2 ^ 64
    → length prefix + 18 ≤ room
    → (digits : List ℕ) × (make_node_name room prefix addr ≡ some (prefix ++ (64 ∷ digits)))
      × (number hex_value 16 0 digits ≡ addr)
      × (length digits ≤ 16)
unfolding make_node_name number
make_node_name-number room prefix addr h k =
    let w =
      push_digits-Writes lower_hex hex_value 16 (omega arith) lower_hex-value 16 16 addr []
        (omega arith) (omega arith) in
    let fits = λ (digits : List ℕ) (short : length digits ≤ 16).
      fitting_lem room (prefix ++ (64 ∷ digits)) (omega (arith, ++-length prefix (64 ∷ digits))) in
    elim (Bool-cases (addr == 0)) [
      | inl q ↦
          let e : addr ≡ 0 = ground arith in
          rw e (48 ∷ [], fits (48 ∷ []) (omega arith), refl, omega arith)
      | inr q ↦ (
        w.digits,
        rw (q, w.written) (fits w.digits (let s = w.short in omega arith)),
        w.reads,
        w.short,
      )
    ]

append_letter-length :
    (misa max_len bit letter : ℕ) (out : List ℕ)
    → length out < max_len
    → length (append_letter misa max_len bit letter out) < max_len
unfolding append_letter
append_letter-length misa max_len bit letter out h =
    elim (Bool-cases (any_set misa (1 <<< bit) && ltb (length out) (max_len - 1))) [
      | inl q ↦ rw q (ground (arith, ++-length out (letter ∷ []), q))
      | inr q ↦ rw q h
    ]

base-length :
    (b : Bool) (max_len : ℕ)
    → 6 ≤ max_len
    → length (if b then codes "rv64" else codes "rv32") < max_len
base-length true max_len h = omega arith
base-length false max_len h = omega arith

-- The letters after the base.
abbrev letters : ℕ → ℕ → List ℕ → List ℕ
letters misa max_len base =
    let i = append_letter misa max_len 8 105 base in
    let m = append_letter misa max_len 12 109 i in
    let a = append_letter misa max_len 0 97 m in
    let f = append_letter misa max_len 5 102 a in
    let d = append_letter misa max_len 3 100 f in append_letter misa max_len 2 99 d

letters-length :
    (misa max_len : ℕ) (base : List ℕ)
    → length base < max_len
    → length (letters misa max_len base) < max_len
letters-length misa max_len base h =
    let letter = append_letter-length misa max_len in
    letter 2 99 _
      (letter 3 100 _ (letter 5 102 _ (letter 0 97 _ (letter 12 109 _ (letter 8 105 base h)))))

pub generate_isa_string-fits :
    (misa max_len : ℕ)
    → 6 ≤ max_len
    → (isa : List ℕ) × (generate_isa_string misa max_len ≡ some isa) × (length isa < max_len)
unfolding generate_isa_string
generate_isa_string-fits misa max_len h =
    let enough : ltb max_len 6 ≡ false = ground arith in
    let rv64 = any_set misa (2 <<< 62) in
    (
      letters misa max_len (if rv64 then codes "rv64" else codes "rv32"),
      rw enough refl,
      letters-length misa max_len _ (base-length rv64 max_len h),
    )
