-- ===== src/Decode/Immediates.antt =====
-- The immediates of Interpreter.cpp against the instruction formats: the bits of an immediate, put where
-- each format has them, are read back with their sign.
use rv64i_simulator.Base.{
  ℕ, ◌+◌, ◌-◌, ◌*◌, ◌/◌, ◌%◌, ◌^◌, ◌<◌, ◌≡◌, ltb, if◌then◌else◌, bit_or, arith,
}
use rv64i_simulator.Base.Bits.{bit_and_mask, bit_or_fields, bit_and_field}
use rv64i_simulator.Decode.{sign_extend, decode_i, decode_s, decode_b, decode_u, decode_j}

-- The 32-bit pattern of the signed number that `bits` bits stand for.
abbrev pub signed : ℕ → ℕ → ℕ
signed bits x = if ltb x (2 ^ (bits - 1)) then x else x + (2 ^ 32 - 2 ^ bits)

-- The formats. `middle` holds the fields from bit 12 to bit 24, and `low` all below the immediate.
abbrev pub format_i : ℕ → ℕ → ℕ
format_i imm low = imm * 2 ^ 20 + low

abbrev pub format_s : ℕ → ℕ → ℕ → ℕ
format_s imm middle low = imm / 2 ^ 5 * 2 ^ 25 + middle * 2 ^ 12 + imm % 2 ^ 5 * 2 ^ 7 + low

abbrev pub format_b : ℕ → ℕ → ℕ → ℕ
format_b imm middle low =
    imm / 2 ^ 12 * 2 ^ 31
    + imm / 2 ^ 5 % 2 ^ 6 * 2 ^ 25
    + middle * 2 ^ 12
    + imm / 2 % 2 ^ 4 * 2 ^ 8
    + imm / 2 ^ 11 % 2 * 2 ^ 7
    + low

abbrev pub format_j : ℕ → ℕ → ℕ
format_j imm low =
    imm / 2 ^ 20 * 2 ^ 31
    + imm / 2 % 2 ^ 10 * 2 ^ 21
    + imm / 2 ^ 11 % 2 * 2 ^ 20
    + imm / 2 ^ 12 % 2 ^ 8 * 2 ^ 12
    + low

sign_extend_12 : (x : ℕ) → x < 2 ^ 12 → sign_extend x 12 ≡ signed 12 x
unfolding sign_extend
sign_extend_12 x h = ground arith

sign_extend_13 : (x : ℕ) → x < 2 ^ 13 → sign_extend x 13 ≡ signed 13 x
unfolding sign_extend
sign_extend_13 x h = ground arith

sign_extend_21 : (x : ℕ) → x < 2 ^ 21 → sign_extend x 21 ≡ signed 21 x
unfolding sign_extend
sign_extend_21 x h = ground arith

pub decode_i-format_i :
    (imm low : ℕ) → imm < 2 ^ 12 → low < 2 ^ 20 → decode_i (format_i imm low) ≡ signed 12 imm
unfolding decode_i
decode_i-format_i imm low h k =
    let field : format_i imm low / 2 ^ 20 ≡ imm = omega arith in rw field (sign_extend_12 imm h)

decode_s-format_s :
    (imm middle low : ℕ)
    → imm < 2 ^ 12
    → middle < 2 ^ 13
    → low < 2 ^ 7
    → decode_s (format_s imm middle low) ≡ signed 12 imm
unfolding decode_s
decode_s-format_s imm middle low h k l =
    let raw = format_s imm middle low in
    let upper : raw / 2 ^ 25 ≡ imm / 2 ^ 5 = omega arith in
    let lower : raw / 2 ^ 7 % 2 ^ 5 ≡ imm % 2 ^ 5 = omega arith in
    rw
      (
        bit_and_mask 5 (raw / 2 ^ 7),
        upper,
        lower,
        bit_or_fields 5 (imm / 2 ^ 5) (imm % 2 ^ 5) (omega arith),
      )
      (let whole : imm / 2 ^ 5 * 2 ^ 5 + imm % 2 ^ 5 ≡ imm = omega arith in
        rw whole (sign_extend_12 imm h))

-- `|` of the four fields of a branch offset, and of a jump offset, is their sum.
join_b :
    (a b c d : ℕ)
    → b < 2
    → c < 2 ^ 6
    → d < 2 ^ 4
    → bit_or (bit_or (bit_or (a * 2 ^ 12) (b * 2 ^ 11)) (c * 2 ^ 5)) (d * 2)
      ≡ a * 2 ^ 12 + b * 2 ^ 11 + c * 2 ^ 5 + d * 2
join_b a b c d hb hc hd =
    let one : bit_or (a * 2 ^ 12) (b * 2 ^ 11) ≡ (a * 2 + b) * 2 ^ 11 =
      omega (arith, bit_or_fields 12 a (b * 2 ^ 11)) in
    let two : bit_or ((a * 2 + b) * 2 ^ 11) (c * 2 ^ 5) ≡ ((a * 2 + b) * 2 ^ 6 + c) * 2 ^ 5 =
      omega (arith, bit_or_fields 11 (a * 2 + b) (c * 2 ^ 5)) in
    rw (one, two) (omega (arith, bit_or_fields 5 ((a * 2 + b) * 2 ^ 6 + c) (d * 2)))

join_j :
    (a b c d : ℕ)
    → b < 2 ^ 8
    → c < 2
    → d < 2 ^ 10
    → bit_or (bit_or (bit_or (a * 2 ^ 20) (b * 2 ^ 12)) (c * 2 ^ 11)) (d * 2)
      ≡ a * 2 ^ 20 + b * 2 ^ 12 + c * 2 ^ 11 + d * 2
join_j a b c d hb hc hd =
    let one : bit_or (a * 2 ^ 20) (b * 2 ^ 12) ≡ (a * 2 ^ 8 + b) * 2 ^ 12 =
      omega (arith, bit_or_fields 20 a (b * 2 ^ 12)) in
    let two : bit_or ((a * 2 ^ 8 + b) * 2 ^ 12) (c * 2 ^ 11) ≡ ((a * 2 ^ 8 + b) * 2 + c) * 2 ^ 11 =
      omega (arith, bit_or_fields 12 (a * 2 ^ 8 + b) (c * 2 ^ 11)) in
    rw (one, two) (omega (arith, bit_or_fields 11 ((a * 2 ^ 8 + b) * 2 + c) (d * 2)))

decode_b-format_b :
    (imm middle low : ℕ)
    → imm < 2 ^ 13
    → imm % 2 ≡ 0
    → middle < 2 ^ 13
    → low < 2 ^ 7
    → decode_b (format_b imm middle low) ≡ signed 13 imm
unfolding decode_b
decode_b-format_b imm middle low h even k l =
    let raw = format_b imm middle low in
    let whole =
      join_b (raw / 2 ^ 31) (raw / 2 ^ 7 % 2) (raw / 2 ^ 25 % 2 ^ 6) (raw / 2 ^ 8 % 2 ^ 4)
        (omega arith) (omega arith) (omega arith) in
    let same : raw / 2 ^ 31 * 2 ^ 12
          + raw / 2 ^ 7 % 2 * 2 ^ 11
          + raw / 2 ^ 25 % 2 ^ 6 * 2 ^ 5
          + raw / 2 ^ 8 % 2 ^ 4 * 2
        ≡ imm =
      omega arith in
    rw
      (
        bit_and_mask 1 (raw / 2 ^ 7),
        bit_and_mask 6 (raw / 2 ^ 25),
        bit_and_mask 4 (raw / 2 ^ 8),
        whole,
        same,
      )
      (sign_extend_13 imm h)

decode_j-format_j :
    (imm low : ℕ)
    → imm < 2 ^ 21
    → imm % 2 ≡ 0
    → low < 2 ^ 12
    → decode_j (format_j imm low) ≡ signed 21 imm
unfolding decode_j
decode_j-format_j imm low h even l =
    let raw = format_j imm low in
    let whole =
      join_j (raw / 2 ^ 31) (raw / 2 ^ 12 % 2 ^ 8) (raw / 2 ^ 20 % 2) (raw / 2 ^ 21 % 2 ^ 10)
        (omega arith) (omega arith) (omega arith) in
    let same : raw / 2 ^ 31 * 2 ^ 20
          + raw / 2 ^ 12 % 2 ^ 8 * 2 ^ 12
          + raw / 2 ^ 20 % 2 * 2 ^ 11
          + raw / 2 ^ 21 % 2 ^ 10 * 2
        ≡ imm =
      omega arith in
    rw
      (
        bit_and_mask 8 (raw / 2 ^ 12),
        bit_and_mask 1 (raw / 2 ^ 20),
        bit_and_mask 10 (raw / 2 ^ 21),
        whole,
        same,
      )
      (sign_extend_21 imm h)

decode_u_lem :
    (imm low : ℕ) → imm < 2 ^ 20 → low < 2 ^ 12 → decode_u (imm * 2 ^ 12 + low) ≡ imm * 2 ^ 12
unfolding decode_u
decode_u_lem imm low h l = omega (arith, bit_and_field 12 20 (imm * 2 ^ 12 + low))

-- A 12-bit immediate laid out as the I and the S format say, and its double as the B format says,
-- is decoded to its sign-extended 32-bit pattern, whatever the other fields are.
pub short_immediates :
    (imm middle low : ℕ)
    → imm < 2 ^ 12
    → middle < 2 ^ 13
    → low < 2 ^ 7
    → (decode_i (format_i imm low) ≡ signed 12 imm)
      × (decode_s (format_s imm middle low) ≡ signed 12 imm)
      × (decode_b (format_b (2 * imm) middle low) ≡ signed 13 (2 * imm))
short_immediates imm middle low h k l = (
  decode_i-format_i imm low h (omega arith),
  decode_s-format_s imm middle low h k l,
  decode_b-format_b (2 * imm) middle low (omega arith) (omega arith) k l,
)

-- A 20-bit immediate laid out as the U format says is decoded to its upper 20 bits, and its
-- double laid out as the J format says to its sign-extended 32-bit pattern, whatever the lower 12
-- bits are.
pub long_immediates :
    (imm low : ℕ)
    → imm < 2 ^ 20
    → low < 2 ^ 12
    → (decode_u (imm * 2 ^ 12 + low) ≡ imm * 2 ^ 12)
      × (decode_j (format_j (2 * imm) low) ≡ signed 21 (2 * imm))
long_immediates imm low h l =
    (decode_u_lem imm low h l, decode_j-format_j (2 * imm) low (omega arith) (omega arith) l)
