-- ===== src/Compressed/Width.antt =====
-- What `decompress` gives is a word of 32 bits.
use rv64i_simulator.Base.{
  ltb, ltb→lt, refl, ℕ, ◌+◌, ◌*◌, ◌^◌, ◌≤◌, ◌<◌, ◌≡◌, Bool, true, false, ◌==◌, if◌then◌else◌,
  bit_and, bit_or, ◌<<<◌, ◌>>>◌, any_set, arith,
}
use rv64i_simulator.Base.Bits.{bit_and-le, bit_and_comm, bit_or-lt}
use rv64i_simulator.Compressed.{decompress}
use rv64i_simulator.Compressed.Fields.{illegal, field, i_word, r_word, s_word}
use rv64i_simulator.Compressed.Quadrant0.{quadrant0}
use rv64i_simulator.Compressed.Quadrant1.{lui_or_addi16sp, alu, jump, branch, quadrant1}
use rv64i_simulator.Compressed.Quadrant2.{jump_move_add, quadrant2}

abbrev IsWord : ℕ → Type 0
IsWord x = x < 2 ^ 32

or_bits : (k : ℕ) {a b : ℕ} → a < 2 ^ k → b < 2 ^ k → bit_or a b < 2 ^ k
or_bits k {a} {b} p q = bit_or-lt k a b p q

if_bits : {bound x y : ℕ} (b : Bool) → x < bound → y < bound → (if b then x else y) < bound
if_bits true p q = p
if_bits false p q = q

mask-le : (x mask : ℕ) → bit_and x mask ≤ mask
mask-le x mask = rw (bit_and_comm x mask) (bit_and-le mask x)

-- A masked field that is shifted into its place.
shifted : (k x mask j : ℕ) → ltb (mask * 2 ^ j) (2 ^ k) ≡ true → bit_and x mask <<< j < 2 ^ k
shifted k x mask j e =
    let h = mask-le x mask in
    let fits = ltb→lt (mask * 2 ^ j) (2 ^ k) e in
    let grown : bit_and x mask * 2 ^ j ≤ mask * 2 ^ j = grind arith in omega arith

masked : (k x mask : ℕ) → ltb mask (2 ^ k) ≡ true → bit_and x mask < 2 ^ k
masked k x mask e = omega (arith, mask-le x mask, ltb→lt mask (2 ^ k) e)

-- The number of a register that three bits name.
short : (x : ℕ) → bit_and x 0x7 + 8 < 2 ^ 5
short x = omega (arith, mask-le x 0x7)

i_word-IsWord :
    (a rs1 funct3 rd opcode : ℕ)
    → a < 2 ^ 12
    → rs1 < 2 ^ 5
    → funct3 < 2 ^ 3
    → rd < 2 ^ 5
    → opcode < 2 ^ 7
    → IsWord (i_word a rs1 funct3 rd opcode)
i_word-IsWord a rs1 funct3 rd opcode p q r s t =
    or_bits 32
      (or_bits 32 (or_bits 32 (or_bits 32 (omega arith) (omega arith)) (omega arith)) (omega arith))
      (omega arith)

r_word-IsWord :
    (funct7 rs2 rs1 funct3 rd opcode : ℕ)
    → funct7 < 2 ^ 7
    → rs2 < 2 ^ 5
    → rs1 < 2 ^ 5
    → funct3 < 2 ^ 3
    → rd < 2 ^ 5
    → opcode < 2 ^ 7
    → IsWord (r_word funct7 rs2 rs1 funct3 rd opcode)
r_word-IsWord funct7 rs2 rs1 funct3 rd opcode p q r s t u =
    or_bits 32
      (or_bits 32
        (or_bits 32 (or_bits 32 (or_bits 32 (omega arith) (omega arith)) (omega arith))
          (omega arith))
        (omega arith))
      (omega arith)

s_word-IsWord :
    (imm rs2 rs1 funct3 opcode : ℕ)
    → rs2 < 2 ^ 5
    → rs1 < 2 ^ 5
    → funct3 < 2 ^ 3
    → opcode < 2 ^ 7
    → IsWord (s_word imm rs2 rs1 funct3 opcode)
s_word-IsWord imm rs2 rs1 funct3 opcode q r s u =
    r_word-IsWord _ rs2 rs1 funct3 _ opcode (omega (arith, mask-le (imm >>> 5) 0x7f)) q r s
      (omega (arith, mask-le imm 0x1f)) u

-- A constant word.
literal : (w : ℕ) → ltb w (2 ^ 32) ≡ true → IsWord w
literal w e = ltb→lt w (2 ^ 32) e

bit_of_test : (b : Bool) → (if b then 0 else 1) <<< 12 < 2 ^ 32
bit_of_test true = omega arith
bit_of_test false = omega arith

module _ (c : ℕ) where
  shamt : bit_or (field c 2 0x1f) (field c 12 0x1 <<< 5) < 2 ^ 12
  shamt = or_bits 12 (masked 12 (c >>> 2) 0x1f refl) (shifted 12 (c >>> 12) 0x1 5 refl)

  quadrant0-IsWord : IsWord (quadrant0 c)
  unfolding quadrant0
  quadrant0-IsWord =
      let unscaled =
        or_bits 12
          (or_bits 12
            (or_bits 12 (shifted 12 (c >>> 7) 0xf 6 refl) (shifted 12 (c >>> 11) 0x3 4 refl))
            (shifted 12 (c >>> 5) 0x1 3 refl))
          (shifted 12 (c >>> 6) 0x1 2 refl) in
      let word =
        or_bits 12 (or_bits 12 (shifted 12 (c >>> 6) 0x1 2 refl) (shifted 12 (c >>> 10) 0x7 3 refl))
          (shifted 12 (c >>> 5) 0x1 6 refl) in
      let double =
        or_bits 12 (shifted 12 (c >>> 10) 0x7 3 refl) (shifted 12 (c >>> 5) 0x3 6 refl) in
      if_bits (field c 13 0x7 == 0)
        (if_bits (c == 0) (literal illegal refl) (
          i_word-IsWord _ 2 0 _ 19 (unscaled) (omega arith) (omega arith) (short (c >>> 2))
            (omega arith)))
        (if_bits (field c 13 0x7 == 2)
          (i_word-IsWord _ _ 2 _ 3 (word) (short (c >>> 7)) (omega arith) (short (c >>> 2))
            (omega arith))
          (if_bits (field c 13 0x7 == 3)
            (i_word-IsWord _ _ 3 _ 3 (double) (short (c >>> 7)) (omega arith) (short (c >>> 2))
              (omega arith))
            (if_bits (field c 13 0x7 == 6)
              (s_word-IsWord _ _ _ 2 35 (short (c >>> 2)) (short (c >>> 7)) (omega arith)
                (omega arith))
              (if_bits (field c 13 0x7 == 7)
                (s_word-IsWord _ _ _ 3 35 (short (c >>> 2)) (short (c >>> 7)) (omega arith)
                  (omega arith))
                (literal illegal refl)))))

  lui_or_addi16sp-IsWord : IsWord (lui_or_addi16sp c)
  unfolding lui_or_addi16sp
  lui_or_addi16sp-IsWord =
      if_bits (field c 7 0x1f == 2)
        (i_word-IsWord _ 2 0 2 19 (masked 12 _ 0xfff refl) (omega arith) (omega arith) (omega arith)
          (omega arith))
        (or_bits 32 (or_bits 32 (masked 32 _ 0xffff_f000 refl) (shifted 32 (c >>> 7) 0x1f 7 refl))
          (literal 0x37 refl))

  alu-IsWord : IsWord (alu c)
  unfolding alu
  alu-IsWord =
      if_bits (field c 10 0x3 == 0)
        (i_word-IsWord _ _ 5 _ 19 (shamt) (short (c >>> 7)) (omega arith) (short (c >>> 7))
          (omega arith))
        (if_bits (field c 10 0x3 == 1)
          (or_bits 32 (literal (0x20 <<< 25) refl) (
            i_word-IsWord _ _ 5 _ 19 (shamt) (short (c >>> 7)) (omega arith) (short (c >>> 7))
              (omega arith)))
          (if_bits (field c 10 0x3 == 2)
            (i_word-IsWord _ _ 7 _ 19 (masked 12 _ 0xfff refl) (short (c >>> 7)) (omega arith)
              (short (c >>> 7)) (omega arith))
            (if_bits (any_set (c >>> 12) 1)
              (if_bits (field c 5 0x3 == 0)
                (r_word-IsWord 32 _ _ 0 _ 59 (omega arith) (short (c >>> 2)) (short (c >>> 7))
                  (omega arith) (short (c >>> 7)) (omega arith))
                (if_bits (field c 5 0x3 == 1)
                  (r_word-IsWord 0 _ _ 0 _ 59 (omega arith) (short (c >>> 2)) (short (c >>> 7))
                    (omega arith) (short (c >>> 7)) (omega arith))
                  (literal illegal refl)))
              (if_bits (field c 5 0x3 == 0)
                (r_word-IsWord 32 _ _ 0 _ 51 (omega arith) (short (c >>> 2)) (short (c >>> 7))
                  (omega arith) (short (c >>> 7)) (omega arith))
                (if_bits (field c 5 0x3 == 1)
                  (r_word-IsWord 0 _ _ 4 _ 51 (omega arith) (short (c >>> 2)) (short (c >>> 7))
                    (omega arith) (short (c >>> 7)) (omega arith))
                  (if_bits (field c 5 0x3 == 2)
                    (r_word-IsWord 0 _ _ 6 _ 51 (omega arith) (short (c >>> 2)) (short (c >>> 7))
                      (omega arith) (short (c >>> 7)) (omega arith))
                    (r_word-IsWord 0 _ _ 7 _ 51 (omega arith) (short (c >>> 2)) (short (c >>> 7))
                      (omega arith) (short (c >>> 7)) (omega arith))))))))

  jump-IsWord : IsWord (jump c)
  unfolding jump
  jump-IsWord =
      or_bits 32
        (or_bits 32
          (or_bits 32 (or_bits 32 (shifted 32 _ 0x1 31 refl) (shifted 32 _ 0x3ff 21 refl))
            (shifted 32 _ 0x1 20 refl))
          (shifted 32 _ 0xff 12 refl))
        (literal 0x6f refl)

  branch-IsWord : (funct3 : ℕ) → IsWord (branch c funct3)
  unfolding branch
  branch-IsWord funct3 =
      or_bits 32
        (or_bits 32
          (or_bits 32
            (or_bits 32
              (or_bits 32 (or_bits 32 (shifted 32 _ 0x1 31 refl) (shifted 32 _ 0x3f 25 refl))
                (omega (arith, short (c >>> 7))))
              (bit_of_test (funct3 == 6)))
            (shifted 32 _ 0xf 8 refl))
          (shifted 32 _ 0x1 7 refl))
        (literal 0x63 refl)

  quadrant1-IsWord : IsWord (quadrant1 c)
  unfolding quadrant1
  quadrant1-IsWord =
      if_bits (field c 13 0x7 == 0)
        (if_bits (field c 7 0x1f == 0) (literal 0x13 refl) (
          i_word-IsWord _ _ 0 _ 19 (masked 12 _ 0xfff refl) (masked 5 (c >>> 7) 0x1f refl)
            (omega arith) (masked 5 (c >>> 7) 0x1f refl) (omega arith)))
        (if_bits (field c 13 0x7 == 1)
          (i_word-IsWord _ _ 0 _ 27 (masked 12 _ 0xfff refl) (masked 5 (c >>> 7) 0x1f refl)
            (omega arith) (masked 5 (c >>> 7) 0x1f refl) (omega arith))
          (if_bits (field c 13 0x7 == 2)
            (i_word-IsWord _ 0 0 _ 19 (masked 12 _ 0xfff refl) (omega arith) (omega arith)
              (masked 5 (c >>> 7) 0x1f refl) (omega arith))
            (if_bits (field c 13 0x7 == 3) (lui_or_addi16sp-IsWord) (
              if_bits (field c 13 0x7 == 4) (alu-IsWord)
                (if_bits (field c 13 0x7 == 5) (jump-IsWord) (branch-IsWord (field c 13 0x7)))))))

  jump_move_add-IsWord : IsWord (jump_move_add c)
  unfolding jump_move_add
  jump_move_add-IsWord =
      if_bits (bit_and c 0x1000 == 0)
        (if_bits (field c 2 0x1f == 0)
          (i_word-IsWord 0 _ 0 0 103 (omega arith) (masked 5 (c >>> 7) 0x1f refl) (omega arith)
            (omega arith) (omega arith))
          (r_word-IsWord 0 _ 0 0 _ 51 (omega arith) (masked 5 (c >>> 2) 0x1f refl) (omega arith)
            (omega arith) (masked 5 (c >>> 7) 0x1f refl) (omega arith)))
        (if_bits (field c 2 0x1f == 0)
          (if_bits (field c 7 0x1f == 0) (literal 0x0010_0073 refl) (
            i_word-IsWord 0 _ 0 1 103 (omega arith) (masked 5 (c >>> 7) 0x1f refl) (omega arith)
              (omega arith) (omega arith)))
          (r_word-IsWord 0 _ _ 0 _ 51 (omega arith) (masked 5 (c >>> 2) 0x1f refl)
            (masked 5 (c >>> 7) 0x1f refl) (omega arith) (masked 5 (c >>> 7) 0x1f refl)
            (omega arith)))

  quadrant2-IsWord : IsWord (quadrant2 c)
  unfolding quadrant2
  quadrant2-IsWord =
      let double =
        or_bits 12 (or_bits 12 (shifted 12 (c >>> 5) 0x3 3 refl) (shifted 12 (c >>> 12) 0x1 5 refl))
          (shifted 12 (c >>> 2) 0x7 6 refl) in
      let word =
        or_bits 12 (or_bits 12 (shifted 12 (c >>> 4) 0x7 2 refl) (shifted 12 (c >>> 12) 0x1 5 refl))
          (shifted 12 (c >>> 2) 0x3 6 refl) in
      if_bits (field c 13 0x7 == 0)
        (i_word-IsWord _ _ 1 _ 19 (shamt) (masked 5 (c >>> 7) 0x1f refl) (omega arith)
          (masked 5 (c >>> 7) 0x1f refl) (omega arith))
        (if_bits (field c 13 0x7 == 1)
          (i_word-IsWord _ 2 3 _ 7 (double) (omega arith) (omega arith)
            (masked 5 (c >>> 7) 0x1f refl) (omega arith))
          (if_bits (field c 13 0x7 == 2)
            (i_word-IsWord _ 2 2 _ 3 (word) (omega arith) (omega arith)
              (masked 5 (c >>> 7) 0x1f refl) (omega arith))
            (if_bits (field c 13 0x7 == 3)
              (i_word-IsWord _ 2 3 _ 3 (double) (omega arith) (omega arith)
                (masked 5 (c >>> 7) 0x1f refl) (omega arith))
              (if_bits (field c 13 0x7 == 4) (jump_move_add-IsWord) (
                if_bits (field c 13 0x7 == 5)
                  (s_word-IsWord _ _ 2 3 39 (masked 5 (c >>> 2) 0x1f refl) (omega arith)
                    (omega arith) (omega arith))
                  (if_bits (field c 13 0x7 == 6)
                    (s_word-IsWord _ _ 2 2 35 (masked 5 (c >>> 2) 0x1f refl) (omega arith)
                      (omega arith) (omega arith))
                    (s_word-IsWord _ _ 2 3 35 (masked 5 (c >>> 2) 0x1f refl) (omega arith)
                      (omega arith) (omega arith))))))))

-- What decompress gives is a 32-bit word, whatever the half-word is.
pub decompress-lt : (c : ℕ) → decompress c < 2 ^ 32
unfolding decompress
decompress-lt c = if_bits (bit_and c 3 == 0) (quadrant0-IsWord c) (
    if_bits (bit_and c 3 == 1) (quadrant1-IsWord c)
      (if_bits (bit_and c 3 == 2) (quadrant2-IsWord c) (literal 0xffff_ffff refl)))
