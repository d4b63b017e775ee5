-- ===== src/Decode/Fields.antt =====
-- The fields of `Interpreter::decode`, put in their places and read back.
use rv64i_simulator.Base.{ℕ, ◌+◌, ◌*◌, ◌^◌, ◌<◌, ◌≡◌, ◌/◌, refl, bit_and, arith}
use rv64i_simulator.Base.Bits.{bit_and_mask}
use rv64i_simulator.Decode.{decode, immediate, get_format}

-- The word with these fields.
abbrev pub word_of : ℕ → ℕ → ℕ → ℕ → ℕ → ℕ → ℕ
word_of opcode rd funct3 rs1 rs2 funct7 =
    opcode + rd * 2 ^ 7 + funct3 * 2 ^ 12 + rs1 * 2 ^ 15 + rs2 * 2 ^ 20 + funct7 * 2 ^ 25

-- Fields within their widths, put at their places in an instruction word, are the fields that
-- decode gives back, with the immediate of the opcode's format, the program counter and the
-- length.
pub decode-word_of :
    (opcode rd funct3 rs1 rs2 funct7 pc length : ℕ)
    → opcode < 2 ^ 7
    → rd < 2 ^ 5
    → funct3 < 2 ^ 3
    → rs1 < 2 ^ 5
    → rs2 < 2 ^ 5
    → funct7 < 2 ^ 7
    → let raw = word_of opcode rd funct3 rs1 rs2 funct7 in
      let inst = decode raw pc length in
      (inst.opcode ≡ opcode)
      × (inst.rd ≡ rd)
      × (inst.funct3 ≡ funct3)
      × (inst.rs1 ≡ rs1)
      × (inst.rs2 ≡ rs2)
      × (inst.funct7 ≡ funct7)
      × (inst.imm ≡ immediate (get_format opcode) raw)
      × (inst.pc ≡ pc)
      × (inst.length ≡ length)
unfolding decode
decode-word_of opcode rd funct3 rs1 rs2 funct7 pc length a b c d e f =
    let raw = word_of opcode rd funct3 rs1 rs2 funct7 in
    let op : bit_and raw 0x7f ≡ opcode = omega (arith, bit_and_mask 7 raw) in
    (
      op,
      omega (arith, bit_and_mask 5 (raw / 2 ^ 7)),
      omega (arith, bit_and_mask 3 (raw / 2 ^ 12)),
      omega (arith, bit_and_mask 5 (raw / 2 ^ 15)),
      omega (arith, bit_and_mask 5 (raw / 2 ^ 20)),
      omega (arith, bit_and_mask 7 (raw / 2 ^ 25)),
      rw op refl,
      refl,
      refl,
    )
