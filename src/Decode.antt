-- ===== src/Decode.antt =====
-- src/Core/Interpreter.cpp and include/core/Interpreter.h: a 32-bit instruction word taken apart.
pub mod Immediates
pub mod Fields
use rv64i_simulator.Base.{ℕ, ◌-◌, ◌==◌, if◌then◌else◌, bit_and, bit_or, ◌<<<◌, ◌>>>◌, u32, asr32}

-- `imm` is the pattern of an `int32_t`; `pc` and `length` are those of an `int64_t`.
pub record DecodedInstruction : Type 0 where
  pub opcode : ℕ
  pub rd : ℕ
  pub rs1 : ℕ
  pub rs2 : ℕ
  pub funct3 : ℕ
  pub funct7 : ℕ
  pub imm : ℕ
  pub pc : ℕ
  pub length : ℕ

pub data InstructionFormat : Type 0 where
  r i s b u j : InstructionFormat

unfoldable pub get_format : ℕ → InstructionFormat
get_format opcode =
    if opcode == 0x0f
    then InstructionFormat.i
    else if opcode == 0x33
    then InstructionFormat.r
    else if opcode == 0x3b
    then InstructionFormat.r
    else if opcode == 0x13
    then InstructionFormat.i
    else if opcode == 0x1b
    then InstructionFormat.i
    else if opcode == 0x03
    then InstructionFormat.i
    else if opcode == 0x67
    then InstructionFormat.i
    else if opcode == 0x73
    then InstructionFormat.i
    else if opcode == 0x23
    then InstructionFormat.s
    else if opcode == 0x63
    then InstructionFormat.b
    else if opcode == 0x37
    then InstructionFormat.u
    else if opcode == 0x17
    then InstructionFormat.u
    else if opcode == 0x6f
    then InstructionFormat.j
    else if opcode == 0x07
    then InstructionFormat.i
    else if opcode == 0x27
    then InstructionFormat.s
    else InstructionFormat.r

-- `(value << shift) >> shift` on `int32_t`.
unfoldable pub sign_extend : ℕ → ℕ → ℕ
sign_extend value bits = let shift = 32 - bits in asr32 (u32 (value <<< shift)) shift

unfoldable pub decode_i : ℕ → ℕ
decode_i raw = sign_extend (raw >>> 20) 12

unfoldable pub decode_s : ℕ → ℕ
decode_s raw = sign_extend (bit_or (raw >>> 25 <<< 5) (bit_and (raw >>> 7) 0x1f)) 12

unfoldable pub decode_b : ℕ → ℕ
decode_b raw =
    sign_extend
      (bit_or
        (bit_or (bit_or (raw >>> 31 <<< 12) (bit_and (raw >>> 7) 1 <<< 11))
          (bit_and (raw >>> 25) 0x3f <<< 5))
        (bit_and (raw >>> 8) 0xf <<< 1))
      13

unfoldable pub decode_u : ℕ → ℕ
decode_u raw = bit_and raw 0xffff_f000

unfoldable pub decode_j : ℕ → ℕ
decode_j raw =
    sign_extend
      (bit_or
        (bit_or (bit_or (raw >>> 31 <<< 20) (bit_and (raw >>> 12) 0xff <<< 12))
          (bit_and (raw >>> 20) 1 <<< 11))
        (bit_and (raw >>> 21) 0x3ff <<< 1))
      21

-- The switch over the format.
unfoldable pub immediate : InstructionFormat → ℕ → ℕ
immediate InstructionFormat.i raw = decode_i raw
immediate InstructionFormat.s raw = decode_s raw
immediate InstructionFormat.b raw = decode_b raw
immediate InstructionFormat.u raw = decode_u raw
immediate InstructionFormat.j raw = decode_j raw
immediate InstructionFormat.r raw = 0

unfoldable pub decode : ℕ → ℕ → ℕ → DecodedInstruction
decode raw program_counter length =
    let opcode = bit_and raw 0x7f in
    record {
      opcode = opcode;
      rd = bit_and (raw >>> 7) 0x1f;
      rs1 = bit_and (raw >>> 15) 0x1f;
      rs2 = bit_and (raw >>> 20) 0x1f;
      funct3 = bit_and (raw >>> 12) 0x7;
      funct7 = bit_and (raw >>> 25) 0x7f;
      imm = immediate (get_format opcode) raw;
      pc = program_counter;
      length = length;
    }
