-- ===== src/Compressed/Fields.antt =====
-- The notation of `decompress`: fields of the 16-bit word, and the 32-bit words put together by `|`.
use rv64i_simulator.Base.{ℕ, bit_and, bit_or, ◌<<<◌, ◌>>>◌}

abbrev pub illegal : ℕ
illegal = 0xffff_ffff

-- `(c >> k) & mask`.
abbrev pub field : ℕ → ℕ → ℕ → ℕ
field c k mask = bit_and (c >>> k) mask

-- `(a << 20) | (rs1 << 15) | (funct3 << 12) | (rd << 7) | opcode`.
abbrev pub i_word : ℕ → ℕ → ℕ → ℕ → ℕ → ℕ
i_word a rs1 funct3 rd opcode =
    bit_or (bit_or (bit_or (bit_or (a <<< 20) (rs1 <<< 15)) (funct3 <<< 12)) (rd <<< 7)) opcode

-- `(funct7 << 25) | (rs2 << 20) | (rs1 << 15) | (funct3 << 12) | (rd << 7) | opcode`.
abbrev pub r_word : ℕ → ℕ → ℕ → ℕ → ℕ → ℕ → ℕ
r_word funct7 rs2 rs1 funct3 rd opcode =
    bit_or
      (bit_or (bit_or (bit_or (bit_or (funct7 <<< 25) (rs2 <<< 20)) (rs1 <<< 15)) (funct3 <<< 12))
        (rd <<< 7))
      opcode

-- `(((imm >> 5) & 0x7F) << 25) | ... | ((imm & 0x1F) << 7) | opcode`.
abbrev pub s_word : ℕ → ℕ → ℕ → ℕ → ℕ → ℕ
s_word imm rs2 rs1 funct3 opcode =
    r_word (bit_and (imm >>> 5) 0x7f) rs2 rs1 funct3 (bit_and imm 0x1f) opcode
