-- ===== src/Compressed/Quadrant0.antt =====
-- `case 0` of `decompress`: stack pointer sums, loads and stores of the short registers.
use rv64i_simulator.Base.{ℕ, ◌+◌, ◌==◌, if◌then◌else◌, bit_or, ◌<<<◌}
use rv64i_simulator.Compressed.Fields.{illegal, field, i_word, s_word}

unfoldable pub quadrant0 : ℕ → ℕ
quadrant0 c =
    let funct3 = field c 13 0x7 in
    let short_rd = field c 2 0x7 + 8 in
    let rs1 = field c 7 0x7 + 8 in
    let word_imm =
      bit_or (bit_or (field c 6 0x1 <<< 2) (field c 10 0x7 <<< 3)) (field c 5 0x1 <<< 6) in
    let double_imm = bit_or (field c 10 0x7 <<< 3) (field c 5 0x3 <<< 6) in
    if funct3 == 0
    then (if c == 0
        then illegal
        else (let imm =
              bit_or
                (bit_or (bit_or (field c 7 0xf <<< 6) (field c 11 0x3 <<< 4)) (field c 5 0x1 <<< 3))
                (field c 6 0x1 <<< 2) in
            i_word imm 2 0 short_rd 0x13))
    else if funct3 == 2
    then i_word word_imm rs1 2 short_rd 0x03
    else if funct3 == 3
    then i_word double_imm rs1 3 short_rd 0x03
    else if funct3 == 6
    then s_word word_imm short_rd rs1 2 0x23
    else if funct3 == 7
    then s_word double_imm short_rd rs1 3 0x23
    else illegal
