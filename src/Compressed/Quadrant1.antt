-- ===== src/Compressed/Quadrant1.antt =====
-- `case 1` of `decompress`: immediate arithmetic, jumps and branches. An immediate is the pattern of
-- an `int32_t`.
use rv64i_simulator.Base.{
  ℕ, ◌+◌, ◌==◌, if◌then◌else◌, bit_and, bit_or, ◌<<<◌, ◌>>>◌, any_set, asr32,
}
use rv64i_simulator.Compressed.Fields.{illegal, field, i_word, r_word}

-- `((c >> 2) & 0x1F) | ((c & 0x1000) ? 0xFFFFFFE0 : 0)`.
abbrev imm6 : ℕ → ℕ
imm6 c = bit_or (field c 2 0x1f) (if any_set c 0x1000 then 0xffff_ffe0 else 0)

abbrev shamt6 : ℕ → ℕ
shamt6 c = bit_or (field c 2 0x1f) (field c 12 0x1 <<< 5)

-- `case 3`: `C.ADDI16SP` and `C.LUI`.
unfoldable pub lui_or_addi16sp : ℕ → ℕ
lui_or_addi16sp c =
    let rd = field c 7 0x1f in
    if rd == 2
    then (let imm =
          bit_or
            (bit_or
              (bit_or (bit_or (field c 6 0x1 <<< 4) (field c 2 0x1 <<< 5)) (field c 5 0x1 <<< 6))
              (field c 3 0x3 <<< 7))
            (if any_set c 0x1000 then 0xffff_fe00 else 0) in
        i_word (bit_and imm 0xfff) 2 0 2 0x13)
    else (let imm = bit_or (field c 2 0x1f <<< 12) (if any_set c 0x1000 then 0xfffe_0000 else 0) in
        bit_or (bit_or (bit_and imm 0xffff_f000) (rd <<< 7)) 0x37)

-- `case 4`: shifts, `C.ANDI` and the register operations.
unfoldable pub alu : ℕ → ℕ
alu c =
    let funct2 = field c 10 0x3 in
    let rd = field c 7 0x7 + 8 in
    let rs2 = field c 2 0x7 + 8 in
    let funct1 = field c 5 0x3 in
    if funct2 == 0
    then i_word (shamt6 c) rd 5 rd 0x13
    else if funct2 == 1
    then bit_or (0x20 <<< 25) (i_word (shamt6 c) rd 5 rd 0x13)
    else if funct2 == 2
    then i_word (bit_and (imm6 c) 0xfff) rd 7 rd 0x13
    else if any_set (c >>> 12) 1
    then (if funct1 == 0
        then r_word 0x20 rs2 rd 0 rd 0x3b
        else if funct1 == 1
        then r_word 0x00 rs2 rd 0 rd 0x3b
        else illegal)
    else (if funct1 == 0
        then r_word 0x20 rs2 rd 0 rd 0x33
        else if funct1 == 1
        then r_word 0x00 rs2 rd 4 rd 0x33
        else if funct1 == 2
        then r_word 0x00 rs2 rd 6 rd 0x33
        else r_word 0x00 rs2 rd 7 rd 0x33)

-- `case 5`: `C.J`.
unfoldable pub jump : ℕ → ℕ
jump c =
    let low =
      bit_or
        (bit_or
          (bit_or
            (bit_or
              (bit_or
                (bit_or (bit_or (field c 3 0x7 <<< 1) (field c 11 0x1 <<< 4)) (field c 2 0x1 <<< 5))
                (field c 7 0x1 <<< 6))
              (field c 6 0x1 <<< 7))
            (field c 9 0x3 <<< 8))
          (field c 8 0x1 <<< 10))
        (field c 12 0x1 <<< 11) in
    let imm = if any_set c 0x1000 then bit_or low 0xffff_f000 else low in
    bit_or
      (bit_or
        (bit_or (bit_or (bit_and (asr32 imm 20) 0x1 <<< 31) (bit_and (asr32 imm 1) 0x3ff <<< 21))
          (bit_and (asr32 imm 11) 0x1 <<< 20))
        (bit_and (asr32 imm 12) 0xff <<< 12))
      0x6f

-- `case 6` and `case 7`: `C.BEQZ` and `C.BNEZ`.
unfoldable pub branch : ℕ → ℕ → ℕ
branch c funct3 =
    let rs1 = field c 7 0x7 + 8 in
    let low =
      bit_or
        (bit_or (bit_or (bit_or (field c 3 0x3 <<< 1) (field c 10 0x3 <<< 3)) (field c 2 0x1 <<< 5))
          (field c 5 0x3 <<< 6))
        (field c 12 0x1 <<< 8) in
    let imm = if any_set c 0x1000 then bit_or low 0xffff_fe00 else low in
    let funct3_b : ℕ = if funct3 == 6 then 0 else 1 in
    bit_or
      (bit_or
        (bit_or
          (bit_or
            (bit_or (bit_or (bit_and (asr32 imm 12) 0x1 <<< 31) (bit_and (asr32 imm 5) 0x3f <<< 25))
              (rs1 <<< 15))
            (funct3_b <<< 12))
          (bit_and (asr32 imm 1) 0xf <<< 8))
        (bit_and (asr32 imm 11) 0x1 <<< 7))
      (0x63)

unfoldable pub quadrant1 : ℕ → ℕ
quadrant1 c =
    let funct3 = field c 13 0x7 in
    let rd = field c 7 0x1f in
    if funct3 == 0
    then (if rd == 0 then 0x0000_0013 else i_word (bit_and (imm6 c) 0xfff) rd 0 rd 0x13)
    else if funct3 == 1
    then i_word (bit_and (imm6 c) 0xfff) rd 0 rd 0x1b
    else if funct3 == 2
    then i_word (bit_and (imm6 c) 0xfff) 0 0 rd 0x13
    else if funct3 == 3
    then lui_or_addi16sp c
    else if funct3 == 4
    then alu c
    else if funct3 == 5
    then jump c
    else branch c funct3
