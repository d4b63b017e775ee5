-- ===== src/Compressed/Quadrant2.antt =====
-- `case 2` of `decompress`: stack loads and stores, moves, sums and jumps through a register.
use rv64i_simulator.Base.{ℕ, ◌==◌, if◌then◌else◌, bit_and, bit_or, ◌<<<◌}
use rv64i_simulator.Compressed.Fields.{field, i_word, r_word, s_word}

-- `case 4`: `C.JR`, `C.MV`, `C.EBREAK`, `C.JALR` and `C.ADD`.
unfoldable pub jump_move_add : ℕ → ℕ
jump_move_add c =
    let rd = field c 7 0x1f in
    let rs2 = field c 2 0x1f in
    if bit_and c 0x1000 == 0
    then (if rs2 == 0 then i_word 0 rd 0 0 0x67 else r_word 0 rs2 0 0 rd 0x33)
    else if rs2 == 0
    then (if rd == 0 then 0x0010_0073 else i_word 0 rd 0 1 0x67)
    else r_word 0 rs2 rd 0 rd 0x33

unfoldable pub quadrant2 : ℕ → ℕ
quadrant2 c =
    let funct3 = field c 13 0x7 in
    let rd = field c 7 0x1f in
    let rs2 = field c 2 0x1f in
    let double_load =
      bit_or (bit_or (field c 5 0x3 <<< 3) (field c 12 0x1 <<< 5)) (field c 2 0x7 <<< 6) in
    let word_load =
      bit_or (bit_or (field c 4 0x7 <<< 2) (field c 12 0x1 <<< 5)) (field c 2 0x3 <<< 6) in
    let double_store = bit_or (field c 10 0x7 <<< 3) (field c 7 0x7 <<< 6) in
    let word_store = bit_or (field c 9 0xf <<< 2) (field c 7 0x3 <<< 6) in
    let shamt = bit_or (field c 2 0x1f) (field c 12 0x1 <<< 5) in
    if funct3 == 0
    then i_word shamt rd 1 rd 0x13
    else if funct3 == 1
    then i_word double_load 2 3 rd 0x07
    else if funct3 == 2
    then i_word word_load 2 2 rd 0x03
    else if funct3 == 3
    then i_word double_load 2 3 rd 0x03
    else if funct3 == 4
    then jump_move_add c
    else if funct3 == 5
    then s_word double_store rs2 2 3 0x27
    else if funct3 == 6
    then s_word word_store rs2 2 2 0x23
    else s_word double_store rs2 2 3 0x23
