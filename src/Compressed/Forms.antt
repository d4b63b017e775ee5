-- ===== src/Compressed/Forms.antt =====
-- The compressed instructions as the manual lists them: the fields of each, its 16-bit form, and the
-- instruction of the base set that it stands for. A scaled offset is its multiple, `u`.
use rv64i_simulator.Base.{ℕ, ◌+◌, ◌-◌, ◌*◌, ◌/◌, ◌%◌, ◌^◌, ◌<◌, ◌≢◌, ltb, if◌then◌else◌}
use rv64i_simulator.Decode.Immediates.{format_i, format_s, format_b, format_j}

pub data Rvc : Type 0 where
  addi4spn : ℕ → ℕ → Rvc
  lw : ℕ → ℕ → ℕ → Rvc
  ld : ℕ → ℕ → ℕ → Rvc
  sw : ℕ → ℕ → ℕ → Rvc
  sd : ℕ → ℕ → ℕ → Rvc
  nop : ℕ → Rvc
  addi : ℕ → ℕ → Rvc
  addiw : ℕ → ℕ → Rvc
  li : ℕ → ℕ → Rvc
  addi16sp : ℕ → Rvc
  lui : ℕ → ℕ → Rvc
  srli : ℕ → ℕ → Rvc
  srai : ℕ → ℕ → Rvc
  andi : ℕ → ℕ → Rvc
  sub : ℕ → ℕ → Rvc
  xor : ℕ → ℕ → Rvc
  or : ℕ → ℕ → Rvc
  and : ℕ → ℕ → Rvc
  subw : ℕ → ℕ → Rvc
  addw : ℕ → ℕ → Rvc
  j : ℕ → Rvc
  beqz : ℕ → ℕ → Rvc
  bnez : ℕ → ℕ → Rvc
  slli : ℕ → ℕ → Rvc
  fldsp : ℕ → ℕ → Rvc
  lwsp : ℕ → ℕ → Rvc
  ldsp : ℕ → ℕ → Rvc
  jr : ℕ → Rvc
  mv : ℕ → ℕ → Rvc
  ebreak : Rvc
  jalr : ℕ → Rvc
  add : ℕ → ℕ → Rvc
  fsdsp : ℕ → ℕ → Rvc
  swsp : ℕ → ℕ → Rvc
  sdsp : ℕ → ℕ → Rvc

-- The fields have their widths, and the form is neither that of another instruction nor reserved. A
-- `nop` with an immediate other than 0 is a hint, as is a write to x0, and is executed as such.
abbrev pub IsLegal : Rvc → Type 0
IsLegal (Rvc.addi4spn rd u) = (rd < 8) × (u < 256) × (0 < u)
IsLegal (Rvc.lw rd rs1 u) = (rd < 8) × (rs1 < 8) × (u < 32)
IsLegal (Rvc.ld rd rs1 u) = (rd < 8) × (rs1 < 8) × (u < 32)
IsLegal (Rvc.sw rs2 rs1 u) = (rs2 < 8) × (rs1 < 8) × (u < 32)
IsLegal (Rvc.sd rs2 rs1 u) = (rs2 < 8) × (rs1 < 8) × (u < 32)
IsLegal (Rvc.nop imm) = (imm < 64)
IsLegal (Rvc.addi rd imm) = (rd < 32) × (imm < 64) × (0 < rd)
IsLegal (Rvc.addiw rd imm) = (rd < 32) × (imm < 64) × (0 < rd)
IsLegal (Rvc.li rd imm) = (rd < 32) × (imm < 64)
IsLegal (Rvc.addi16sp u) = (u < 64) × (0 < u)
IsLegal (Rvc.lui rd imm) = (rd < 32) × (imm < 64) × (rd ≢ 2) × (0 < imm)
IsLegal (Rvc.srli rd imm) = (rd < 8) × (imm < 64)
IsLegal (Rvc.srai rd imm) = (rd < 8) × (imm < 64)
IsLegal (Rvc.andi rd imm) = (rd < 8) × (imm < 64)
IsLegal (Rvc.sub rd rs2) = (rd < 8) × (rs2 < 8)
IsLegal (Rvc.xor rd rs2) = (rd < 8) × (rs2 < 8)
IsLegal (Rvc.or rd rs2) = (rd < 8) × (rs2 < 8)
IsLegal (Rvc.and rd rs2) = (rd < 8) × (rs2 < 8)
IsLegal (Rvc.subw rd rs2) = (rd < 8) × (rs2 < 8)
IsLegal (Rvc.addw rd rs2) = (rd < 8) × (rs2 < 8)
IsLegal (Rvc.j u) = (u < 2048)
IsLegal (Rvc.beqz rs1 u) = (rs1 < 8) × (u < 256)
IsLegal (Rvc.bnez rs1 u) = (rs1 < 8) × (u < 256)
IsLegal (Rvc.slli rd imm) = (rd < 32) × (imm < 64)
IsLegal (Rvc.fldsp rd u) = (rd < 32) × (u < 64)
IsLegal (Rvc.lwsp rd u) = (rd < 32) × (u < 64) × (0 < rd)
IsLegal (Rvc.ldsp rd u) = (rd < 32) × (u < 64) × (0 < rd)
IsLegal (Rvc.jr rs1) = (rs1 < 32) × (0 < rs1)
IsLegal (Rvc.mv rd rs2) = (rd < 32) × (rs2 < 32) × (0 < rs2)
IsLegal Rvc.ebreak = Unit
IsLegal (Rvc.jalr rs1) = (rs1 < 32) × (0 < rs1)
IsLegal (Rvc.add rd rs2) = (rd < 32) × (rs2 < 32) × (0 < rs2)
IsLegal (Rvc.fsdsp rs2 u) = (rs2 < 32) × (u < 64)
IsLegal (Rvc.swsp rs2 u) = (rs2 < 32) × (u < 64)
IsLegal (Rvc.sdsp rs2 u) = (rs2 < 32) × (u < 64)

-- A signed immediate of `bits` bits as one of 12.
abbrev widened : ℕ → ℕ → ℕ
widened bits x = if ltb x (2 ^ (bits - 1)) then x else x + (2 ^ 12 - 2 ^ bits)

abbrev i_type : ℕ → ℕ → ℕ → ℕ → ℕ → ℕ
i_type imm rs1 funct3 rd opcode =
    format_i imm (rs1 * 2 ^ 15 + funct3 * 2 ^ 12 + rd * 2 ^ 7 + opcode)

abbrev s_type : ℕ → ℕ → ℕ → ℕ → ℕ → ℕ
s_type imm rs2 rs1 funct3 opcode = format_s imm (rs2 * 2 ^ 8 + rs1 * 2 ^ 3 + funct3) opcode

abbrev r_type : ℕ → ℕ → ℕ → ℕ → ℕ → ℕ → ℕ
r_type funct7 rs2 rs1 funct3 rd opcode =
    format_i (funct7 * 2 ^ 5 + rs2) (rs1 * 2 ^ 15 + funct3 * 2 ^ 12 + rd * 2 ^ 7 + opcode)

abbrev lui_type : ℕ → ℕ → ℕ
lui_type imm rd =
    (if ltb imm (2 ^ 5) then imm else imm + (2 ^ 20 - 2 ^ 6)) * 2 ^ 12 + rd * 2 ^ 7 + 0x37

abbrev branch_type : ℕ → ℕ → ℕ → ℕ
branch_type u rs1 funct3 =
    format_b (if ltb u (2 ^ 7) then 2 * u else 2 * u + (2 ^ 13 - 2 ^ 9)) (rs1 * 2 ^ 3 + funct3) 0x63

unfoldable pub expansion : Rvc → ℕ
expansion (Rvc.addi4spn rd u) = i_type (4 * u) (2) 0 (rd + 8) 0x13
expansion (Rvc.lw rd rs1 u) = i_type (4 * u) (rs1 + 8) 2 (rd + 8) 0x3
expansion (Rvc.ld rd rs1 u) = i_type (8 * u) (rs1 + 8) 3 (rd + 8) 0x3
expansion (Rvc.sw rs2 rs1 u) = s_type (4 * u) (rs2 + 8) (rs1 + 8) 2 0x23
expansion (Rvc.sd rs2 rs1 u) = s_type (8 * u) (rs2 + 8) (rs1 + 8) 3 0x23
expansion (Rvc.nop imm) = i_type 0 0 0 0 0x13
expansion (Rvc.addi rd imm) = i_type (widened 6 imm) (rd) 0 (rd) 0x13
expansion (Rvc.addiw rd imm) = i_type (widened 6 imm) (rd) 0 (rd) 0x1b
expansion (Rvc.li rd imm) = i_type (widened 6 imm) (0) 0 (rd) 0x13
expansion (Rvc.addi16sp u) = i_type (widened 10 (16 * u)) (2) 0 (2) 0x13
expansion (Rvc.lui rd imm) = lui_type imm rd
expansion (Rvc.srli rd imm) = i_type (imm) (rd + 8) 5 (rd + 8) 0x13
expansion (Rvc.srai rd imm) = i_type (1024 + imm) (rd + 8) 5 (rd + 8) 0x13
expansion (Rvc.andi rd imm) = i_type (widened 6 imm) (rd + 8) 7 (rd + 8) 0x13
expansion (Rvc.sub rd rs2) = r_type 32 (rs2 + 8) (rd + 8) 0 (rd + 8) 0x33
expansion (Rvc.xor rd rs2) = r_type 0 (rs2 + 8) (rd + 8) 4 (rd + 8) 0x33
expansion (Rvc.or rd rs2) = r_type 0 (rs2 + 8) (rd + 8) 6 (rd + 8) 0x33
expansion (Rvc.and rd rs2) = r_type 0 (rs2 + 8) (rd + 8) 7 (rd + 8) 0x33
expansion (Rvc.subw rd rs2) = r_type 32 (rs2 + 8) (rd + 8) 0 (rd + 8) 0x3b
expansion (Rvc.addw rd rs2) = r_type 0 (rs2 + 8) (rd + 8) 0 (rd + 8) 0x3b
expansion (Rvc.j u) = format_j (if ltb u (2 ^ 10) then 2 * u else 2 * u + (2 ^ 21 - 2 ^ 12)) 0x6f
expansion (Rvc.beqz rs1 u) = branch_type u (rs1 + 8) 0
expansion (Rvc.bnez rs1 u) = branch_type u (rs1 + 8) 1
expansion (Rvc.slli rd imm) = i_type (imm) (rd) 1 (rd) 0x13
expansion (Rvc.fldsp rd u) = i_type (8 * u) (2) 3 (rd) 0x7
expansion (Rvc.lwsp rd u) = i_type (4 * u) (2) 2 (rd) 0x3
expansion (Rvc.ldsp rd u) = i_type (8 * u) (2) 3 (rd) 0x3
expansion (Rvc.jr rs1) = i_type (0) (rs1) 0 (0) 0x67
expansion (Rvc.mv rd rs2) = r_type 0 (rs2) (0) 0 (rd) 0x33
expansion Rvc.ebreak = i_type 1 0 0 0 0x73
expansion (Rvc.jalr rs1) = i_type (0) (rs1) 0 (1) 0x67
expansion (Rvc.add rd rs2) = r_type 0 (rs2) (rd) 0 (rd) 0x33
expansion (Rvc.fsdsp rs2 u) = s_type (8 * u) (rs2) (2) 3 0x27
expansion (Rvc.swsp rs2 u) = s_type (4 * u) (rs2) (2) 2 0x23
expansion (Rvc.sdsp rs2 u) = s_type (8 * u) (rs2) (2) 3 0x23

unfoldable pub encode : Rvc → ℕ
encode (Rvc.addi4spn rd u) =
    0 * 2 ^ 13
    + u / 2 ^ 2 % 2 ^ 2 * 2 ^ 11
    + u / 2 ^ 4 * 2 ^ 7
    + u % 2 * 2 ^ 6
    + u / 2 % 2 * 2 ^ 5
    + rd * 2 ^ 2
    + 0
encode (Rvc.lw rd rs1 u) =
    2 * 2 ^ 13
    + u / 2 % 2 ^ 3 * 2 ^ 10
    + rs1 * 2 ^ 7
    + u % 2 * 2 ^ 6
    + u / 2 ^ 4 * 2 ^ 5
    + rd * 2 ^ 2
    + 0
encode (Rvc.ld rd rs1 u) =
    3 * 2 ^ 13 + u % 2 ^ 3 * 2 ^ 10 + rs1 * 2 ^ 7 + u / 2 ^ 3 * 2 ^ 5 + rd * 2 ^ 2 + 0
encode (Rvc.sw rs2 rs1 u) =
    6 * 2 ^ 13
    + u / 2 % 2 ^ 3 * 2 ^ 10
    + rs1 * 2 ^ 7
    + u % 2 * 2 ^ 6
    + u / 2 ^ 4 * 2 ^ 5
    + rs2 * 2 ^ 2
    + 0
encode (Rvc.sd rs2 rs1 u) =
    7 * 2 ^ 13 + u % 2 ^ 3 * 2 ^ 10 + rs1 * 2 ^ 7 + u / 2 ^ 3 * 2 ^ 5 + rs2 * 2 ^ 2 + 0
encode (Rvc.nop imm) = imm / 2 ^ 5 * 2 ^ 12 + imm % 2 ^ 5 * 2 ^ 2 + 1
encode (Rvc.addi rd imm) = 0 * 2 ^ 13 + imm / 2 ^ 5 * 2 ^ 12 + rd * 2 ^ 7 + imm % 2 ^ 5 * 2 ^ 2 + 1
encode (Rvc.addiw rd imm) = 1 * 2 ^ 13 + imm / 2 ^ 5 * 2 ^ 12 + rd * 2 ^ 7 + imm % 2 ^ 5 * 2 ^ 2 + 1
encode (Rvc.li rd imm) = 2 * 2 ^ 13 + imm / 2 ^ 5 * 2 ^ 12 + rd * 2 ^ 7 + imm % 2 ^ 5 * 2 ^ 2 + 1
encode (Rvc.addi16sp u) =
    3 * 2 ^ 13
    + u / 2 ^ 5 * 2 ^ 12
    + 2 * 2 ^ 7
    + u % 2 * 2 ^ 6
    + u / 2 ^ 2 % 2 * 2 ^ 5
    + u / 2 ^ 3 % 2 ^ 2 * 2 ^ 3
    + u / 2 % 2 * 2 ^ 2
    + 1
encode (Rvc.lui rd imm) = 3 * 2 ^ 13 + imm / 2 ^ 5 * 2 ^ 12 + rd * 2 ^ 7 + imm % 2 ^ 5 * 2 ^ 2 + 1
encode (Rvc.srli rd imm) =
    4 * 2 ^ 13 + imm / 2 ^ 5 * 2 ^ 12 + 0 * 2 ^ 10 + rd * 2 ^ 7 + imm % 2 ^ 5 * 2 ^ 2 + 1
encode (Rvc.srai rd imm) =
    4 * 2 ^ 13 + imm / 2 ^ 5 * 2 ^ 12 + 1 * 2 ^ 10 + rd * 2 ^ 7 + imm % 2 ^ 5 * 2 ^ 2 + 1
encode (Rvc.andi rd imm) =
    4 * 2 ^ 13 + imm / 2 ^ 5 * 2 ^ 12 + 2 * 2 ^ 10 + rd * 2 ^ 7 + imm % 2 ^ 5 * 2 ^ 2 + 1
encode (Rvc.sub rd rs2) = 4 * 2 ^ 13 + 3 * 2 ^ 10 + rd * 2 ^ 7 + 0 * 2 ^ 5 + rs2 * 2 ^ 2 + 1
encode (Rvc.xor rd rs2) = 4 * 2 ^ 13 + 3 * 2 ^ 10 + rd * 2 ^ 7 + 1 * 2 ^ 5 + rs2 * 2 ^ 2 + 1
encode (Rvc.or rd rs2) = 4 * 2 ^ 13 + 3 * 2 ^ 10 + rd * 2 ^ 7 + 2 * 2 ^ 5 + rs2 * 2 ^ 2 + 1
encode (Rvc.and rd rs2) = 4 * 2 ^ 13 + 3 * 2 ^ 10 + rd * 2 ^ 7 + 3 * 2 ^ 5 + rs2 * 2 ^ 2 + 1
encode (Rvc.subw rd rs2) = 4 * 2 ^ 13 + 7 * 2 ^ 10 + rd * 2 ^ 7 + 0 * 2 ^ 5 + rs2 * 2 ^ 2 + 1
encode (Rvc.addw rd rs2) = 4 * 2 ^ 13 + 7 * 2 ^ 10 + rd * 2 ^ 7 + 1 * 2 ^ 5 + rs2 * 2 ^ 2 + 1
encode (Rvc.j u) =
    5 * 2 ^ 13
    + u / 2 ^ 10 * 2 ^ 12
    + u / 2 ^ 3 % 2 * 2 ^ 11
    + u / 2 ^ 7 % 2 ^ 2 * 2 ^ 9
    + u / 2 ^ 9 % 2 * 2 ^ 8
    + u / 2 ^ 5 % 2 * 2 ^ 7
    + u / 2 ^ 6 % 2 * 2 ^ 6
    + u % 2 ^ 3 * 2 ^ 3
    + u / 2 ^ 4 % 2 * 2 ^ 2
    + 1
encode (Rvc.beqz rs1 u) =
    6 * 2 ^ 13
    + u / 2 ^ 7 * 2 ^ 12
    + u / 2 ^ 2 % 2 ^ 2 * 2 ^ 10
    + rs1 * 2 ^ 7
    + u / 2 ^ 5 % 2 ^ 2 * 2 ^ 5
    + u % 2 ^ 2 * 2 ^ 3
    + u / 2 ^ 4 % 2 * 2 ^ 2
    + 1
encode (Rvc.bnez rs1 u) =
    7 * 2 ^ 13
    + u / 2 ^ 7 * 2 ^ 12
    + u / 2 ^ 2 % 2 ^ 2 * 2 ^ 10
    + rs1 * 2 ^ 7
    + u / 2 ^ 5 % 2 ^ 2 * 2 ^ 5
    + u % 2 ^ 2 * 2 ^ 3
    + u / 2 ^ 4 % 2 * 2 ^ 2
    + 1
encode (Rvc.slli rd imm) = 0 * 2 ^ 13 + imm / 2 ^ 5 * 2 ^ 12 + rd * 2 ^ 7 + imm % 2 ^ 5 * 2 ^ 2 + 2
encode (Rvc.fldsp rd u) =
    1 * 2 ^ 13 + u / 2 ^ 2 % 2 * 2 ^ 12 + rd * 2 ^ 7 + u % 2 ^ 2 * 2 ^ 5 + u / 2 ^ 3 * 2 ^ 2 + 2
encode (Rvc.lwsp rd u) =
    2 * 2 ^ 13 + u / 2 ^ 3 % 2 * 2 ^ 12 + rd * 2 ^ 7 + u % 2 ^ 3 * 2 ^ 4 + u / 2 ^ 4 * 2 ^ 2 + 2
encode (Rvc.ldsp rd u) =
    3 * 2 ^ 13 + u / 2 ^ 2 % 2 * 2 ^ 12 + rd * 2 ^ 7 + u % 2 ^ 2 * 2 ^ 5 + u / 2 ^ 3 * 2 ^ 2 + 2
encode (Rvc.jr rs1) = 4 * 2 ^ 13 + rs1 * 2 ^ 7 + 2
encode (Rvc.mv rd rs2) = 4 * 2 ^ 13 + rd * 2 ^ 7 + rs2 * 2 ^ 2 + 2
encode Rvc.ebreak = 4 * 2 ^ 13 + 1 * 2 ^ 12 + 2
encode (Rvc.jalr rs1) = 4 * 2 ^ 13 + 1 * 2 ^ 12 + rs1 * 2 ^ 7 + 2
encode (Rvc.add rd rs2) = 4 * 2 ^ 13 + 1 * 2 ^ 12 + rd * 2 ^ 7 + rs2 * 2 ^ 2 + 2
encode (Rvc.fsdsp rs2 u) = 5 * 2 ^ 13 + u % 2 ^ 3 * 2 ^ 10 + u / 2 ^ 3 * 2 ^ 7 + rs2 * 2 ^ 2 + 2
encode (Rvc.swsp rs2 u) = 6 * 2 ^ 13 + u % 2 ^ 4 * 2 ^ 9 + u / 2 ^ 4 * 2 ^ 7 + rs2 * 2 ^ 2 + 2
encode (Rvc.sdsp rs2 u) = 7 * 2 ^ 13 + u % 2 ^ 3 * 2 ^ 10 + u / 2 ^ 3 * 2 ^ 7 + rs2 * 2 ^ 2 + 2
