-- ===== src/Compressed/Expand.antt =====
-- `decompress` against the manual's list of forms: it expands every legal form to the instruction that
-- the form stands for.
mod Below
mod Zero
mod One
mod Two
use rv64i_simulator.Base.{◌≡◌, bit_and, ◌==◌, false}
use rv64i_simulator.Compressed.{decompress}
use rv64i_simulator.Compressed.Forms.{Rvc, IsLegal, expansion, encode}
use Zero.{addi4spn-Expands, lw-Expands, ld-Expands, sw-Expands, sd-Expands}
use One.{
  nop-Expands, addi-Expands, addiw-Expands, li-Expands, addi16sp-Expands, lui-Expands, srli-Expands,
  srai-Expands, andi-Expands, sub-Expands, xor-Expands, or-Expands, and-Expands, subw-Expands,
  addw-Expands, j-Expands, beqz-Expands, bnez-Expands,
}
use Two.{
  slli-Expands, fldsp-Expands, lwsp-Expands, ldsp-Expands, jr-Expands, mv-Expands, ebreak-Expands,
  jalr-Expands, add-Expands, fsdsp-Expands, swsp-Expands, sdsp-Expands,
}
use Below.{Expands}

form-Expands : (form : Rvc) → IsLegal form → Expands form
form-Expands (Rvc.addi4spn rd u) (h0, h1, h2) = addi4spn-Expands rd u h0 h1 h2
form-Expands (Rvc.lw rd rs1 u) (h0, h1, h2) = lw-Expands rd rs1 u h0 h1 h2
form-Expands (Rvc.ld rd rs1 u) (h0, h1, h2) = ld-Expands rd rs1 u h0 h1 h2
form-Expands (Rvc.sw rs2 rs1 u) (h0, h1, h2) = sw-Expands rs2 rs1 u h0 h1 h2
form-Expands (Rvc.sd rs2 rs1 u) (h0, h1, h2) = sd-Expands rs2 rs1 u h0 h1 h2
form-Expands (Rvc.nop imm) h0 = nop-Expands imm h0
form-Expands (Rvc.addi rd imm) (h0, h1, h2) = addi-Expands rd imm h0 h1 h2
form-Expands (Rvc.addiw rd imm) (h0, h1, reserved) = addiw-Expands rd imm h0 h1
form-Expands (Rvc.li rd imm) (h0, h1) = li-Expands rd imm h0 h1
form-Expands (Rvc.addi16sp u) (h0, reserved) = addi16sp-Expands u h0
form-Expands (Rvc.lui rd imm) (h0, h1, h2, reserved) = lui-Expands rd imm h0 h1 h2
form-Expands (Rvc.srli rd imm) (h0, h1) = srli-Expands rd imm h0 h1
form-Expands (Rvc.srai rd imm) (h0, h1) = srai-Expands rd imm h0 h1
form-Expands (Rvc.andi rd imm) (h0, h1) = andi-Expands rd imm h0 h1
form-Expands (Rvc.sub rd rs2) (h0, h1) = sub-Expands rd rs2 h0 h1
form-Expands (Rvc.xor rd rs2) (h0, h1) = xor-Expands rd rs2 h0 h1
form-Expands (Rvc.or rd rs2) (h0, h1) = or-Expands rd rs2 h0 h1
form-Expands (Rvc.and rd rs2) (h0, h1) = and-Expands rd rs2 h0 h1
form-Expands (Rvc.subw rd rs2) (h0, h1) = subw-Expands rd rs2 h0 h1
form-Expands (Rvc.addw rd rs2) (h0, h1) = addw-Expands rd rs2 h0 h1
form-Expands (Rvc.j u) h0 = j-Expands u h0
form-Expands (Rvc.beqz rs1 u) (h0, h1) = beqz-Expands rs1 u h0 h1
form-Expands (Rvc.bnez rs1 u) (h0, h1) = bnez-Expands rs1 u h0 h1
form-Expands (Rvc.slli rd imm) (h0, h1) = slli-Expands rd imm h0 h1
form-Expands (Rvc.fldsp rd u) (h0, h1) = fldsp-Expands rd u h0 h1
form-Expands (Rvc.lwsp rd u) (h0, h1, reserved) = lwsp-Expands rd u h0 h1
form-Expands (Rvc.ldsp rd u) (h0, h1, reserved) = ldsp-Expands rd u h0 h1
form-Expands (Rvc.jr rs1) (h0, reserved) = jr-Expands rs1 h0
form-Expands (Rvc.mv rd rs2) (h0, h1, h2) = mv-Expands rd rs2 h0 h1 h2
form-Expands Rvc.ebreak _ = ebreak-Expands
form-Expands (Rvc.jalr rs1) (h0, h1) = jalr-Expands rs1 h0 h1
form-Expands (Rvc.add rd rs2) (h0, h1, h2) = add-Expands rd rs2 h0 h1 h2
form-Expands (Rvc.fsdsp rs2 u) (h0, h1) = fsdsp-Expands rs2 u h0 h1
form-Expands (Rvc.swsp rs2 u) (h0, h1) = swsp-Expands rs2 u h0 h1
form-Expands (Rvc.sdsp rs2 u) (h0, h1) = sdsp-Expands rs2 u h0 h1

-- For every compressed instruction of RV64DC but C.FLD and C.FSD, C.NOP and the hints included
-- and reserved encodings left out, listed as its fields, decompress of its 16-bit form is the
-- instruction word that it stands for in the manual.
pub decompress-expansion : (form : Rvc) → IsLegal form → decompress (encode form) ≡ expansion form
decompress-expansion form legal = (form-Expands form legal).0

-- The form is not taken for half of a 32-bit instruction.
pub encode-short : (form : Rvc) → IsLegal form → (bit_and (encode form) 0x3 == 0x3) ≡ false
encode-short form legal = (form-Expands form legal).1
