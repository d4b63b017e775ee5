-- ===== src/Compressed/Expand/One.antt =====
-- Every form of quadrant 1 tried: the decompressor gives its expansion.
use rv64i_simulator.Base.{ℕ, ◌<◌, ◌≡◌, ◌≢◌, refl, true, ◌==◌, ==_ne, if◌then◌else◌, arith}
use rv64i_simulator.Compressed.Quadrant1.{lui_or_addi16sp, alu, jump, branch, quadrant1}
use rv64i_simulator.Compressed.{decompress}
use rv64i_simulator.Compressed.Forms.{Rvc, expansion, encode}
use rv64i_simulator.Compressed.Expand.Below.{
  all_below, all_below_lem, unless_lem, Expands, agrees, agrees_lem,
}

nop_tried : all_below 64 (λ imm. agrees (Rvc.nop imm)) ≡ true
unfolding all_below agrees decompress encode expansion quadrant1 lui_or_addi16sp alu jump branch
nop_tried = refl

pub nop-Expands : (imm : ℕ) → imm < 64 → Expands (Rvc.nop imm)
nop-Expands imm imm_lt = agrees_lem (Rvc.nop imm) (all_below_lem 64 _ nop_tried imm imm_lt)

addi_tried :
    all_below 32 (λ rd. all_below 64 (λ imm. if rd == 0 then true else agrees (Rvc.addi rd imm)))
    ≡ true
unfolding all_below agrees decompress encode expansion quadrant1 lui_or_addi16sp alu jump branch
addi_tried = refl

pub addi-Expands : (rd imm : ℕ) → rd < 32 → imm < 64 → 0 < rd → Expands (Rvc.addi rd imm)
addi-Expands rd imm rd_lt imm_lt ok = agrees_lem (Rvc.addi rd imm) (
    unless_lem (rd == 0) _ (all_below_lem 64 _ (all_below_lem 32 _ addi_tried rd rd_lt) imm imm_lt)
      (==_ne rd 0 (ground arith)))

addiw_tried : all_below 32 (λ rd. all_below 64 (λ imm. agrees (Rvc.addiw rd imm))) ≡ true
unfolding all_below agrees decompress encode expansion quadrant1 lui_or_addi16sp alu jump branch
addiw_tried = refl

pub addiw-Expands : (rd imm : ℕ) → rd < 32 → imm < 64 → Expands (Rvc.addiw rd imm)
addiw-Expands rd imm rd_lt imm_lt =
    agrees_lem (Rvc.addiw rd imm)
      (all_below_lem 64 _ (all_below_lem 32 _ addiw_tried rd rd_lt) imm imm_lt)

li_tried : all_below 32 (λ rd. all_below 64 (λ imm. agrees (Rvc.li rd imm))) ≡ true
unfolding all_below agrees decompress encode expansion quadrant1 lui_or_addi16sp alu jump branch
li_tried = refl

pub li-Expands : (rd imm : ℕ) → rd < 32 → imm < 64 → Expands (Rvc.li rd imm)
li-Expands rd imm rd_lt imm_lt =
    agrees_lem (Rvc.li rd imm)
      (all_below_lem 64 _ (all_below_lem 32 _ li_tried rd rd_lt) imm imm_lt)

addi16sp_tried : all_below 64 (λ u. agrees (Rvc.addi16sp u)) ≡ true
unfolding all_below agrees decompress encode expansion quadrant1 lui_or_addi16sp alu jump branch
addi16sp_tried = refl

pub addi16sp-Expands : (u : ℕ) → u < 64 → Expands (Rvc.addi16sp u)
addi16sp-Expands u u_lt = agrees_lem (Rvc.addi16sp u) (all_below_lem 64 _ addi16sp_tried u u_lt)

lui_tried :
    all_below 32 (λ rd. all_below 64 (λ imm. if rd == 2 then true else agrees (Rvc.lui rd imm)))
    ≡ true
unfolding all_below agrees decompress encode expansion quadrant1 lui_or_addi16sp alu jump branch
lui_tried = refl

pub lui-Expands : (rd imm : ℕ) → rd < 32 → imm < 64 → rd ≢ 2 → Expands (Rvc.lui rd imm)
lui-Expands rd imm rd_lt imm_lt ok = agrees_lem (Rvc.lui rd imm) (
    unless_lem (rd == 2) _ (all_below_lem 64 _ (all_below_lem 32 _ lui_tried rd rd_lt) imm imm_lt)
      (==_ne rd 2 (ground arith)))

srli_tried : all_below 8 (λ rd. all_below 64 (λ imm. agrees (Rvc.srli rd imm))) ≡ true
unfolding all_below agrees decompress encode expansion quadrant1 lui_or_addi16sp alu jump branch
srli_tried = refl

pub srli-Expands : (rd imm : ℕ) → rd < 8 → imm < 64 → Expands (Rvc.srli rd imm)
srli-Expands rd imm rd_lt imm_lt =
    agrees_lem (Rvc.srli rd imm)
      (all_below_lem 64 _ (all_below_lem 8 _ srli_tried rd rd_lt) imm imm_lt)

srai_tried : all_below 8 (λ rd. all_below 64 (λ imm. agrees (Rvc.srai rd imm))) ≡ true
unfolding all_below agrees decompress encode expansion quadrant1 lui_or_addi16sp alu jump branch
srai_tried = refl

pub srai-Expands : (rd imm : ℕ) → rd < 8 → imm < 64 → Expands (Rvc.srai rd imm)
srai-Expands rd imm rd_lt imm_lt =
    agrees_lem (Rvc.srai rd imm)
      (all_below_lem 64 _ (all_below_lem 8 _ srai_tried rd rd_lt) imm imm_lt)

andi_tried : all_below 8 (λ rd. all_below 64 (λ imm. agrees (Rvc.andi rd imm))) ≡ true
unfolding all_below agrees decompress encode expansion quadrant1 lui_or_addi16sp alu jump branch
andi_tried = refl

pub andi-Expands : (rd imm : ℕ) → rd < 8 → imm < 64 → Expands (Rvc.andi rd imm)
andi-Expands rd imm rd_lt imm_lt =
    agrees_lem (Rvc.andi rd imm)
      (all_below_lem 64 _ (all_below_lem 8 _ andi_tried rd rd_lt) imm imm_lt)

sub_tried : all_below 8 (λ rd. all_below 8 (λ rs2. agrees (Rvc.sub rd rs2))) ≡ true
unfolding all_below agrees decompress encode expansion quadrant1 lui_or_addi16sp alu jump branch
sub_tried = refl

pub sub-Expands : (rd rs2 : ℕ) → rd < 8 → rs2 < 8 → Expands (Rvc.sub rd rs2)
sub-Expands rd rs2 rd_lt rs2_lt =
    agrees_lem (Rvc.sub rd rs2)
      (all_below_lem 8 _ (all_below_lem 8 _ sub_tried rd rd_lt) rs2 rs2_lt)

xor_tried : all_below 8 (λ rd. all_below 8 (λ rs2. agrees (Rvc.xor rd rs2))) ≡ true
unfolding all_below agrees decompress encode expansion quadrant1 lui_or_addi16sp alu jump branch
xor_tried = refl

pub xor-Expands : (rd rs2 : ℕ) → rd < 8 → rs2 < 8 → Expands (Rvc.xor rd rs2)
xor-Expands rd rs2 rd_lt rs2_lt =
    agrees_lem (Rvc.xor rd rs2)
      (all_below_lem 8 _ (all_below_lem 8 _ xor_tried rd rd_lt) rs2 rs2_lt)

or_tried : all_below 8 (λ rd. all_below 8 (λ rs2. agrees (Rvc.or rd rs2))) ≡ true
unfolding all_below agrees decompress encode expansion quadrant1 lui_or_addi16sp alu jump branch
or_tried = refl

pub or-Expands : (rd rs2 : ℕ) → rd < 8 → rs2 < 8 → Expands (Rvc.or rd rs2)
or-Expands rd rs2 rd_lt rs2_lt =
    agrees_lem (Rvc.or rd rs2) (all_below_lem 8 _ (all_below_lem 8 _ or_tried rd rd_lt) rs2 rs2_lt)

and_tried : all_below 8 (λ rd. all_below 8 (λ rs2. agrees (Rvc.and rd rs2))) ≡ true
unfolding all_below agrees decompress encode expansion quadrant1 lui_or_addi16sp alu jump branch
and_tried = refl

pub and-Expands : (rd rs2 : ℕ) → rd < 8 → rs2 < 8 → Expands (Rvc.and rd rs2)
and-Expands rd rs2 rd_lt rs2_lt =
    agrees_lem (Rvc.and rd rs2)
      (all_below_lem 8 _ (all_below_lem 8 _ and_tried rd rd_lt) rs2 rs2_lt)

subw_tried : all_below 8 (λ rd. all_below 8 (λ rs2. agrees (Rvc.subw rd rs2))) ≡ true
unfolding all_below agrees decompress encode expansion quadrant1 lui_or_addi16sp alu jump branch
subw_tried = refl

pub subw-Expands : (rd rs2 : ℕ) → rd < 8 → rs2 < 8 → Expands (Rvc.subw rd rs2)
subw-Expands rd rs2 rd_lt rs2_lt =
    agrees_lem (Rvc.subw rd rs2)
      (all_below_lem 8 _ (all_below_lem 8 _ subw_tried rd rd_lt) rs2 rs2_lt)

addw_tried : all_below 8 (λ rd. all_below 8 (λ rs2. agrees (Rvc.addw rd rs2))) ≡ true
unfolding all_below agrees decompress encode expansion quadrant1 lui_or_addi16sp alu jump branch
addw_tried = refl

pub addw-Expands : (rd rs2 : ℕ) → rd < 8 → rs2 < 8 → Expands (Rvc.addw rd rs2)
addw-Expands rd rs2 rd_lt rs2_lt =
    agrees_lem (Rvc.addw rd rs2)
      (all_below_lem 8 _ (all_below_lem 8 _ addw_tried rd rd_lt) rs2 rs2_lt)

j_tried : all_below 2048 (λ u. agrees (Rvc.j u)) ≡ true
unfolding all_below agrees decompress encode expansion quadrant1 lui_or_addi16sp alu jump branch
j_tried = refl

pub j-Expands : (u : ℕ) → u < 2048 → Expands (Rvc.j u)
j-Expands u u_lt = agrees_lem (Rvc.j u) (all_below_lem 2048 _ j_tried u u_lt)

beqz_tried : all_below 8 (λ rs1. all_below 256 (λ u. agrees (Rvc.beqz rs1 u))) ≡ true
unfolding all_below agrees decompress encode expansion quadrant1 lui_or_addi16sp alu jump branch
beqz_tried = refl

pub beqz-Expands : (rs1 u : ℕ) → rs1 < 8 → u < 256 → Expands (Rvc.beqz rs1 u)
beqz-Expands rs1 u rs1_lt u_lt =
    agrees_lem (Rvc.beqz rs1 u)
      (all_below_lem 256 _ (all_below_lem 8 _ beqz_tried rs1 rs1_lt) u u_lt)

bnez_tried : all_below 8 (λ rs1. all_below 256 (λ u. agrees (Rvc.bnez rs1 u))) ≡ true
unfolding all_below agrees decompress encode expansion quadrant1 lui_or_addi16sp alu jump branch
bnez_tried = refl

pub bnez-Expands : (rs1 u : ℕ) → rs1 < 8 → u < 256 → Expands (Rvc.bnez rs1 u)
bnez-Expands rs1 u rs1_lt u_lt =
    agrees_lem (Rvc.bnez rs1 u)
      (all_below_lem 256 _ (all_below_lem 8 _ bnez_tried rs1 rs1_lt) u u_lt)
