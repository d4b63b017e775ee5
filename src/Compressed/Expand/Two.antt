-- ===== src/Compressed/Expand/Two.antt =====
-- Every form of quadrant 2 tried: the decompressor gives its expansion.
use rv64i_simulator.Base.{ℕ, ◌<◌, ◌≡◌, refl, true, ◌==◌, ==_ne, if◌then◌else◌, arith}
use rv64i_simulator.Compressed.Quadrant2.{jump_move_add, quadrant2}
use rv64i_simulator.Compressed.{decompress}
use rv64i_simulator.Compressed.Forms.{Rvc, expansion, encode}
use rv64i_simulator.Compressed.Expand.Below.{
  all_below, all_below_lem, unless_lem, Expands, agrees, agrees_lem,
}

slli_tried : all_below 32 (λ rd. all_below 64 (λ imm. agrees (Rvc.slli rd imm))) ≡ true
unfolding all_below agrees decompress encode expansion quadrant2 jump_move_add
slli_tried = refl

pub slli-Expands : (rd imm : ℕ) → rd < 32 → imm < 64 → Expands (Rvc.slli rd imm)
slli-Expands rd imm rd_lt imm_lt =
    agrees_lem (Rvc.slli rd imm)
      (all_below_lem 64 _ (all_below_lem 32 _ slli_tried rd rd_lt) imm imm_lt)

fldsp_tried : all_below 32 (λ rd. all_below 64 (λ u. agrees (Rvc.fldsp rd u))) ≡ true
unfolding all_below agrees decompress encode expansion quadrant2 jump_move_add
fldsp_tried = refl

pub fldsp-Expands : (rd u : ℕ) → rd < 32 → u < 64 → Expands (Rvc.fldsp rd u)
fldsp-Expands rd u rd_lt u_lt =
    agrees_lem (Rvc.fldsp rd u)
      (all_below_lem 64 _ (all_below_lem 32 _ fldsp_tried rd rd_lt) u u_lt)

lwsp_tried : all_below 32 (λ rd. all_below 64 (λ u. agrees (Rvc.lwsp rd u))) ≡ true
unfolding all_below agrees decompress encode expansion quadrant2 jump_move_add
lwsp_tried = refl

pub lwsp-Expands : (rd u : ℕ) → rd < 32 → u < 64 → Expands (Rvc.lwsp rd u)
lwsp-Expands rd u rd_lt u_lt =
    agrees_lem (Rvc.lwsp rd u) (all_below_lem 64 _ (all_below_lem 32 _ lwsp_tried rd rd_lt) u u_lt)

ldsp_tried : all_below 32 (λ rd. all_below 64 (λ u. agrees (Rvc.ldsp rd u))) ≡ true
unfolding all_below agrees decompress encode expansion quadrant2 jump_move_add
ldsp_tried = refl

pub ldsp-Expands : (rd u : ℕ) → rd < 32 → u < 64 → Expands (Rvc.ldsp rd u)
ldsp-Expands rd u rd_lt u_lt =
    agrees_lem (Rvc.ldsp rd u) (all_below_lem 64 _ (all_below_lem 32 _ ldsp_tried rd rd_lt) u u_lt)

jr_tried : all_below 32 (λ rs1. agrees (Rvc.jr rs1)) ≡ true
unfolding all_below agrees decompress encode expansion quadrant2 jump_move_add
jr_tried = refl

pub jr-Expands : (rs1 : ℕ) → rs1 < 32 → Expands (Rvc.jr rs1)
jr-Expands rs1 rs1_lt = agrees_lem (Rvc.jr rs1) (all_below_lem 32 _ jr_tried rs1 rs1_lt)

mv_tried :
    all_below 32 (λ rd. all_below 32 (λ rs2. if rs2 == 0 then true else agrees (Rvc.mv rd rs2)))
    ≡ true
unfolding all_below agrees decompress encode expansion quadrant2 jump_move_add
mv_tried = refl

pub mv-Expands : (rd rs2 : ℕ) → rd < 32 → rs2 < 32 → 0 < rs2 → Expands (Rvc.mv rd rs2)
mv-Expands rd rs2 rd_lt rs2_lt ok = agrees_lem (Rvc.mv rd rs2) (
    unless_lem (rs2 == 0) _ (all_below_lem 32 _ (all_below_lem 32 _ mv_tried rd rd_lt) rs2 rs2_lt)
      (==_ne rs2 0 (ground arith)))

ebreak_tried : agrees Rvc.ebreak ≡ true
unfolding all_below agrees decompress encode expansion quadrant2 jump_move_add
ebreak_tried = refl

pub ebreak-Expands : Expands Rvc.ebreak
ebreak-Expands = agrees_lem Rvc.ebreak ebreak_tried

jalr_tried : all_below 32 (λ rs1. if rs1 == 0 then true else agrees (Rvc.jalr rs1)) ≡ true
unfolding all_below agrees decompress encode expansion quadrant2 jump_move_add
jalr_tried = refl

pub jalr-Expands : (rs1 : ℕ) → rs1 < 32 → 0 < rs1 → Expands (Rvc.jalr rs1)
jalr-Expands rs1 rs1_lt ok = agrees_lem (Rvc.jalr rs1) (
    unless_lem (rs1 == 0) _ (all_below_lem 32 _ jalr_tried rs1 rs1_lt) (==_ne rs1 0 (ground arith)))

add_tried :
    all_below 32 (λ rd. all_below 32 (λ rs2. if rs2 == 0 then true else agrees (Rvc.add rd rs2)))
    ≡ true
unfolding all_below agrees decompress encode expansion quadrant2 jump_move_add
add_tried = refl

pub add-Expands : (rd rs2 : ℕ) → rd < 32 → rs2 < 32 → 0 < rs2 → Expands (Rvc.add rd rs2)
add-Expands rd rs2 rd_lt rs2_lt ok = agrees_lem (Rvc.add rd rs2) (
    unless_lem (rs2 == 0) _ (all_below_lem 32 _ (all_below_lem 32 _ add_tried rd rd_lt) rs2 rs2_lt)
      (==_ne rs2 0 (ground arith)))

fsdsp_tried : all_below 32 (λ rs2. all_below 64 (λ u. agrees (Rvc.fsdsp rs2 u))) ≡ true
unfolding all_below agrees decompress encode expansion quadrant2 jump_move_add
fsdsp_tried = refl

pub fsdsp-Expands : (rs2 u : ℕ) → rs2 < 32 → u < 64 → Expands (Rvc.fsdsp rs2 u)
fsdsp-Expands rs2 u rs2_lt u_lt =
    agrees_lem (Rvc.fsdsp rs2 u)
      (all_below_lem 64 _ (all_below_lem 32 _ fsdsp_tried rs2 rs2_lt) u u_lt)

swsp_tried : all_below 32 (λ rs2. all_below 64 (λ u. agrees (Rvc.swsp rs2 u))) ≡ true
unfolding all_below agrees decompress encode expansion quadrant2 jump_move_add
swsp_tried = refl

pub swsp-Expands : (rs2 u : ℕ) → rs2 < 32 → u < 64 → Expands (Rvc.swsp rs2 u)
swsp-Expands rs2 u rs2_lt u_lt =
    agrees_lem (Rvc.swsp rs2 u)
      (all_below_lem 64 _ (all_below_lem 32 _ swsp_tried rs2 rs2_lt) u u_lt)

sdsp_tried : all_below 32 (λ rs2. all_below 64 (λ u. agrees (Rvc.sdsp rs2 u))) ≡ true
unfolding all_below agrees decompress encode expansion quadrant2 jump_move_add
sdsp_tried = refl

pub sdsp-Expands : (rs2 u : ℕ) → rs2 < 32 → u < 64 → Expands (Rvc.sdsp rs2 u)
sdsp-Expands rs2 u rs2_lt u_lt =
    agrees_lem (Rvc.sdsp rs2 u)
      (all_below_lem 64 _ (all_below_lem 32 _ sdsp_tried rs2 rs2_lt) u u_lt)
