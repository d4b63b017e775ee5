-- ===== src/Compressed/Expand/Zero.antt =====
-- Every form of quadrant 0 tried: the decompressor gives its expansion.
use rv64i_simulator.Base.{ℕ, ◌<◌, ◌≡◌, refl, true, ◌==◌, ==_ne, if◌then◌else◌, arith}
use rv64i_simulator.Compressed.Quadrant0.{quadrant0}
use rv64i_simulator.Compressed.{decompress}
use rv64i_simulator.Compressed.Forms.{Rvc, expansion, encode}
use rv64i_simulator.Compressed.Expand.Below.{
  all_below, all_below_lem, unless_lem, Expands, agrees, agrees_lem,
}

addi4spn_tried :
    all_below 8 (λ rd. all_below 256 (λ u. if u == 0 then true else agrees (Rvc.addi4spn rd u)))
    ≡ true
unfolding all_below agrees decompress encode expansion quadrant0
addi4spn_tried = refl

pub addi4spn-Expands : (rd u : ℕ) → rd < 8 → u < 256 → 0 < u → Expands (Rvc.addi4spn rd u)
addi4spn-Expands rd u rd_lt u_lt ok = agrees_lem (Rvc.addi4spn rd u) (
    unless_lem (u == 0) _ (all_below_lem 256 _ (all_below_lem 8 _ addi4spn_tried rd rd_lt) u u_lt)
      (==_ne u 0 (ground arith)))

lw_tried :
    all_below 8 (λ rd. all_below 8 (λ rs1. all_below 32 (λ u. agrees (Rvc.lw rd rs1 u)))) ≡ true
unfolding all_below agrees decompress encode expansion quadrant0
lw_tried = refl

pub lw-Expands : (rd rs1 u : ℕ) → rd < 8 → rs1 < 8 → u < 32 → Expands (Rvc.lw rd rs1 u)
lw-Expands rd rs1 u rd_lt rs1_lt u_lt =
    agrees_lem (Rvc.lw rd rs1 u) (
      all_below_lem 32 _ (all_below_lem 8 _ (all_below_lem 8 _ lw_tried rd rd_lt) rs1 rs1_lt) u
        u_lt)

ld_tried :
    all_below 8 (λ rd. all_below 8 (λ rs1. all_below 32 (λ u. agrees (Rvc.ld rd rs1 u)))) ≡ true
unfolding all_below agrees decompress encode expansion quadrant0
ld_tried = refl

pub ld-Expands : (rd rs1 u : ℕ) → rd < 8 → rs1 < 8 → u < 32 → Expands (Rvc.ld rd rs1 u)
ld-Expands rd rs1 u rd_lt rs1_lt u_lt =
    agrees_lem (Rvc.ld rd rs1 u) (
      all_below_lem 32 _ (all_below_lem 8 _ (all_below_lem 8 _ ld_tried rd rd_lt) rs1 rs1_lt) u
        u_lt)

sw_tried :
    all_below 8 (λ rs2. all_below 8 (λ rs1. all_below 32 (λ u. agrees (Rvc.sw rs2 rs1 u)))) ≡ true
unfolding all_below agrees decompress encode expansion quadrant0
sw_tried = refl

pub sw-Expands : (rs2 rs1 u : ℕ) → rs2 < 8 → rs1 < 8 → u < 32 → Expands (Rvc.sw rs2 rs1 u)
sw-Expands rs2 rs1 u rs2_lt rs1_lt u_lt = agrees_lem (Rvc.sw rs2 rs1 u) (
    all_below_lem 32 _ (all_below_lem 8 _ (all_below_lem 8 _ sw_tried rs2 rs2_lt) rs1 rs1_lt) u
      u_lt)

sd_tried :
    all_below 8 (λ rs2. all_below 8 (λ rs1. all_below 32 (λ u. agrees (Rvc.sd rs2 rs1 u)))) ≡ true
unfolding all_below agrees decompress encode expansion quadrant0
sd_tried = refl

pub sd-Expands : (rs2 rs1 u : ℕ) → rs2 < 8 → rs1 < 8 → u < 32 → Expands (Rvc.sd rs2 rs1 u)
sd-Expands rs2 rs1 u rs2_lt rs1_lt u_lt = agrees_lem (Rvc.sd rs2 rs1 u) (
    all_below_lem 32 _ (all_below_lem 8 _ (all_below_lem 8 _ sd_tried rs2 rs2_lt) rs1 rs1_lt) u
      u_lt)
