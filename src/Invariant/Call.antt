-- ===== src/Invariant/Call.antt =====
-- Interpreter.cpp's call of a handler keeps the invariant, whichever handler it is.
use rv64i_simulator.Base.{
  ℕ, ◌+◌, ◌<◌, Bool, true, false, Option, bit_and, bit_or, bit_xor, ltb, if◌then◌else◌, slt32,
  slt64, u32, u64, arith,
}
use rv64i_simulator.Base.Bits.{bit_and-le, bit_or-lt, bit_xor-lt}
use rv64i_simulator.Machine.{Machine}
use rv64i_simulator.Decode.{DecodedInstruction}
use rv64i_simulator.Registry.{ExecFunc}
use rv64i_simulator.Instr.System.{Environment}
use rv64i_simulator.Instr.Dispatch.{call}
use rv64i_simulator.Instr.Atomics.{
  exec_amoswap_w, exec_amoswap_d, exec_amoadd_w, exec_amoadd_d, exec_amoxor_w, exec_amoxor_d,
  exec_amoand_w, exec_amoand_d, exec_amoor_w, exec_amoor_d, exec_amomin_w, exec_amomin_d,
  exec_amomax_w, exec_amomax_d, exec_amominu_w, exec_amominu_d, exec_amomaxu_w, exec_amomaxu_d,
}
use rv64i_simulator.Instr.Branches.{exec_fence, exec_sfence_vma, exec_fence_i}
use rv64i_simulator.Invariant.{IsValid, Layout, InstFits}
use rv64i_simulator.Invariant.Registers.{
  exec_and-IsValid, exec_or-IsValid, exec_xor-IsValid, exec_sll-IsValid, exec_srl-IsValid,
  exec_sra-IsValid, exec_slt-IsValid, exec_sltu-IsValid, exec_andi-IsValid, exec_ori-IsValid,
  exec_xori-IsValid, exec_slli-IsValid, exec_srli-IsValid, exec_srai-IsValid, exec_slti-IsValid,
  exec_sltiu-IsValid, exec_addw-IsValid, exec_subw-IsValid, exec_addiw-IsValid, exec_sllw-IsValid,
  exec_srlw-IsValid, exec_sraw-IsValid, exec_auipc-IsValid, exec_slliw-IsValid, exec_srliw-IsValid,
  exec_sraiw-IsValid, exec_mul-IsValid, exec_div-IsValid, exec_divu-IsValid, exec_rem-IsValid,
  exec_remu-IsValid, exec_mulw-IsValid, exec_divw-IsValid, exec_divuw-IsValid, exec_remw-IsValid,
  exec_remuw-IsValid, exec_mulh-IsValid, exec_mulhsu-IsValid, exec_mulhu-IsValid, exec_beq-IsValid,
  exec_bne-IsValid, exec_blt-IsValid, exec_bge-IsValid, exec_bltu-IsValid, exec_bgeu-IsValid,
  exec_jalr-IsValid, exec_jal-IsValid, exec_add-IsValid, exec_sub-IsValid, exec_addi-IsValid,
}
use rv64i_simulator.Invariant.Accesses.{
  exec_lb-IsValid, exec_lh-IsValid, exec_lw-IsValid, exec_ld-IsValid, exec_lbu-IsValid,
  exec_lhu-IsValid, exec_lwu-IsValid, exec_lui-IsValid, exec_sb-IsValid, exec_sh-IsValid,
  exec_sw-IsValid, exec_sd-IsValid, exec_fsd-IsValid, exec_fld-IsValid, exec_fmv_w_x-IsValid,
  exec_fmv_x_w-IsValid, exec_fmv_d_x-IsValid, exec_fmv_x_d-IsValid, exec_lr_w-IsValid,
  exec_sc_w-IsValid, exec_lr_d-IsValid, exec_sc_d-IsValid, amo_op_w-IsValid, amo_op_d-IsValid,
}
use rv64i_simulator.Invariant.Control.{
  HostKeeps, exec_csrrw-IsValid, exec_csrrs-IsValid, exec_csrrc-IsValid, exec_csrrwi-IsValid,
  exec_csrrsi-IsValid, exec_csrrci-IsValid, exec_system_dispatch-IsValid,
}

either : {x y bound : ℕ} (b : Bool) → x < bound → y < bound → (if b then x else y) < bound
either true p q = p
either false p q = q

module _ {l : Layout} {m : Machine} (h : IsValid l m) (inst : DecodedInstruction)
    (f : InstFits inst) (env : Option Environment) (k : HostKeeps l env) where
  pub call-IsValid : (func : ExecFunc) → IsValid l (call env func inst m)
  unfolding call exec_fence exec_sfence_vma exec_fence_i exec_amoswap_w exec_amoswap_d exec_amoadd_w
      exec_amoadd_d exec_amoxor_w exec_amoxor_d exec_amoand_w exec_amoand_d exec_amoor_w
      exec_amoor_d exec_amomin_w exec_amomin_d exec_amomax_w exec_amomax_d exec_amominu_w
      exec_amominu_d exec_amomaxu_w exec_amomaxu_d
  call-IsValid ExecFunc.add = exec_add-IsValid h inst f
  call-IsValid ExecFunc.sub = exec_sub-IsValid h inst f
  call-IsValid ExecFunc.addi = exec_addi-IsValid h inst f
  call-IsValid ExecFunc.lw = exec_lw-IsValid h inst f
  call-IsValid ExecFunc.sw = exec_sw-IsValid h inst f
  call-IsValid ExecFunc.beq = exec_beq-IsValid h inst f
  call-IsValid ExecFunc.jal = exec_jal-IsValid h inst f
  call-IsValid ExecFunc.fence = h
  call-IsValid ExecFunc.sfence_vma = h
  call-IsValid ExecFunc.fence_i = h
  call-IsValid ExecFunc.lb = exec_lb-IsValid h inst f
  call-IsValid ExecFunc.lh = exec_lh-IsValid h inst f
  call-IsValid ExecFunc.ld = exec_ld-IsValid h inst f
  call-IsValid ExecFunc.lbu = exec_lbu-IsValid h inst f
  call-IsValid ExecFunc.lhu = exec_lhu-IsValid h inst f
  call-IsValid ExecFunc.lwu = exec_lwu-IsValid h inst f
  call-IsValid ExecFunc.lui = exec_lui-IsValid h inst f
  call-IsValid ExecFunc.sb = exec_sb-IsValid h inst f
  call-IsValid ExecFunc.sh = exec_sh-IsValid h inst f
  call-IsValid ExecFunc.sd = exec_sd-IsValid h inst f
  call-IsValid ExecFunc.bne = exec_bne-IsValid h inst f
  call-IsValid ExecFunc.blt = exec_blt-IsValid h inst f
  call-IsValid ExecFunc.bge = exec_bge-IsValid h inst f
  call-IsValid ExecFunc.bltu = exec_bltu-IsValid h inst f
  call-IsValid ExecFunc.bgeu = exec_bgeu-IsValid h inst f
  call-IsValid ExecFunc.jalr = exec_jalr-IsValid h inst f
  call-IsValid ExecFunc.and = exec_and-IsValid h inst f
  call-IsValid ExecFunc.or = exec_or-IsValid h inst f
  call-IsValid ExecFunc.xor = exec_xor-IsValid h inst f
  call-IsValid ExecFunc.sll = exec_sll-IsValid h inst f
  call-IsValid ExecFunc.srl = exec_srl-IsValid h inst f
  call-IsValid ExecFunc.sra = exec_sra-IsValid h inst f
  call-IsValid ExecFunc.slt = exec_slt-IsValid h inst f
  call-IsValid ExecFunc.sltu = exec_sltu-IsValid h inst f
  call-IsValid ExecFunc.slli = exec_slli-IsValid h inst f
  call-IsValid ExecFunc.srli = exec_srli-IsValid h inst f
  call-IsValid ExecFunc.srai = exec_srai-IsValid h inst f
  call-IsValid ExecFunc.addw = exec_addw-IsValid h inst f
  call-IsValid ExecFunc.subw = exec_subw-IsValid h inst f
  call-IsValid ExecFunc.sllw = exec_sllw-IsValid h inst f
  call-IsValid ExecFunc.srlw = exec_srlw-IsValid h inst f
  call-IsValid ExecFunc.sraw = exec_sraw-IsValid h inst f
  call-IsValid ExecFunc.andi = exec_andi-IsValid h inst f
  call-IsValid ExecFunc.ori = exec_ori-IsValid h inst f
  call-IsValid ExecFunc.xori = exec_xori-IsValid h inst f
  call-IsValid ExecFunc.addiw = exec_addiw-IsValid h inst f
  call-IsValid ExecFunc.slti = exec_slti-IsValid h inst f
  call-IsValid ExecFunc.sltiu = exec_sltiu-IsValid h inst f
  call-IsValid ExecFunc.auipc = exec_auipc-IsValid h inst f
  call-IsValid ExecFunc.slliw = exec_slliw-IsValid h inst f
  call-IsValid ExecFunc.srliw = exec_srliw-IsValid h inst f
  call-IsValid ExecFunc.sraiw = exec_sraiw-IsValid h inst f
  call-IsValid ExecFunc.system_dispatch = exec_system_dispatch-IsValid h inst f env k
  call-IsValid ExecFunc.csrrw = exec_csrrw-IsValid h inst f
  call-IsValid ExecFunc.csrrs = exec_csrrs-IsValid h inst f
  call-IsValid ExecFunc.csrrc = exec_csrrc-IsValid h inst f
  call-IsValid ExecFunc.csrrwi = exec_csrrwi-IsValid h inst f
  call-IsValid ExecFunc.csrrsi = exec_csrrsi-IsValid h inst f
  call-IsValid ExecFunc.csrrci = exec_csrrci-IsValid h inst f
  call-IsValid ExecFunc.fsd = exec_fsd-IsValid h inst f
  call-IsValid ExecFunc.fld = exec_fld-IsValid h inst f
  call-IsValid ExecFunc.fmv_w_x = exec_fmv_w_x-IsValid h inst f
  call-IsValid ExecFunc.fmv_x_w = exec_fmv_x_w-IsValid h inst f
  call-IsValid ExecFunc.fmv_d_x = exec_fmv_d_x-IsValid h inst f
  call-IsValid ExecFunc.fmv_x_d = exec_fmv_x_d-IsValid h inst f
  call-IsValid ExecFunc.mul = exec_mul-IsValid h inst f
  call-IsValid ExecFunc.mulh = exec_mulh-IsValid h inst f
  call-IsValid ExecFunc.mulhsu = exec_mulhsu-IsValid h inst f
  call-IsValid ExecFunc.mulhu = exec_mulhu-IsValid h inst f
  call-IsValid ExecFunc.div = exec_div-IsValid h inst f
  call-IsValid ExecFunc.divu = exec_divu-IsValid h inst f
  call-IsValid ExecFunc.rem = exec_rem-IsValid h inst f
  call-IsValid ExecFunc.remu = exec_remu-IsValid h inst f
  call-IsValid ExecFunc.mulw = exec_mulw-IsValid h inst f
  call-IsValid ExecFunc.divw = exec_divw-IsValid h inst f
  call-IsValid ExecFunc.divuw = exec_divuw-IsValid h inst f
  call-IsValid ExecFunc.remw = exec_remw-IsValid h inst f
  call-IsValid ExecFunc.remuw = exec_remuw-IsValid h inst f
  call-IsValid ExecFunc.lr_w = exec_lr_w-IsValid h inst f
  call-IsValid ExecFunc.sc_w = exec_sc_w-IsValid h inst f
  call-IsValid ExecFunc.lr_d = exec_lr_d-IsValid h inst f
  call-IsValid ExecFunc.sc_d = exec_sc_d-IsValid h inst f
  call-IsValid ExecFunc.amoswap_w = amo_op_w-IsValid h inst f (λ x y. y) (λ x y p q. q)
  call-IsValid ExecFunc.amoswap_d = amo_op_d-IsValid h inst f (λ x y. y) (λ x y p q. q)
  call-IsValid ExecFunc.amoadd_w =
      amo_op_w-IsValid h inst f (λ x y. u32 (x + y)) (λ x y p q. omega arith)
  call-IsValid ExecFunc.amoadd_d =
      amo_op_d-IsValid h inst f (λ x y. u64 (x + y)) (λ x y p q. omega arith)
  call-IsValid ExecFunc.amoxor_w =
      amo_op_w-IsValid h inst f (λ x y. bit_xor x y) (λ x y p q. bit_xor-lt 32 x y p q)
  call-IsValid ExecFunc.amoxor_d =
      amo_op_d-IsValid h inst f (λ x y. bit_xor x y) (λ x y p q. bit_xor-lt 64 x y p q)
  call-IsValid ExecFunc.amoand_w =
      amo_op_w-IsValid h inst f (λ x y. bit_and x y) (λ x y p q. omega (arith, bit_and-le x y))
  call-IsValid ExecFunc.amoand_d =
      amo_op_d-IsValid h inst f (λ x y. bit_and x y) (λ x y p q. omega (arith, bit_and-le x y))
  call-IsValid ExecFunc.amoor_w =
      amo_op_w-IsValid h inst f (λ x y. bit_or x y) (λ x y p q. bit_or-lt 32 x y p q)
  call-IsValid ExecFunc.amoor_d =
      amo_op_d-IsValid h inst f (λ x y. bit_or x y) (λ x y p q. bit_or-lt 64 x y p q)
  call-IsValid ExecFunc.amomin_w =
      amo_op_w-IsValid h inst f (λ x y. if slt32 x y then x else y)
        (λ x y p q. either (slt32 x y) p q)
  call-IsValid ExecFunc.amomin_d =
      amo_op_d-IsValid h inst f (λ x y. if slt64 x y then x else y)
        (λ x y p q. either (slt64 x y) p q)
  call-IsValid ExecFunc.amomax_w =
      amo_op_w-IsValid h inst f (λ x y. if slt32 y x then x else y)
        (λ x y p q. either (slt32 y x) p q)
  call-IsValid ExecFunc.amomax_d =
      amo_op_d-IsValid h inst f (λ x y. if slt64 y x then x else y)
        (λ x y p q. either (slt64 y x) p q)
  call-IsValid ExecFunc.amominu_w =
      amo_op_w-IsValid h inst f (λ x y. if ltb x y then x else y) (λ x y p q. either (ltb x y) p q)
  call-IsValid ExecFunc.amominu_d =
      amo_op_d-IsValid h inst f (λ x y. if ltb x y then x else y) (λ x y p q. either (ltb x y) p q)
  call-IsValid ExecFunc.amomaxu_w =
      amo_op_w-IsValid h inst f (λ x y. if ltb y x then x else y) (λ x y p q. either (ltb y x) p q)
  call-IsValid ExecFunc.amomaxu_d =
      amo_op_d-IsValid h inst f (λ x y. if ltb y x then x else y) (λ x y p q. either (ltb y x) p q)
