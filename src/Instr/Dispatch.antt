-- ===== src/Instr/Dispatch.antt =====
-- The call `func(inst, processor)` of `Interpreter::handle`: the handler that an address stands for.
use rv64i_simulator.Base.{Option}
use rv64i_simulator.Machine.{Machine}
use rv64i_simulator.Decode.{DecodedInstruction}
use rv64i_simulator.Registry.{ExecFunc}
use rv64i_simulator.Instr.Arithmetic.{
  exec_and, exec_or, exec_xor, exec_sll, exec_srl, exec_sra, exec_slt, exec_sltu, exec_slli,
  exec_srli, exec_srai, exec_addw, exec_subw, exec_sllw, exec_srlw, exec_sraw, exec_andi, exec_ori,
  exec_xori, exec_addiw, exec_slti, exec_sltiu, exec_auipc, exec_slliw, exec_srliw, exec_sraiw,
}
use rv64i_simulator.Instr.Mul.{
  exec_mul, exec_mulh, exec_mulhsu, exec_mulhu, exec_div, exec_divu, exec_rem, exec_remu, exec_mulw,
  exec_divw, exec_divuw, exec_remw, exec_remuw,
}
use rv64i_simulator.Instr.Access.{
  exec_lb, exec_lh, exec_lw, exec_ld, exec_lbu, exec_lhu, exec_lwu, exec_lui, exec_sb, exec_sh,
  exec_sw, exec_sd,
}
use rv64i_simulator.Instr.Branches.{
  exec_beq, exec_bne, exec_blt, exec_bge, exec_bltu, exec_bgeu, exec_jalr, exec_jal, exec_add,
  exec_sub, exec_addi, exec_fence, exec_sfence_vma, exec_fence_i,
}
use rv64i_simulator.Instr.System.{
  Environment, exec_system_dispatch, exec_csrrw, exec_csrrs, exec_csrrc, exec_csrrwi, exec_csrrsi,
  exec_csrrci,
}
use rv64i_simulator.Instr.Atomics.{
  exec_lr_w, exec_sc_w, exec_lr_d, exec_sc_d, exec_amoswap_w, exec_amoswap_d, exec_amoadd_w,
  exec_amoadd_d, exec_amoxor_w, exec_amoxor_d, exec_amoand_w, exec_amoand_d, exec_amoor_w,
  exec_amoor_d, exec_amomin_w, exec_amomin_d, exec_amomax_w, exec_amomax_d, exec_amominu_w,
  exec_amominu_d, exec_amomaxu_w, exec_amomaxu_d,
}
use rv64i_simulator.Instr.Float.{
  exec_fsd, exec_fld, exec_fmv_w_x, exec_fmv_x_w, exec_fmv_d_x, exec_fmv_x_d,
}

unfoldable pub call : Option Environment → ExecFunc → DecodedInstruction → Machine → Machine
call env ExecFunc.and = exec_and
call env ExecFunc.or = exec_or
call env ExecFunc.xor = exec_xor
call env ExecFunc.sll = exec_sll
call env ExecFunc.srl = exec_srl
call env ExecFunc.sra = exec_sra
call env ExecFunc.slt = exec_slt
call env ExecFunc.sltu = exec_sltu
call env ExecFunc.slli = exec_slli
call env ExecFunc.srli = exec_srli
call env ExecFunc.srai = exec_srai
call env ExecFunc.addw = exec_addw
call env ExecFunc.subw = exec_subw
call env ExecFunc.sllw = exec_sllw
call env ExecFunc.srlw = exec_srlw
call env ExecFunc.sraw = exec_sraw
call env ExecFunc.andi = exec_andi
call env ExecFunc.ori = exec_ori
call env ExecFunc.xori = exec_xori
call env ExecFunc.addiw = exec_addiw
call env ExecFunc.slti = exec_slti
call env ExecFunc.sltiu = exec_sltiu
call env ExecFunc.auipc = exec_auipc
call env ExecFunc.slliw = exec_slliw
call env ExecFunc.srliw = exec_srliw
call env ExecFunc.sraiw = exec_sraiw
call env ExecFunc.mul = exec_mul
call env ExecFunc.mulh = exec_mulh
call env ExecFunc.mulhsu = exec_mulhsu
call env ExecFunc.mulhu = exec_mulhu
call env ExecFunc.div = exec_div
call env ExecFunc.divu = exec_divu
call env ExecFunc.rem = exec_rem
call env ExecFunc.remu = exec_remu
call env ExecFunc.mulw = exec_mulw
call env ExecFunc.divw = exec_divw
call env ExecFunc.divuw = exec_divuw
call env ExecFunc.remw = exec_remw
call env ExecFunc.remuw = exec_remuw
call env ExecFunc.lb = exec_lb
call env ExecFunc.lh = exec_lh
call env ExecFunc.lw = exec_lw
call env ExecFunc.ld = exec_ld
call env ExecFunc.lbu = exec_lbu
call env ExecFunc.lhu = exec_lhu
call env ExecFunc.lwu = exec_lwu
call env ExecFunc.lui = exec_lui
call env ExecFunc.sb = exec_sb
call env ExecFunc.sh = exec_sh
call env ExecFunc.sw = exec_sw
call env ExecFunc.sd = exec_sd
call env ExecFunc.beq = exec_beq
call env ExecFunc.bne = exec_bne
call env ExecFunc.blt = exec_blt
call env ExecFunc.bge = exec_bge
call env ExecFunc.bltu = exec_bltu
call env ExecFunc.bgeu = exec_bgeu
call env ExecFunc.jalr = exec_jalr
call env ExecFunc.jal = exec_jal
call env ExecFunc.add = exec_add
call env ExecFunc.sub = exec_sub
call env ExecFunc.addi = exec_addi
call env ExecFunc.fence = exec_fence
call env ExecFunc.sfence_vma = exec_sfence_vma
call env ExecFunc.fence_i = exec_fence_i
call env ExecFunc.system_dispatch = exec_system_dispatch env
call env ExecFunc.csrrw = exec_csrrw
call env ExecFunc.csrrs = exec_csrrs
call env ExecFunc.csrrc = exec_csrrc
call env ExecFunc.csrrwi = exec_csrrwi
call env ExecFunc.csrrsi = exec_csrrsi
call env ExecFunc.csrrci = exec_csrrci
call env ExecFunc.lr_w = exec_lr_w
call env ExecFunc.sc_w = exec_sc_w
call env ExecFunc.lr_d = exec_lr_d
call env ExecFunc.sc_d = exec_sc_d
call env ExecFunc.amoswap_w = exec_amoswap_w
call env ExecFunc.amoswap_d = exec_amoswap_d
call env ExecFunc.amoadd_w = exec_amoadd_w
call env ExecFunc.amoadd_d = exec_amoadd_d
call env ExecFunc.amoxor_w = exec_amoxor_w
call env ExecFunc.amoxor_d = exec_amoxor_d
call env ExecFunc.amoand_w = exec_amoand_w
call env ExecFunc.amoand_d = exec_amoand_d
call env ExecFunc.amoor_w = exec_amoor_w
call env ExecFunc.amoor_d = exec_amoor_d
call env ExecFunc.amomin_w = exec_amomin_w
call env ExecFunc.amomin_d = exec_amomin_d
call env ExecFunc.amomax_w = exec_amomax_w
call env ExecFunc.amomax_d = exec_amomax_d
call env ExecFunc.amominu_w = exec_amominu_w
call env ExecFunc.amominu_d = exec_amominu_d
call env ExecFunc.amomaxu_w = exec_amomaxu_w
call env ExecFunc.amomaxu_d = exec_amomaxu_d
call env ExecFunc.fsd = exec_fsd
call env ExecFunc.fld = exec_fld
call env ExecFunc.fmv_w_x = exec_fmv_w_x
call env ExecFunc.fmv_x_w = exec_fmv_x_w
call env ExecFunc.fmv_d_x = exec_fmv_d_x
call env ExecFunc.fmv_x_d = exec_fmv_x_d
