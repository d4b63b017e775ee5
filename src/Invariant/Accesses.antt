-- ===== src/Invariant/Accesses.antt =====
-- The loads, stores, atomic operations and moves of doubles keep the invariant.
use rv64i_simulator.Base.{
  ℕ, ◌^◌, ◌<◌, true, false, ◌&&◌, ◌==◌, bit_and, u32, sx8-lt, sx16-lt, sx32-lt, update, arith,
}
use rv64i_simulator.Base.Bits.{bit_or-lt, bit_and_mask}
use rv64i_simulator.Machine.{Machine}
use rv64i_simulator.Decode.{DecodedInstruction}
use rv64i_simulator.Invariant.{IsValid, Layout, InstFits, set_reservation, set_reservation_valid}
use rv64i_simulator.Invariant.Bus.{
  read_byte-Gives, read_half-Gives, read_word-Gives, read_double-Gives, write_byte-IsValid,
  write_half-IsValid, write_word-IsValid, write_double-IsValid,
}
use rv64i_simulator.Invariant.Registers.{choose, write_reg-IsValid, set_register}
use rv64i_simulator.Instr.Access.{
  address_of, exec_lb, exec_lh, exec_lw, exec_ld, exec_lbu, exec_lhu, exec_lwu, exec_lui, exec_sb,
  exec_sh, exec_sw, exec_sd,
}
use rv64i_simulator.Instr.Float.{
  exec_fsd, exec_fld, exec_fmv_w_x, exec_fmv_x_w, exec_fmv_d_x, exec_fmv_x_d,
}
use rv64i_simulator.Instr.Atomics.{exec_lr_w, exec_lr_d, exec_sc_w, exec_sc_d, amo_op_w, amo_op_d}

module _ {l : Layout} {m : Machine} (h : IsValid l m) where
  set_f_register :
      (i v : ℕ) → v < 2 ^ 64 → IsValid l (record m { f_registers = update m.f_registers i v })
  set_f_register i v p = ground (arith, λ (j : ℕ). h.f_registers j)

module _ {l : Layout} {m : Machine} (h : IsValid l m) (inst : DecodedInstruction)
    (f : InstFits inst) where
  at : address_of inst m < 2 ^ 64
  at = omega arith

  pub exec_lb-IsValid : IsValid l (exec_lb inst m)
  unfolding exec_lb
  exec_lb-IsValid =
      let r = read_byte-Gives h (address_of inst m) at in
      choose (inst.rd == 0) h (write_reg-IsValid r.machine inst.rd _ (sx8-lt _ r.value))

  pub exec_lh-IsValid : IsValid l (exec_lh inst m)
  unfolding exec_lh
  exec_lh-IsValid =
      let r = read_half-Gives h (address_of inst m) at in
      choose (inst.rd == 0) h (write_reg-IsValid r.machine inst.rd _ (sx16-lt _ r.value))

  pub exec_lw-IsValid : IsValid l (exec_lw inst m)
  unfolding exec_lw
  exec_lw-IsValid =
      let r = read_word-Gives h (address_of inst m) at in
      choose (inst.rd == 0) h (write_reg-IsValid r.machine inst.rd _ (sx32-lt _ r.value))

  pub exec_ld-IsValid : IsValid l (exec_ld inst m)
  unfolding exec_ld
  exec_ld-IsValid =
      let r = read_double-Gives h (address_of inst m) at in
      choose (inst.rd == 0) h (write_reg-IsValid r.machine inst.rd _ (r.value))

  pub exec_lbu-IsValid : IsValid l (exec_lbu inst m)
  unfolding exec_lbu
  exec_lbu-IsValid =
      let r = read_byte-Gives h (address_of inst m) at in
      choose (inst.rd == 0) h (write_reg-IsValid r.machine inst.rd _ (omega arith))

  pub exec_lhu-IsValid : IsValid l (exec_lhu inst m)
  unfolding exec_lhu
  exec_lhu-IsValid =
      let r = read_half-Gives h (address_of inst m) at in
      choose (inst.rd == 0) h (write_reg-IsValid r.machine inst.rd _ (omega arith))

  pub exec_lwu-IsValid : IsValid l (exec_lwu inst m)
  unfolding exec_lwu
  exec_lwu-IsValid =
      let r = read_word-Gives h (address_of inst m) at in
      choose (inst.rd == 0) h (write_reg-IsValid r.machine inst.rd _ (omega arith))

  pub exec_lui-IsValid : IsValid l (exec_lui inst m)
  unfolding exec_lui
  exec_lui-IsValid =
      choose (inst.rd == 0) h (write_reg-IsValid h inst.rd _ (sx32-lt inst.imm f.imm))

  pub exec_sb-IsValid : IsValid l (exec_sb inst m)
  unfolding exec_sb
  exec_sb-IsValid = write_byte-IsValid h (address_of inst m) _ at (omega arith)

  pub exec_sh-IsValid : IsValid l (exec_sh inst m)
  unfolding exec_sh
  exec_sh-IsValid = write_half-IsValid h (address_of inst m) _ at

  pub exec_sw-IsValid : IsValid l (exec_sw inst m)
  unfolding exec_sw
  exec_sw-IsValid = write_word-IsValid h (address_of inst m) _ at (omega arith)

  pub exec_sd-IsValid : IsValid l (exec_sd inst m)
  unfolding exec_sd
  exec_sd-IsValid = write_double-IsValid h (address_of inst m) _ at (h.registers inst.rs2)

  pub exec_fsd-IsValid : IsValid l (exec_fsd inst m)
  unfolding exec_fsd
  exec_fsd-IsValid = write_double-IsValid h (address_of inst m) _ at (h.f_registers inst.rs2)

  pub exec_fld-IsValid : IsValid l (exec_fld inst m)
  unfolding exec_fld
  exec_fld-IsValid =
      let r = read_double-Gives h (address_of inst m) at in
      set_f_register r.machine inst.rd _ r.value

  pub exec_fmv_w_x-IsValid : IsValid l (exec_fmv_w_x inst m)
  unfolding exec_fmv_w_x
  exec_fmv_w_x-IsValid =
      let val = bit_and (m.registers inst.rs1) 0xffff_ffff in
      set_f_register h inst.rd _ (
        bit_or-lt 64 val 0xffff_ffff_0000_0000
          (omega (arith, bit_and_mask 32 (m.registers inst.rs1))) (omega arith))

  pub exec_fmv_x_w-IsValid : IsValid l (exec_fmv_x_w inst m)
  unfolding exec_fmv_x_w
  exec_fmv_x_w-IsValid = set_register h inst.rd _ (
      sx32-lt (bit_and (m.f_registers inst.rs1) 0xffff_ffff)
        (omega (arith, bit_and_mask 32 (m.f_registers inst.rs1))))

  pub exec_fmv_d_x-IsValid : IsValid l (exec_fmv_d_x inst m)
  unfolding exec_fmv_d_x
  exec_fmv_d_x-IsValid = set_f_register h inst.rd _ (h.registers inst.rs1)

  pub exec_fmv_x_d-IsValid : IsValid l (exec_fmv_x_d inst m)
  unfolding exec_fmv_x_d
  exec_fmv_x_d-IsValid = set_register h inst.rd _ (h.f_registers inst.rs1)

  pub exec_lr_w-IsValid : IsValid l (exec_lr_w inst m)
  unfolding exec_lr_w
  exec_lr_w-IsValid =
      let r = read_word-Gives h (m.registers inst.rs1) (h.registers inst.rs1) in
      write_reg-IsValid (set_reservation r.machine _ true (h.registers inst.rs1)) inst.rd _
        (sx32-lt _ r.value)

  pub exec_sc_w-IsValid : IsValid l (exec_sc_w inst m)
  unfolding exec_sc_w
  exec_sc_w-IsValid =
      let stored =
        write_word-IsValid h (m.registers inst.rs1) (u32 (m.registers inst.rs2))
          (h.registers inst.rs1) (omega arith) in
      let done =
        choose (m.reservation_valid && m.load_reservation == m.registers inst.rs1)
          (write_reg-IsValid stored inst.rd 0 (omega arith))
          (write_reg-IsValid h inst.rd 1 (omega arith)) in
      set_reservation_valid done false

  pub exec_lr_d-IsValid : IsValid l (exec_lr_d inst m)
  unfolding exec_lr_d
  exec_lr_d-IsValid =
      let r = read_double-Gives h (m.registers inst.rs1) (h.registers inst.rs1) in
      write_reg-IsValid (set_reservation r.machine _ true (h.registers inst.rs1)) inst.rd _
        (r.value)

  pub exec_sc_d-IsValid : IsValid l (exec_sc_d inst m)
  unfolding exec_sc_d
  exec_sc_d-IsValid =
      let stored =
        write_double-IsValid h (m.registers inst.rs1) _ (h.registers inst.rs1)
          (h.registers inst.rs2) in
      let done =
        choose (m.reservation_valid && m.load_reservation == m.registers inst.rs1)
          (write_reg-IsValid stored inst.rd 0 (omega arith))
          (write_reg-IsValid h inst.rd 1 (omega arith)) in
      set_reservation_valid done false

  -- An atomic operation whose result has the width of its operands.
  pub amo_op_w-IsValid :
      (op : ℕ → ℕ → ℕ)
      → ((x y : ℕ) → x < 2 ^ 32 → y < 2 ^ 32 → op x y < 2 ^ 32)
      → IsValid l (amo_op_w op inst m)
  unfolding amo_op_w
  amo_op_w-IsValid op fit =
      let r = read_word-Gives h (m.registers inst.rs1) (h.registers inst.rs1) in
      let stored =
        write_word-IsValid r.machine (m.registers inst.rs1) _ (h.registers inst.rs1)
          (fit _ _ r.value (omega arith)) in
      write_reg-IsValid stored inst.rd _ (sx32-lt _ r.value)

  pub amo_op_d-IsValid :
      (op : ℕ → ℕ → ℕ)
      → ((x y : ℕ) → x < 2 ^ 64 → y < 2 ^ 64 → op x y < 2 ^ 64)
      → IsValid l (amo_op_d op inst m)
  unfolding amo_op_d
  amo_op_d-IsValid op fit =
      let r = read_double-Gives h (m.registers inst.rs1) (h.registers inst.rs1) in
      let stored =
        write_double-IsValid r.machine (m.registers inst.rs1) _ (h.registers inst.rs1)
          (fit _ _ r.value (r.machine.registers inst.rs2)) in
      write_reg-IsValid stored inst.rd _ r.value
