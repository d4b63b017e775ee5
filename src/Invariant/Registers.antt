-- ===== src/Invariant/Registers.antt =====
-- The handlers that compute on registers keep the invariant: Arithmetic.cpp, Mul.cpp, and the branches,
-- jumps and sums of RV64I.cpp and Branches.cpp.
use rv64i_simulator.Base.{
  ℕ, ◌+◌, ◌*◌, ◌/◌, ◌%◌, ◌^◌, ◌<◌, Bool, true, false, not, ◌&&◌, leb, ltb, ◌==◌, if◌then◌else◌,
  bit_and, ◌<<<◌, ◌>>>◌, not64, not32, u8, u32, u64, sub64, sx32, sx32-lt, slt64, asr64, asr32,
  update, ones64, arith,
}
use native.Mathlib.Nat.{div-le_self, mod-le}
use rv64i_simulator.Base.Int.{ℤ, pos, negsuc, int64, int32, to_u64, ◌/ℤ◌, ◌%ℤ◌}
use rv64i_simulator.Base.Bits.{bit_and-le, bit_or-lt, bit_xor-lt}
use rv64i_simulator.Machine.{Machine, write_reg}
use rv64i_simulator.Decode.{DecodedInstruction}
use rv64i_simulator.Invariant.{IsValid, Layout, InstFits, set_program_counter}
use rv64i_simulator.Instr.Arithmetic.{
  exec_and, exec_or, exec_xor, exec_sll, exec_srl, exec_sra, exec_slt, exec_sltu, exec_andi,
  exec_ori, exec_xori, exec_slli, exec_srli, exec_srai, exec_slti, exec_sltiu, exec_addw, exec_subw,
  exec_addiw, exec_sllw, exec_srlw, exec_sraw, exec_auipc, exec_slliw, exec_srliw, exec_sraiw,
}
use rv64i_simulator.Instr.Mul.{
  multiply_high_u64, exec_mul, exec_div, exec_divu, exec_rem, exec_remu, exec_mulw, exec_divw,
  exec_divuw, exec_remw, exec_remuw, exec_mulh, exec_mulhsu, exec_mulhu,
}
use rv64i_simulator.Instr.Branches.{
  exec_beq, exec_bne, exec_blt, exec_bge, exec_bltu, exec_bgeu, exec_jalr, exec_jal, exec_add,
  exec_sub, exec_addi,
}

asr64-lt : (x k : ℕ) → x < 2 ^ 64 → asr64 x k < 2 ^ 64
asr64-lt x k h = ground (arith, div-le_self x (2 ^ k), div-le_self (not64 x) (2 ^ k))

pub asr32-lt : (x k : ℕ) → x < 2 ^ 32 → asr32 x k < 2 ^ 32
asr32-lt x k h = ground (arith, div-le_self x (2 ^ k), div-le_self (not32 x) (2 ^ k))

to_u64-lt : (z : ℤ) → to_u64 z < 2 ^ 64
to_u64-lt (pos n) = omega arith
to_u64-lt (negsuc n) = omega arith

multiply_high_u64-lt : (u v : ℕ) → multiply_high_u64 u v < 2 ^ 64
unfolding multiply_high_u64
multiply_high_u64-lt u v = omega arith

bool-lt : (b : Bool) → (if b then 1 else 0) < 2 ^ 64
bool-lt true = omega arith
bool-lt false = omega arith

module _ {l : Layout} where
  -- Both branches of a test.
  pub choose :
      {x y : Machine} (b : Bool) → IsValid l x → IsValid l y → IsValid l (if b then x else y)
  choose true p q = p
  choose false p q = q

module _ {l : Layout} {m : Machine} (h : IsValid l m) where
  -- A register file with one register replaced.
  pub set_register :
      (i v : ℕ) → v < 2 ^ 64 → IsValid l (record m { registers = update m.registers i v })
  set_register i v p = ground (arith, λ (j : ℕ). h.registers j)

  pub write_reg-IsValid : (rd v : ℕ) → v < 2 ^ 64 → IsValid l (write_reg rd v m)
  unfolding write_reg
  write_reg-IsValid rd v p = choose (u8 rd == 0) h (set_register (u8 rd) v p)

module _ {l : Layout} {m : Machine} (h : IsValid l m) (inst : DecodedInstruction)
    (f : InstFits inst) where
  abbrev a : ℕ
  a = m.registers inst.rs1

  abbrev b : ℕ
  b = m.registers inst.rs2

  pub exec_and-IsValid : IsValid l (exec_and inst m)
  unfolding exec_and
  exec_and-IsValid =
      write_reg-IsValid h inst.rd _ (omega (arith, bit_and-le a b, h.registers inst.rs1))

  pub exec_or-IsValid : IsValid l (exec_or inst m)
  unfolding exec_or
  exec_or-IsValid =
      write_reg-IsValid h inst.rd _ (bit_or-lt 64 a b (h.registers inst.rs1) (h.registers inst.rs2))

  pub exec_xor-IsValid : IsValid l (exec_xor inst m)
  unfolding exec_xor
  exec_xor-IsValid =
      write_reg-IsValid h inst.rd _
        (bit_xor-lt 64 a b (h.registers inst.rs1) (h.registers inst.rs2))

  pub exec_sll-IsValid : IsValid l (exec_sll inst m)
  unfolding exec_sll
  exec_sll-IsValid = write_reg-IsValid h inst.rd _ (omega arith)

  pub exec_srl-IsValid : IsValid l (exec_srl inst m)
  unfolding exec_srl
  exec_srl-IsValid =
      write_reg-IsValid h inst.rd _
        (omega (arith, div-le_self a (2 ^ bit_and b 0x3f), h.registers inst.rs1))

  pub exec_sra-IsValid : IsValid l (exec_sra inst m)
  unfolding exec_sra
  exec_sra-IsValid =
      write_reg-IsValid h inst.rd _ (asr64-lt a (bit_and b 0x3f) (h.registers inst.rs1))

  pub exec_slt-IsValid : IsValid l (exec_slt inst m)
  unfolding exec_slt
  exec_slt-IsValid = write_reg-IsValid h inst.rd _ (bool-lt (slt64 a b))

  pub exec_sltu-IsValid : IsValid l (exec_sltu inst m)
  unfolding exec_sltu
  exec_sltu-IsValid = write_reg-IsValid h inst.rd _ (bool-lt (ltb a b))

  pub exec_andi-IsValid : IsValid l (exec_andi inst m)
  unfolding exec_andi
  exec_andi-IsValid =
      write_reg-IsValid h inst.rd _
        (omega (arith, bit_and-le a (sx32 inst.imm), h.registers inst.rs1))

  pub exec_ori-IsValid : IsValid l (exec_ori inst m)
  unfolding exec_ori
  exec_ori-IsValid =
      write_reg-IsValid h inst.rd _
        (bit_or-lt 64 a (sx32 inst.imm) (h.registers inst.rs1) (sx32-lt inst.imm f.imm))

  pub exec_xori-IsValid : IsValid l (exec_xori inst m)
  unfolding exec_xori
  exec_xori-IsValid =
      write_reg-IsValid h inst.rd _
        (bit_xor-lt 64 a (sx32 inst.imm) (h.registers inst.rs1) (sx32-lt inst.imm f.imm))

  pub exec_slli-IsValid : IsValid l (exec_slli inst m)
  unfolding exec_slli
  exec_slli-IsValid = write_reg-IsValid h inst.rd _ (omega arith)

  pub exec_srli-IsValid : IsValid l (exec_srli inst m)
  unfolding exec_srli
  exec_srli-IsValid =
      write_reg-IsValid h inst.rd _
        (omega (arith, div-le_self a (2 ^ bit_and inst.imm 0x3f), h.registers inst.rs1))

  pub exec_srai-IsValid : IsValid l (exec_srai inst m)
  unfolding exec_srai
  exec_srai-IsValid =
      write_reg-IsValid h inst.rd _ (asr64-lt a (bit_and inst.imm 0x3f) (h.registers inst.rs1))

  pub exec_slti-IsValid : IsValid l (exec_slti inst m)
  unfolding exec_slti
  exec_slti-IsValid = write_reg-IsValid h inst.rd _ (bool-lt (slt64 a (sx32 inst.imm)))

  pub exec_sltiu-IsValid : IsValid l (exec_sltiu inst m)
  unfolding exec_sltiu
  exec_sltiu-IsValid = write_reg-IsValid h inst.rd _ (bool-lt (ltb a (sx32 inst.imm)))

  pub exec_addw-IsValid : IsValid l (exec_addw inst m)
  unfolding exec_addw
  exec_addw-IsValid = write_reg-IsValid h inst.rd _ (sx32-lt (u32 (u64 (a + b))) (omega arith))

  pub exec_subw-IsValid : IsValid l (exec_subw inst m)
  unfolding exec_subw
  exec_subw-IsValid = write_reg-IsValid h inst.rd _ (sx32-lt (u32 (sub64 a b)) (omega arith))

  pub exec_addiw-IsValid : IsValid l (exec_addiw inst m)
  unfolding exec_addiw
  exec_addiw-IsValid =
      choose (inst.rd == 0) h
        (write_reg-IsValid h inst.rd _ (sx32-lt (u32 (u32 a + inst.imm)) (omega arith)))

  pub exec_sllw-IsValid : IsValid l (exec_sllw inst m)
  unfolding exec_sllw
  exec_sllw-IsValid =
      write_reg-IsValid h inst.rd _ (sx32-lt (u32 (u32 a <<< bit_and b 0x1f)) (omega arith))

  pub exec_srlw-IsValid : IsValid l (exec_srlw inst m)
  unfolding exec_srlw
  exec_srlw-IsValid =
      write_reg-IsValid h inst.rd _ (
        sx32-lt (u32 a >>> bit_and b 0x1f)
          (omega (arith, div-le_self (u32 a) (2 ^ bit_and b 0x1f))))

  pub exec_sraw-IsValid : IsValid l (exec_sraw inst m)
  unfolding exec_sraw
  exec_sraw-IsValid =
      write_reg-IsValid h inst.rd _ (sx32-lt _ (asr32-lt (u32 a) (bit_and b 0x1f) (omega arith)))

  pub exec_auipc-IsValid : IsValid l (exec_auipc inst m)
  unfolding exec_auipc
  exec_auipc-IsValid = choose (inst.rd == 0) h (write_reg-IsValid h inst.rd _ (omega arith))

  pub exec_slliw-IsValid : IsValid l (exec_slliw inst m)
  unfolding exec_slliw
  exec_slliw-IsValid = choose (inst.rd == 0) h (
      write_reg-IsValid h inst.rd _ (sx32-lt (u32 (u32 a <<< bit_and inst.imm 0x1f)) (omega arith)))

  pub exec_srliw-IsValid : IsValid l (exec_srliw inst m)
  unfolding exec_srliw
  exec_srliw-IsValid = choose (inst.rd == 0) h (
      write_reg-IsValid h inst.rd _ (
        sx32-lt (u32 a >>> bit_and inst.imm 0x1f)
          (omega (arith, div-le_self (u32 a) (2 ^ bit_and inst.imm 0x1f)))))

  pub exec_sraiw-IsValid : IsValid l (exec_sraiw inst m)
  unfolding exec_sraiw
  exec_sraiw-IsValid = choose (inst.rd == 0) h (
      write_reg-IsValid h inst.rd _
        (sx32-lt _ (asr32-lt (u32 a) (bit_and inst.imm 0x1f) (omega arith))))

  pub exec_mul-IsValid : IsValid l (exec_mul inst m)
  unfolding exec_mul
  exec_mul-IsValid = write_reg-IsValid h inst.rd _ (omega arith)

  pub exec_div-IsValid : IsValid l (exec_div inst m)
  unfolding exec_div
  exec_div-IsValid = choose (b == 0) (write_reg-IsValid h inst.rd _ (omega arith)) (
      choose (a == 0x8000_0000_0000_0000 && b == ones64)
        (write_reg-IsValid h inst.rd _ (h.registers inst.rs1))
        (write_reg-IsValid h inst.rd _ (to_u64-lt (int64 a /ℤ int64 b))))

  pub exec_divu-IsValid : IsValid l (exec_divu inst m)
  unfolding exec_divu
  exec_divu-IsValid =
      choose (b == 0) (write_reg-IsValid h inst.rd _ (omega arith))
        (write_reg-IsValid h inst.rd _ (omega (arith, div-le_self a b, h.registers inst.rs1)))

  pub exec_rem-IsValid : IsValid l (exec_rem inst m)
  unfolding exec_rem
  exec_rem-IsValid = choose (b == 0) (write_reg-IsValid h inst.rd _ (h.registers inst.rs1)) (
      choose (a == 0x8000_0000_0000_0000 && b == ones64)
        (write_reg-IsValid h inst.rd _ (omega arith))
        (write_reg-IsValid h inst.rd _ (to_u64-lt (int64 a %ℤ int64 b))))

  pub exec_remu-IsValid : IsValid l (exec_remu inst m)
  unfolding exec_remu
  exec_remu-IsValid =
      choose (b == 0) (write_reg-IsValid h inst.rd _ (h.registers inst.rs1))
        (write_reg-IsValid h inst.rd _ (omega (arith, mod-le a b, h.registers inst.rs1)))

  pub exec_mulw-IsValid : IsValid l (exec_mulw inst m)
  unfolding exec_mulw
  exec_mulw-IsValid = write_reg-IsValid h inst.rd _ (sx32-lt (u32 (u32 a * u32 b)) (omega arith))

  pub exec_divw-IsValid : IsValid l (exec_divw inst m)
  unfolding exec_divw
  exec_divw-IsValid = choose (u32 b == 0) (write_reg-IsValid h inst.rd _ (omega arith)) (
      choose (u32 a == 0x8000_0000 && u32 b == 0xffff_ffff)
        (write_reg-IsValid h inst.rd _ (sx32-lt (u32 a) (omega arith)))
        (write_reg-IsValid h inst.rd _ (to_u64-lt (int32 (u32 a) /ℤ int32 (u32 b)))))

  pub exec_divuw-IsValid : IsValid l (exec_divuw inst m)
  unfolding exec_divuw
  exec_divuw-IsValid = choose (u32 b == 0) (write_reg-IsValid h inst.rd _ (omega arith)) (
      write_reg-IsValid h inst.rd _
        (sx32-lt (u32 a / u32 b) (omega (arith, div-le_self (u32 a) (u32 b)))))

  pub exec_remw-IsValid : IsValid l (exec_remw inst m)
  unfolding exec_remw
  exec_remw-IsValid =
      choose (u32 b == 0) (write_reg-IsValid h inst.rd _ (sx32-lt (u32 a) (omega arith))) (
        choose (u32 a == 0x8000_0000 && u32 b == 0xffff_ffff)
          (write_reg-IsValid h inst.rd _ (omega arith))
          (write_reg-IsValid h inst.rd _ (to_u64-lt (int32 (u32 a) %ℤ int32 (u32 b)))))

  pub exec_remuw-IsValid : IsValid l (exec_remuw inst m)
  unfolding exec_remuw
  exec_remuw-IsValid =
      choose (u32 b == 0) (write_reg-IsValid h inst.rd _ (sx32-lt (u32 a) (omega arith))) (
        write_reg-IsValid h inst.rd _
          (sx32-lt (u32 a % u32 b) (omega (arith, mod-le (u32 a) (u32 b)))))

  pub exec_mulh-IsValid : IsValid l (exec_mulh inst m)
  unfolding exec_mulh
  exec_mulh-IsValid = write_reg-IsValid h inst.rd _ (ground (arith, multiply_high_u64-lt a b))

  pub exec_mulhsu-IsValid : IsValid l (exec_mulhsu inst m)
  unfolding exec_mulhsu
  exec_mulhsu-IsValid = write_reg-IsValid h inst.rd _ (ground (arith, multiply_high_u64-lt a b))

  pub exec_mulhu-IsValid : IsValid l (exec_mulhu inst m)
  unfolding exec_mulhu
  exec_mulhu-IsValid = set_register h inst.rd _ (multiply_high_u64-lt a b)

  pub exec_beq-IsValid : IsValid l (exec_beq inst m)
  unfolding exec_beq
  exec_beq-IsValid = choose (a == b) (set_program_counter h _ (omega arith)) h

  pub exec_bne-IsValid : IsValid l (exec_bne inst m)
  unfolding exec_bne
  exec_bne-IsValid = choose (not (a == b)) (set_program_counter h _ (omega arith)) h

  pub exec_blt-IsValid : IsValid l (exec_blt inst m)
  unfolding exec_blt
  exec_blt-IsValid = choose (slt64 a b) (set_program_counter h _ (omega arith)) h

  pub exec_bge-IsValid : IsValid l (exec_bge inst m)
  unfolding exec_bge
  exec_bge-IsValid = choose (not (slt64 a b)) (set_program_counter h _ (omega arith)) h

  pub exec_bltu-IsValid : IsValid l (exec_bltu inst m)
  unfolding exec_bltu
  exec_bltu-IsValid = choose (ltb a b) (set_program_counter h _ (omega arith)) h

  pub exec_bgeu-IsValid : IsValid l (exec_bgeu inst m)
  unfolding exec_bgeu
  exec_bgeu-IsValid = choose (leb b a) (set_program_counter h _ (omega arith)) h

  pub exec_jalr-IsValid : IsValid l (exec_jalr inst m)
  unfolding exec_jalr
  exec_jalr-IsValid =
      let t = u64 (a + sx32 inst.imm) in
      set_program_counter (write_reg-IsValid h inst.rd (u64 (inst.pc + inst.length)) (omega arith))
        _ (omega (arith, bit_and-le t (not64 1)))

  pub exec_jal-IsValid : IsValid l (exec_jal inst m)
  unfolding exec_jal
  exec_jal-IsValid =
      set_program_counter (write_reg-IsValid h inst.rd (u64 (inst.pc + inst.length)) (omega arith))
        _ (omega arith)

  pub exec_add-IsValid : IsValid l (exec_add inst m)
  unfolding exec_add
  exec_add-IsValid = set_register h inst.rd _ (omega arith)

  pub exec_sub-IsValid : IsValid l (exec_sub inst m)
  unfolding exec_sub
  exec_sub-IsValid = set_register h inst.rd _ (omega arith)

  pub exec_addi-IsValid : IsValid l (exec_addi inst m)
  unfolding exec_addi
  exec_addi-IsValid = set_register h inst.rd _ (omega arith)
