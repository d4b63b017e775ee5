-- ===== src/Instr/Atomics/Operations.antt =====
-- The atomic memory operations on RAM, against their meaning on integers.
use rv64i_simulator.Base.{
  ℕ, ◌+◌, ◌-◌, ◌%◌, ◌^◌, ◌<◌, ◌≡◌, refl, ◌∙◌, ap, Bool, true, false, ltb, if◌then◌else◌, bit_and,
  bit_or, bit_xor, u32, u64, sx32, slt32, slt64, arith,
}
use rv64i_simulator.Base.Int.{ℤ, pos, negsuc, int32, int64}
use rv64i_simulator.Memory
use rv64i_simulator.Machine.{Machine, write_reg}
use rv64i_simulator.Decode.{DecodedInstruction}
use rv64i_simulator.Bus.Ram.{InRam, Unprotected, reads, writes}
use rv64i_simulator.Invariant.Ram.{RamFits, read_word-lt, read_double-lt}
use rv64i_simulator.Instr.Atomics.{
  amo_op_w, amo_op_d, exec_amoswap_w, exec_amoswap_d, exec_amoadd_w, exec_amoadd_d, exec_amoxor_w,
  exec_amoxor_d, exec_amoand_w, exec_amoand_d, exec_amoor_w, exec_amoor_d, exec_amomin_w,
  exec_amomin_d, exec_amomax_w, exec_amomax_d, exec_amominu_w, exec_amominu_d, exec_amomaxu_w,
  exec_amomaxu_d,
}

pub data Operation : Type 0 where
  swap : Operation
  add : Operation
  xor : Operation
  and : Operation
  or : Operation
  min : Operation
  max : Operation
  minu : Operation
  maxu : Operation

-- The handlers of the two widths.
unfoldable pub handler_w : Operation → DecodedInstruction → Machine → Machine
handler_w Operation.swap = exec_amoswap_w
handler_w Operation.add = exec_amoadd_w
handler_w Operation.xor = exec_amoxor_w
handler_w Operation.and = exec_amoand_w
handler_w Operation.or = exec_amoor_w
handler_w Operation.min = exec_amomin_w
handler_w Operation.max = exec_amomax_w
handler_w Operation.minu = exec_amominu_w
handler_w Operation.maxu = exec_amomaxu_w

unfoldable pub handler_d : Operation → DecodedInstruction → Machine → Machine
handler_d Operation.swap = exec_amoswap_d
handler_d Operation.add = exec_amoadd_d
handler_d Operation.xor = exec_amoxor_d
handler_d Operation.and = exec_amoand_d
handler_d Operation.or = exec_amoor_d
handler_d Operation.min = exec_amomin_d
handler_d Operation.max = exec_amomax_d
handler_d Operation.minu = exec_amominu_d
handler_d Operation.maxu = exec_amomaxu_d

-- The order of the integers.
abbrev less : ℤ → ℤ → Bool
less (pos a) (pos b) = ltb a b
less (pos a) (negsuc b) = false
less (negsuc a) (pos b) = true
less (negsuc a) (negsuc b) = ltb b a

-- What an operation makes of two words of `bits` bits, the signed ones by the integers `int` that words stand for.
unfoldable pub result : ℕ → (ℕ → ℤ) → Operation → ℕ → ℕ → ℕ
result bits int Operation.swap x y = y
result bits int Operation.add x y = (x + y) % 2 ^ bits
result bits int Operation.xor x y = bit_xor x y
result bits int Operation.and x y = bit_and x y
result bits int Operation.or x y = bit_or x y
result bits int Operation.min x y = if less (int x) (int y) then x else y
result bits int Operation.max x y = if less (int y) (int x) then x else y
result bits int Operation.minu x y = if ltb x y then x else y
result bits int Operation.maxu x y = if ltb y x then x else y

less-int32 : (x y : ℕ) → x < 2 ^ 32 → y < 2 ^ 32 → slt32 x y ≡ less (int32 x) (int32 y)
less-int32 x y p q = ground arith

less-int64 : (x y : ℕ) → x < 2 ^ 64 → y < 2 ^ 64 → slt64 x y ≡ less (int64 x) (int64 y)
less-int64 x y p q = ground arith

module _ (m : Machine) (inst : DecodedInstruction) (r : InRam m (m.registers inst.rs1))
    (p : Unprotected m) where
  abbrev offset : ℕ
  offset = m.registers inst.rs1 - m.ram_base

  abbrev old_w : ℕ
  old_w = Memory.read_word m.ram offset

  abbrev old_d : ℕ
  old_d = Memory.read_double m.ram offset

  abbrev pub after_w : ℕ → Machine
  after_w x = write_reg inst.rd (sx32 old_w) (record m { ram = Memory.write_word m.ram offset x })

  abbrev pub after_d : ℕ → Machine
  after_d x = write_reg inst.rd old_d (record m { ram = Memory.write_double m.ram offset x })

  amo_w : (op : ℕ → ℕ → ℕ) → amo_op_w op inst m ≡ after_w (op old_w (u32 (m.registers inst.rs2)))
  unfolding amo_op_w
  amo_w op =
      let a = m.registers inst.rs1 in
      rw ((reads m a r p).1, (writes m a r p (op old_w (u32 (m.registers inst.rs2)))).1) refl

  amo_d : (op : ℕ → ℕ → ℕ) → amo_op_d op inst m ≡ after_d (op old_d (m.registers inst.rs2))
  unfolding amo_op_d
  amo_d op =
      let a = m.registers inst.rs1 in
      rw ((reads m a r p).2, (writes m a r p (op old_d (m.registers inst.rs2))).2) refl

  module _ (bytes : RamFits m.ram.size m.ram) (source : m.registers inst.rs2 < 2 ^ 64) where
    handler_w-result :
        (op : Operation)
        → handler_w op inst m ≡ after_w (result 32 int32 op old_w (u32 (m.registers inst.rs2)))
    unfolding handler_w result exec_amoswap_w exec_amoadd_w exec_amoxor_w exec_amoand_w exec_amoor_w
        exec_amomin_w exec_amomax_w exec_amominu_w exec_amomaxu_w
    handler_w-result Operation.swap = amo_w (λ x y. y)
    handler_w-result Operation.add = amo_w (λ x y. u32 (x + y))
    handler_w-result Operation.xor = amo_w bit_xor
    handler_w-result Operation.and = amo_w bit_and
    handler_w-result Operation.or = amo_w bit_or
    handler_w-result Operation.min =
        amo_w (λ x y. if slt32 x y then x else y)
        ∙ ap (λ b. after_w (if b then old_w else u32 (m.registers inst.rs2)))
            (less-int32 old_w (u32 (m.registers inst.rs2)) (read_word-lt bytes offset)
              (omega arith))
    handler_w-result Operation.max =
        amo_w (λ x y. if slt32 y x then x else y)
        ∙ ap (λ b. after_w (if b then old_w else u32 (m.registers inst.rs2)))
            (less-int32 (u32 (m.registers inst.rs2)) old_w (omega arith)
              (read_word-lt bytes offset))
    handler_w-result Operation.minu = amo_w (λ x y. if ltb x y then x else y)
    handler_w-result Operation.maxu = amo_w (λ x y. if ltb y x then x else y)

    handler_d-result :
        (op : Operation)
        → handler_d op inst m ≡ after_d (result 64 int64 op old_d (m.registers inst.rs2))
    unfolding handler_d result exec_amoswap_d exec_amoadd_d exec_amoxor_d exec_amoand_d exec_amoor_d
        exec_amomin_d exec_amomax_d exec_amominu_d exec_amomaxu_d
    handler_d-result Operation.swap = amo_d (λ x y. y)
    handler_d-result Operation.add = amo_d (λ x y. u64 (x + y))
    handler_d-result Operation.xor = amo_d bit_xor
    handler_d-result Operation.and = amo_d bit_and
    handler_d-result Operation.or = amo_d bit_or
    handler_d-result Operation.min =
        amo_d (λ x y. if slt64 x y then x else y)
        ∙ ap (λ b. after_d (if b then old_d else m.registers inst.rs2))
            (less-int64 old_d (m.registers inst.rs2) (read_double-lt bytes offset) source)
    handler_d-result Operation.max =
        amo_d (λ x y. if slt64 y x then x else y)
        ∙ ap (λ b. after_d (if b then old_d else m.registers inst.rs2))
            (less-int64 (m.registers inst.rs2) old_d source (read_double-lt bytes offset))
    handler_d-result Operation.minu = amo_d (λ x y. if ltb x y then x else y)
    handler_d-result Operation.maxu = amo_d (λ x y. if ltb y x then x else y)

    -- In machine mode without a locked PMP entry, at an address with eight bytes of RAM left from it
    -- on, in a RAM that is above the CLINT and ends below 2^64 and holds bytes, and with a 64-bit
    -- source, each of the nine atomic operations, at both widths, stores the result of the old word
    -- and the source, with minimum and maximum taken of the integers that the words stand for, writes
    -- the old word, sign-extended, to the destination, and changes nothing else.
    pub operation-result :
        (op : Operation)
        → (handler_w op inst m ≡ after_w (result 32 int32 op old_w (u32 (m.registers inst.rs2))))
          × (handler_d op inst m ≡ after_d (result 64 int64 op old_d (m.registers inst.rs2)))
    operation-result op = (handler_w-result op, handler_d-result op)
