-- ===== src/Invariant/Words.antt =====
-- The fields of a decoded instruction fit what the handlers write.
use rv64i_simulator.Base.{ℕ, ◌-◌, ◌^◌, ◌<◌, ◌<<<◌, ◌>>>◌, bit_and, u32, arith}
use rv64i_simulator.Base.Bits.{bit_and-le, bit_and_mask}
use rv64i_simulator.Decode.{
  InstructionFormat, get_format, sign_extend, decode_i, decode_s, decode_b, decode_u, decode_j,
  immediate, decode,
}
use rv64i_simulator.Invariant.{InstFits}
use rv64i_simulator.Invariant.Registers.{asr32-lt}

sign_extend-lt : (x bits : ℕ) → sign_extend x bits < 2 ^ 32
unfolding sign_extend
sign_extend-lt x bits = asr32-lt (u32 (x <<< (32 - bits))) (32 - bits) (omega arith)

immediate-lt : (f : InstructionFormat) (raw : ℕ) → raw < 2 ^ 32 → immediate f raw < 2 ^ 32
unfolding immediate decode_i decode_s decode_b decode_u decode_j
immediate-lt InstructionFormat.i raw h = sign_extend-lt _ 12
immediate-lt InstructionFormat.s raw h = sign_extend-lt _ 12
immediate-lt InstructionFormat.b raw h = sign_extend-lt _ 13
immediate-lt InstructionFormat.u raw h = omega (arith, bit_and-le raw 0xffff_f000)
immediate-lt InstructionFormat.j raw h = sign_extend-lt _ 21
immediate-lt InstructionFormat.r raw h = omega arith

pub decode-InstFits :
    (raw pc length : ℕ) → raw < 2 ^ 32 → pc < 2 ^ 64 → InstFits (decode raw pc length)
unfolding decode
decode-InstFits raw pc length h p = record {
  imm = immediate-lt (get_format (bit_and raw 0x7f)) raw h;
  rs1 = omega (arith, bit_and_mask 5 (raw >>> 15));
  pc = p;
}
