-- ===== src/Step/Addi.antt =====
-- One instruction from RAM to the registers: fetch, decoding, look-up and handler together, for `addi`.
use rv64i_simulator.Base.{
  ℕ, ◌+◌, ◌-◌, ◌*◌, ◌/◌, ◌%◌, ◌^◌, ◌<◌, ◌≤◌, ◌≡◌, refl, ◌∙◌, ap, true, false, Option, some, ◌==◌,
  if◌then◌else◌, bit_and, bit_or, ◌<<<◌, ltb, u64, sx32, update, arith,
}
use rv64i_simulator.Base.Bits.{bit_and_mask, bit_or_fields}
use rv64i_simulator.Memory
use rv64i_simulator.Memory.Bytes.{or_of_two, or_of_four}
use rv64i_simulator.Machine.{Machine, write_reg}
use rv64i_simulator.Decode.{DecodedInstruction, get_format, immediate, decode, decode_i}
use rv64i_simulator.Decode.Fields.{word_of, decode-word_of}
use rv64i_simulator.Decode.Immediates.{signed, format_i, decode_i-format_i}
use rv64i_simulator.Registry.{ExecFunc, make_key, entry_r, entry_i, get_mask}
use rv64i_simulator.Registry.Default.{init_table, default_entries, register_rv64i}
use rv64i_simulator.Registry.First.{first_match, init_table-first_match}
use rv64i_simulator.Instr.System.{Environment}
use rv64i_simulator.Instr.Branches.{exec_addi}
use rv64i_simulator.Instr.Dispatch.{call}
use rv64i_simulator.Step.{lookup_funct7, find_handler, dispatch, handle, execute, step}
use rv64i_simulator.Step.Fetch.{IsReady, ticked, half_at, word_here, step-word}

-- The word of an `addi`.
abbrev pub addi_word : ℕ → ℕ → ℕ → ℕ
addi_word rd rs1 imm = word_of 0x13 rd 0 rs1 (imm % 2 ^ 5) (imm / 2 ^ 5)

-- The look-up of an `addi`, whatever its other fields are.
addi_lookup_funct7 :
    (inst : DecodedInstruction) → inst.opcode ≡ 0x13 → inst.funct3 ≡ 0 → lookup_funct7 inst ≡ 0
unfolding lookup_funct7 get_format
addi_lookup_funct7 inst p q = rw (lookup_funct7, p, q) refl

addi_match : first_match (make_key 0x13 0 0) default_entries ≡ some ExecFunc.addi
unfolding make_key first_match default_entries register_rv64i entry_r entry_i get_mask
addi_match = refl

addi_handler :
    (inst : DecodedInstruction)
    → inst.opcode ≡ 0x13
    → inst.funct3 ≡ 0
    → find_handler init_table inst ≡ some ExecFunc.addi
unfolding find_handler
addi_handler inst p q =
    rw (find_handler, addi_lookup_funct7 inst p q, p, q)
      (init_table-first_match (make_key 0x13 0 0) ∙ addi_match)

module _ (rd rs1 imm : ℕ) (a : rd < 2 ^ 5) (b : rs1 < 2 ^ 5) (c : imm < 2 ^ 12) (pc : ℕ) where
  abbrev decoded : DecodedInstruction
  decoded = decode (addi_word rd rs1 imm) pc 4

  pub fields :
      (decoded.opcode ≡ 0x13)
      × (decoded.rd ≡ rd)
      × (decoded.funct3 ≡ 0)
      × (decoded.rs1 ≡ rs1)
      × (decoded.imm ≡ signed 12 imm)
  unfolding immediate get_format
  fields =
      let d =
        decode-word_of 0x13 rd 0 rs1 (imm % 2 ^ 5) (imm / 2 ^ 5) pc 4 (omega arith) a (omega arith)
          b (omega arith) (omega arith) in
      let low = 0x13 + rd * 2 ^ 7 + rs1 * 2 ^ 15 in
      let layout : addi_word rd rs1 imm ≡ format_i imm low = omega arith in
      (d.0, d.1, d.2, d.3, d.6 ∙ ap decode_i layout ∙ decode_i-format_i imm low c (omega arith))

  -- The call of the handler, and the end of the step.
  dispatched :
      (env : Option Environment) (m : Machine)
      → dispatch env (find_handler init_table decoded) decoded (addi_word rd rs1 imm) m ≡ record m {
        registers = update m.registers rd (u64 (m.registers rs1 + sx32 (signed 12 imm)));
      }
  unfolding dispatch call exec_addi
  dispatched env m =
      let f = fields in
      rw (dispatch, addi_handler decoded f.0 f.2, call, exec_addi, f.1, f.3, f.4) refl

-- Two half-words of RAM make its word.
module _ (ram : Memory.Memory) (o : ℕ) (h : (i : ℕ) → ram.cells i < 2 ^ 8) (p : o + 7 < ram.size)
    (q : ram.size < 2 ^ 64) where
  half_bytes :
      (k : ℕ) → k ≤ o + 2 → Memory.read_half ram k ≡ ram.cells k + ram.cells (k + 1) * 2 ^ 8
  unfolding Memory.read_half
  half_bytes k r =
      let next : u64 (k + 1) ≡ k + 1 = omega arith in
      let inside : ltb (k + 1) ram.size ≡ true = ground arith in
      let a = h k in
      let b = h (k + 1) in
      rw (Memory.read_half, next, inside, or_of_two (ram.cells k) (ram.cells (k + 1)) a)
        (omega arith)

  pub word_bytes :
      Memory.read_word ram o
      ≡ ram.cells o
        + ram.cells (o + 1) * 2 ^ 8
        + ram.cells (o + 2) * 2 ^ 16
        + ram.cells (o + 3) * 2 ^ 24
  unfolding Memory.read_word
  word_bytes =
      let at0 : u64 (o + 0) ≡ o = omega arith in
      let at1 : u64 (o + 1) ≡ o + 1 = omega arith in
      let at2 : u64 (o + 2) ≡ o + 2 = omega arith in
      let at3 : u64 (o + 3) ≡ o + 3 = omega arith in
      let inside : ltb (o + 3) ram.size ≡ true = ground arith in
      rw (Memory.read_word, at0, at1, at2, at3, inside)
        (or_of_four (ram.cells o) (ram.cells (o + 1)) (ram.cells (o + 2)) (ram.cells (o + 3)) (h o)
          (h (o + 1)) (h (o + 2)))

  halves-read_word :
      bit_or (Memory.read_half ram (o + 2) <<< 16) (Memory.read_half ram o) ≡ Memory.read_word ram o
  halves-read_word =
      let a = h o in
      let b = h (o + 1) in
      let third : ram.cells (o + 2 + 1) ≡ ram.cells (o + 3) =
        let e : o + 2 + 1 ≡ o + 3 = omega arith in ap ram.cells e in
      let low : Memory.read_half ram o < 2 ^ 16 = omega (arith, half_bytes o (omega arith)) in
      bit_or_fields 16 (Memory.read_half ram (o + 2)) (Memory.read_half ram o) low
      ∙ omega
          (arith, half_bytes o (omega arith), half_bytes (o + 2) (omega arith), word_bytes, third)

word_here-read_word :
    (m : Machine) (r : IsReady m)
    → ((i : ℕ) → m.ram.cells i < 2 ^ 8)
    → word_here m r ≡ Memory.read_word m.ram (m.program_counter - m.ram_base)
word_here-read_word m r h =
    let f = r.first in
    let o = m.program_counter - m.ram_base in
    let e : m.program_counter + 2 - m.ram_base ≡ o + 2 = omega arith in
    ap (λ k. bit_or (Memory.read_half m.ram k <<< 16) (Memory.read_half m.ram o)) e
    ∙ halves-read_word m.ram o h (omega arith) (omega arith)

-- The end of `execute`, after the handler.
abbrev finished : ℕ → Machine → Machine
finished pc m =
    let m1 = record m { trap_pending = false } in
    let m2 =
      if m1.program_counter == pc
      then record m1 { program_counter = u64 (m1.program_counter + 4) }
      else m1 in
    record m2 { step_count = u64 (m2.step_count + 1) }

execute-finished :
    (env : Option Environment) (raw : ℕ) (m : Machine)
    → execute env init_table m.program_counter raw 4 m
      ≡ finished m.program_counter (
          dispatch env
            (find_handler init_table (decode raw m.program_counter 4))
            (decode raw m.program_counter 4)
            raw
            m)
unfolding execute handle write_reg
execute-finished env raw m = refl

finished_here :
    (pc : ℕ) (m : Machine)
    → m.program_counter ≡ pc
    → pc + 4 < 2 ^ 64
    → finished pc m ≡ record m {
      trap_pending = false;
      program_counter = pc + 4;
      step_count = u64 (m.step_count + 1);
    }
finished_here pc m e p =
    let next : u64 (m.program_counter + 4) ≡ pc + 4 = omega arith in
    let same : (m.program_counter == pc) ≡ true = ground arith in rw (same, next) refl

low_bits :
    (m : Machine) (r : IsReady m) (rd rs1 imm : ℕ)
    → ((i : ℕ) → m.ram.cells i < 2 ^ 8)
    → Memory.read_word m.ram (m.program_counter - m.ram_base) ≡ addi_word rd rs1 imm
    → (bit_and (half_at m m.program_counter) 0x3 == 0x3) ≡ true
low_bits m r rd rs1 imm h w =
    let f = r.first in
    let o = m.program_counter - m.ram_base in
    let low = half_bytes m.ram o h (omega arith) (omega arith) o (omega arith) in
    let word = word_bytes m.ram o h (omega arith) (omega arith) in
    let e : bit_and (Memory.read_half m.ram o) 0x3 ≡ 3 =
      omega (arith, bit_and_mask 2 (Memory.read_half m.ram o)) in
    rw e refl

-- In machine mode without a locked PMP entry, with ten bytes of RAM left from the program counter
-- on, RAM above the CLINT, ending below 2^64 and made of bytes, if RAM holds an addi there, a
-- step with the program's instruction table writes the sum of the source and the sign-extended
-- immediate to the destination, moves the program counter by 4, counts the timer and the steps by
-- 1, clears trap_pending, and changes nothing else.
pub step-addi :
    (m : Machine) (env : Option Environment) (rd rs1 imm : ℕ)
    → IsReady m
    → ((i : ℕ) → m.ram.cells i < 2 ^ 8)
    → rd < 2 ^ 5
    → rs1 < 2 ^ 5
    → imm < 2 ^ 12
    → Memory.read_word m.ram (m.program_counter - m.ram_base) ≡ addi_word rd rs1 imm
    → step env init_table m ≡ (
      true,
      record m {
        registers = update m.registers rd (u64 (m.registers rs1 + sx32 (signed 12 imm)));
        program_counter = m.program_counter + 4;
        mtime = u64 (m.mtime + 1);
        step_count = u64 (m.step_count + 1);
        trap_pending = false;
      },
    )
step-addi m env rd rs1 imm r h a b c w =
    let f = r.first in
    let word = word_here-read_word m r h ∙ w in
    step-word m r env init_table (low_bits m r rd rs1 imm h w)
    ∙ ap (λ s. (true, s))
        (ap (λ raw. execute env init_table m.program_counter raw 4 (ticked m)) word
          ∙ execute-finished env (addi_word rd rs1 imm) (ticked m)
          ∙ ap (finished m.program_counter)
              (dispatched rd rs1 imm a b c m.program_counter env (ticked m))
          ∙ finished_here m.program_counter
              (record (ticked m) {
                registers = update m.registers rd (u64 (m.registers rs1 + sx32 (signed 12 imm)));
              })
              refl (omega arith))
