-- ===== src/Registry.antt =====
-- src/Core/InstructionRegistry.cpp: the instruction table, a hash table with linear probing whose
-- hash is the opcode. A handler's address is a constructor of `ExecFunc`; a slot whose `func` is
-- null is `none`.
pub mod Default
pub mod Probe
pub mod Insert
pub mod First
use rv64i_simulator.Base.{
  ℕ, zero, suc, ◌+◌, ◌*◌, ◌^◌, Bool, Option, none, some, List, [], ◌∷◌, ◌==◌, if◌then◌else◌,
  bit_and, bit_or, ◌<<<◌, u32, update,
}

pub data ExecFunc : Type 0 where
  add sub addi lw sw beq jal fence sfence_vma fence_i : ExecFunc
  lb lh ld lbu lhu lwu lui : ExecFunc
  sb sh sd : ExecFunc
  bne blt bge bltu bgeu jalr : ExecFunc
  and or xor sll srl sra slt sltu slli srli srai : ExecFunc
  addw subw sllw srlw sraw andi ori xori addiw slti sltiu auipc slliw srliw sraiw : ExecFunc
  system_dispatch csrrw csrrs csrrc csrrwi csrrsi csrrci : ExecFunc
  fsd fld fmv_w_x fmv_x_w fmv_d_x fmv_x_d : ExecFunc
  mul mulh mulhsu mulhu div divu rem remu mulw divw divuw remw remuw : ExecFunc
  lr_w sc_w lr_d sc_d amoswap_w amoswap_d amoadd_w amoadd_d amoxor_w amoxor_d : ExecFunc
  amoand_w amoand_d amoor_w amoor_d amomin_w amomin_d amomax_w amomax_d : ExecFunc
  amominu_w amominu_d amomaxu_w amomaxu_d : ExecFunc

pub record Entry : Type 0 where
  pub key : ℕ
  pub mask : ℕ
  pub func : ExecFunc

abbrev pub Table : Type 0
Table = ℕ → Option Entry

abbrev pub table_size : ℕ
table_size = 2048

pub data MaskType : Type 0 where
  r i s b u j opcode_only : MaskType

unfoldable pub get_mask : MaskType → ℕ
get_mask MaskType.r = 0xfe00_707f
get_mask MaskType.i = bit_or (0x7 <<< 12) 0x7f
get_mask MaskType.s = bit_or (0x7 <<< 12) 0x7f
get_mask MaskType.b = bit_or (0x7 <<< 12) 0x7f
get_mask MaskType.u = 0x7f
get_mask MaskType.j = 0x7f
get_mask opcode_only = 0x7f

unfoldable pub make_key : ℕ → ℕ → ℕ → ℕ
make_key opcode funct3 funct7 = bit_or (bit_or opcode (u32 (funct3 <<< 12))) (u32 (funct7 <<< 25))

-- `(key & 0x7F) & (TABLE_SIZE - 1)`.
unfoldable pub home : ℕ → ℕ
home key = bit_and (bit_and key 0x7f) 0x7ff

abbrev pub next_index : ℕ → ℕ
next_index index = bit_and (index + 1) 0x7ff

-- The probing loop of `register_inst`, with fuel: the first free slot, `none` if it comes round.
unfoldable pub free_slot : ℕ → ℕ → ℕ → Table → Option ℕ
free_slot zero start index table = none
free_slot (suc fuel) start index table =
    let rest = free_slot fuel start (next_index index) table in
    elim (table index) [
      | none ↦ some index
      | some e ↦ if next_index index == start then none else rest
    ]

unfoldable pub register_inst : Table → Entry → Table
register_inst table e = elim (free_slot table_size (home e.key) (home e.key) table) [
  | some index ↦ update table index (some e)
  | none ↦ table
]

-- The probing loop of `lookup`, with fuel.
unfoldable pub lookup_from : ℕ → ℕ → ℕ → ℕ → Table → Option ExecFunc
lookup_from zero raw start index table = none
lookup_from (suc fuel) raw start index table =
    let rest = lookup_from fuel raw start (next_index index) table in
    elim (table index) [
      | none ↦ none
      | some e ↦
          if bit_and raw e.mask == e.key
          then some e.func
          else if next_index index == start
          then none
          else rest
    ]

unfoldable pub lookup : ℕ → Table → Option ExecFunc
lookup raw table = lookup_from table_size raw (home raw) (home raw) table

-- `register_r`, `register_i`, `register_s`, `register_b`, `register_u`, `register_opcode`.
unfoldable pub entry_r : ℕ → ℕ → ℕ → ExecFunc → Entry
entry_r opcode funct3 funct7 func = record {
  key = make_key opcode funct3 funct7;
  mask = get_mask MaskType.r;
  func = func;
}

unfoldable pub entry_i : ℕ → ℕ → ExecFunc → Entry
entry_i opcode funct3 func = record {
  key = bit_or opcode (u32 (funct3 <<< 12));
  mask = get_mask MaskType.i;
  func = func;
}

unfoldable pub entry_s : ℕ → ℕ → ExecFunc → Entry
entry_s opcode funct3 func = record {
  key = bit_or opcode (u32 (funct3 <<< 12));
  mask = get_mask MaskType.s;
  func = func;
}

unfoldable pub entry_b : ℕ → ℕ → ExecFunc → Entry
entry_b opcode funct3 func = record {
  key = bit_or opcode (u32 (funct3 <<< 12));
  mask = get_mask MaskType.b;
  func = func;
}

unfoldable pub entry_u : ℕ → ExecFunc → Entry
entry_u opcode func = record { key = opcode; mask = get_mask MaskType.u; func = func }

unfoldable pub entry_opcode : ℕ → ExecFunc → Entry
entry_opcode opcode func = record { key = opcode; mask = get_mask opcode_only; func = func }

-- `register_exact`, and the overload of `register_inst` for a mask type; no code calls them.
unfoldable pub entry_exact : ℕ → ExecFunc → Entry
entry_exact key func = record { key = key; mask = 0xffff_ffff; func = func }

unfoldable pub entry_of_type : ℕ → MaskType → ExecFunc → Entry
entry_of_type key type func = record { key = key; mask = get_mask type; func = func }

-- A series of registrations, in order.
unfoldable pub register_all : List Entry → Table → Table
register_all [] table = table
register_all (e ∷ es) table = register_all es (register_inst table e)
