-- ===== src/Registry/Default.antt =====
-- src/Core/DefaultRegistry.cpp and the `register_*` functions of src/Instructions: the registrations
-- in the order of the code.
use rv64i_simulator.Base.{ℕ, none, List, [], ◌∷◌, ◌++◌, bit_or, ◌<<<◌}
use rv64i_simulator.Registry.{
  ExecFunc, Entry, Table, entry_r, entry_i, entry_s, entry_b, entry_u, entry_opcode, register_all,
}

unfoldable pub register_rv64i : List Entry
register_rv64i =
    entry_r 0x33 0 0 ExecFunc.add
    ∷ entry_r 0x33 0 32 ExecFunc.sub
    ∷ entry_i 0x13 0 ExecFunc.addi
    ∷ entry_i 0x3 2 ExecFunc.lw
    ∷ entry_s 0x23 2 ExecFunc.sw
    ∷ entry_b 0x63 0 ExecFunc.beq
    ∷ entry_opcode 0x6f ExecFunc.jal
    ∷ entry_i 0xf 0 ExecFunc.fence
    ∷ entry_r 0x73 0 9 ExecFunc.sfence_vma
    ∷ entry_i 0xf 1 ExecFunc.fence_i
    ∷ []

unfoldable pub register_loads : List Entry
register_loads =
    entry_i 0x3 0 ExecFunc.lb
    ∷ entry_i 0x3 1 ExecFunc.lh
    ∷ entry_i 0x3 3 ExecFunc.ld
    ∷ entry_i 0x3 4 ExecFunc.lbu
    ∷ entry_i 0x3 5 ExecFunc.lhu
    ∷ entry_i 0x3 6 ExecFunc.lwu
    ∷ entry_u 0x37 ExecFunc.lui
    ∷ []

unfoldable pub register_stores : List Entry
register_stores =
    entry_s 0x23 0 ExecFunc.sb ∷ entry_s 0x23 1 ExecFunc.sh ∷ entry_s 0x23 3 ExecFunc.sd ∷ []

unfoldable pub register_branch_jump : List Entry
register_branch_jump =
    entry_b 0x63 1 ExecFunc.bne
    ∷ entry_b 0x63 4 ExecFunc.blt
    ∷ entry_b 0x63 5 ExecFunc.bge
    ∷ entry_b 0x63 6 ExecFunc.bltu
    ∷ entry_b 0x63 7 ExecFunc.bgeu
    ∷ entry_i 0x67 0 ExecFunc.jalr
    ∷ []

unfoldable pub register_rv64i_arithmetic : List Entry
register_rv64i_arithmetic =
    entry_r 0x33 7 0 ExecFunc.and
    ∷ entry_r 0x33 6 0 ExecFunc.or
    ∷ entry_r 0x33 4 0 ExecFunc.xor
    ∷ entry_r 0x33 1 0 ExecFunc.sll
    ∷ entry_r 0x33 5 0 ExecFunc.srl
    ∷ entry_r 0x33 5 32 ExecFunc.sra
    ∷ entry_r 0x33 2 0 ExecFunc.slt
    ∷ entry_r 0x33 3 0 ExecFunc.sltu
    ∷ entry_r 0x13 1 0 ExecFunc.slli
    ∷ entry_r 0x13 5 0 ExecFunc.srli
    ∷ entry_r 0x13 5 32 ExecFunc.srai
    ∷ entry_r 0x3b 0 0 ExecFunc.addw
    ∷ entry_r 0x3b 0 32 ExecFunc.subw
    ∷ entry_r 0x3b 1 0 ExecFunc.sllw
    ∷ entry_r 0x3b 5 0 ExecFunc.srlw
    ∷ entry_r 0x3b 5 32 ExecFunc.sraw
    ∷ entry_i 0x13 7 ExecFunc.andi
    ∷ entry_i 0x13 6 ExecFunc.ori
    ∷ entry_i 0x13 4 ExecFunc.xori
    ∷ entry_i 0x1b 0 ExecFunc.addiw
    ∷ entry_i 0x13 2 ExecFunc.slti
    ∷ entry_i 0x13 3 ExecFunc.sltiu
    ∷ entry_u 0x17 ExecFunc.auipc
    ∷ entry_r 0x1b 1 0 ExecFunc.slliw
    ∷ entry_r 0x1b 5 0 ExecFunc.srliw
    ∷ entry_r 0x1b 5 32 ExecFunc.sraiw
    ∷ []

unfoldable pub register_csr : List Entry
register_csr =
    entry_i 0x73 0 ExecFunc.system_dispatch
    ∷ entry_i 0x73 1 ExecFunc.csrrw
    ∷ entry_i 0x73 2 ExecFunc.csrrs
    ∷ entry_i 0x73 3 ExecFunc.csrrc
    ∷ entry_i 0x73 5 ExecFunc.csrrwi
    ∷ entry_i 0x73 6 ExecFunc.csrrsi
    ∷ entry_i 0x73 7 ExecFunc.csrrci
    ∷ []

unfoldable pub register_float : List Entry
register_float =
    entry_s 0x27 3 ExecFunc.fsd
    ∷ entry_i 0x7 3 ExecFunc.fld
    ∷ entry_r 0x53 0 120 ExecFunc.fmv_w_x
    ∷ entry_r 0x53 0 112 ExecFunc.fmv_x_w
    ∷ entry_r 0x53 0 121 ExecFunc.fmv_d_x
    ∷ entry_r 0x53 0 113 ExecFunc.fmv_x_d
    ∷ []

unfoldable pub register_mul : List Entry
register_mul =
    entry_r 0x33 0 1 ExecFunc.mul
    ∷ entry_r 0x33 1 1 ExecFunc.mulh
    ∷ entry_r 0x33 2 1 ExecFunc.mulhsu
    ∷ entry_r 0x33 3 1 ExecFunc.mulhu
    ∷ entry_r 0x33 4 1 ExecFunc.div
    ∷ entry_r 0x33 5 1 ExecFunc.divu
    ∷ entry_r 0x33 6 1 ExecFunc.rem
    ∷ entry_r 0x33 7 1 ExecFunc.remu
    ∷ entry_r 0x3b 0 1 ExecFunc.mulw
    ∷ entry_r 0x3b 4 1 ExecFunc.divw
    ∷ entry_r 0x3b 5 1 ExecFunc.divuw
    ∷ entry_r 0x3b 6 1 ExecFunc.remw
    ∷ entry_r 0x3b 7 1 ExecFunc.remuw
    ∷ []

-- The loop of `register_amo` over the `aq` and `rl` bits.
unfoldable pub amo_entries : ℕ → ℕ → ExecFunc → List Entry
amo_entries funct5 funct3 func =
    entry_r 0x2f funct3 (bit_or (funct5 <<< 2) 0) func
    ∷ entry_r 0x2f funct3 (bit_or (funct5 <<< 2) 1) func
    ∷ entry_r 0x2f funct3 (bit_or (funct5 <<< 2) 2) func
    ∷ entry_r 0x2f funct3 (bit_or (funct5 <<< 2) 3) func
    ∷ []

unfoldable pub register_atomics : List Entry
register_atomics =
    amo_entries 2 2 ExecFunc.lr_w
    ++ (amo_entries 3 2 ExecFunc.sc_w
        ++ (amo_entries 2 3 ExecFunc.lr_d
            ++ (amo_entries 3 3 ExecFunc.sc_d
                ++ (amo_entries 1 2 ExecFunc.amoswap_w
                    ++ (amo_entries 1 3 ExecFunc.amoswap_d
                        ++ (amo_entries 0 2 ExecFunc.amoadd_w
                            ++ (amo_entries 0 3 ExecFunc.amoadd_d
                                ++ (amo_entries 4 2 ExecFunc.amoxor_w
                                    ++ (amo_entries 4 3 ExecFunc.amoxor_d
                                        ++ (amo_entries 12 2 ExecFunc.amoand_w
                                            ++ (amo_entries 12 3 ExecFunc.amoand_d
                                                ++ (amo_entries 8 2 ExecFunc.amoor_w
                                                    ++ (amo_entries 8 3 ExecFunc.amoor_d
                                                        ++ (amo_entries 16 2 ExecFunc.amomin_w
                                                            ++ (amo_entries 16 3 ExecFunc.amomin_d
                                                            ++ (amo_entries 20 2 ExecFunc.amomax_w
                                                            ++ (amo_entries 20 3 ExecFunc.amomax_d
                                                            ++ (amo_entries 24 2 ExecFunc.amominu_w
                                                            ++ (amo_entries 24 3 ExecFunc.amominu_d
                                                            ++ (amo_entries 28 2 ExecFunc.amomaxu_w
                                                            ++ (amo_entries 28 3
                                                            ExecFunc.amomaxu_d)))))))))))))))))))))

-- `init_default_instructions`: all registrations.
unfoldable pub default_entries : List Entry
default_entries =
    register_rv64i
    ++ (register_loads
        ++ (register_stores
            ++ (register_branch_jump
                ++ (register_rv64i_arithmetic
                    ++ (register_csr
                        ++ (register_float ++ (register_mul ++ (register_atomics))))))))

-- `init`: from an empty table.
unfoldable pub init_table : Table
init_table = register_all default_entries (λ index. none)
