-- ===== src/Tree/Calls.antt =====
-- The order of DTBBuilder.h's calls: libfdt's sequential-write functions want the reserve map first, a
-- node's properties before its subnodes, every node closed, and one root.
use rv64i_simulator.Base.{
  ℕ, arith, zero, suc, ◌^◌, ◌<◌, ◌≡◌, refl, Bool, true, false, Option, none, some, List, [], ◌∷◌,
  ◌++◌,
}
use rv64i_simulator.Output.{codes}
use rv64i_simulator.Tree.{
  FdtCall, ◌>>=◌, root_calls, cpu_calls, memory_calls, uart_calls, clint_calls, soc_calls,
  build_calls,
}
use rv64i_simulator.Tree.Names.{make_node_name-number}

-- How far the tree is. `rootless`: the root is to come. `inside n p`: `n` nodes are open besides the root,
-- and the innermost takes properties if `p` holds. `rooted`: the root is closed.
pub data Phase : Type 0 where
  blank created rootless rooted finished : Phase
  inside : ℕ → Bool → Phase

-- `none`: a call that libfdt does not allow there.
unfoldable pub advance : Phase → FdtCall → Option Phase
advance Phase.blank (FdtCall.create size) = some Phase.created
advance Phase.created FdtCall.finish_reservemap = some Phase.rootless
advance Phase.rootless (FdtCall.begin_node name) = some (Phase.inside 0 true)
advance (Phase.inside n p) (FdtCall.begin_node name) = some (Phase.inside (suc n) true)
advance (Phase.inside zero p) FdtCall.end_node = some Phase.rooted
advance (Phase.inside (suc n) p) FdtCall.end_node = some (Phase.inside n false)
advance (Phase.inside n true) (FdtCall.property_cell name v) = some (Phase.inside n true)
advance (Phase.inside n true) (FdtCall.property_string name v) = some (Phase.inside n true)
advance (Phase.inside n true) (FdtCall.property name v) = some (Phase.inside n true)
advance Phase.rooted FdtCall.finish = some Phase.finished
advance Phase.finished FdtCall.pack = some Phase.finished
advance phase call = none

unfoldable pub follow : Phase → List FdtCall → Option Phase
follow phase [] = some phase
follow phase (call ∷ calls) = advance phase call >>= λ next. follow next calls

-- The calls of a tree with these names.
abbrev tree_calls : ℕ → ℕ → ℕ → ℕ → ℕ → List ℕ → List ℕ → List ℕ → List ℕ → List ℕ → List FdtCall
tree_calls size base ram uart clint path memory uart_name clint_name isa =
    root_calls size path
    ++ (cpu_calls isa
        ++ (memory_calls memory base ram
            ++ (soc_calls (uart_calls uart_name uart) (clint_calls clint_name clint)
                ++ (FdtCall.end_node ∷ FdtCall.finish ∷ FdtCall.pack ∷ []))))

-- Any names, and the same calls.
follow-tree :
    (size base ram uart clint : ℕ) (path memory uart_name clint_name isa : List ℕ)
    → follow Phase.blank (tree_calls size base ram uart clint path memory uart_name clint_name isa)
      ≡ some Phase.finished
unfolding follow advance root_calls cpu_calls memory_calls soc_calls uart_calls clint_calls
follow-tree size base ram uart clint path memory uart_name clint_name isa = refl

-- For 64-bit base addresses, build makes its names without leaving their buffers, the digits' and
-- the callers', and calls libfdt's sequential-write functions in an order they allow: the reserve
-- map first, exactly one root, each node's properties before its subnodes, every node closed,
-- then finish and pack.
pub build_calls-follow :
    (buf_size ram_base ram_size uart_base clint_base : ℕ) (isa : List ℕ)
    → ram_base < 2 ^ 64
    → uart_base < 2 ^ 64
    → clint_base < 2 ^ 64
    → (calls : List FdtCall) × (build_calls buf_size ram_base ram_size uart_base clint_base isa
        ≡ some calls)
      × (follow Phase.blank calls ≡ some Phase.finished)
unfolding build_calls
build_calls-follow buf_size ram_base ram_size uart_base clint_base isa p q r =
    let path = make_node_name-number 64 (codes "/soc/uart") uart_base q (omega arith) in
    let memory = make_node_name-number 32 (codes "memory") ram_base p (omega arith) in
    let uart = make_node_name-number 32 (codes "uart") uart_base q (omega arith) in
    let clint = make_node_name-number 32 (codes "clint") clint_base r (omega arith) in
    let named = λ (prefix digits : List ℕ). prefix ++ (64 ∷ digits) in
    (
      tree_calls buf_size ram_base ram_size uart_base clint_base (named (codes "/soc/uart") path.0)
          (named (codes "memory") memory.0) (named (codes "uart") uart.0)
          (named (codes "clint") clint.0) isa,
      rw (path.1, memory.1, uart.1, clint.1) refl,
      follow-tree buf_size ram_base ram_size uart_base clint_base _ _ _ _ isa,
    )
