-- ===== src/Tree.antt =====
-- include/core/DTBBuilder.h: the text pieces of the device tree, and the calls of libfdt that build it.
-- libfdt itself is a parameter: it takes the calls, in order, and gives the buffer's bytes and the total
-- size. A character buffer is the list of its characters before the null.
pub mod Names
pub mod Calls
use Prim.Native.String.{String}
use rv64i_simulator.Base.{
  ℕ, zero, suc, ◌+◌, ◌-◌, ◌*◌, ◌/◌, ◌%◌, ◌^◌, Bool, true, false, ◌&&◌, Option, none, some, List, [],
  ◌∷◌, ◌++◌, ltb, ◌==◌, if◌then◌else◌, bit_and, ◌<<<◌, ◌>>>◌, any_set,
}
use rv64i_simulator.Base.Int.{ℤ}
use rv64i_simulator.Output.{codes, push_digits}
use rv64i_simulator.Output.Digits.{length}

-- `"0123456789abcdef"[d]`.
unfoldable pub lower_hex : ℕ → ℕ
lower_hex d = if ltb d 10 then 48 + d else 87 + d

-- The text, if it and its null fit an array of `room` characters.
unfoldable pub fitting : ℕ → List ℕ → Option (List ℕ)
fitting room text = if ltb (length text) room then some text else none

-- `room` is the size of the caller's `out`. `none`: the digits leave the 16 places of `temp`, or the name
-- leaves `out`.
unfoldable pub make_node_name : ℕ → List ℕ → ℕ → Option (List ℕ)
make_node_name room prefix addr =
    if addr == 0
    then fitting room (prefix ++ (64 ∷ 48 ∷ []))
    else elim (push_digits lower_hex 16 16 addr []) [
      | some digits ↦ fitting room (prefix ++ (64 ∷ digits))
      | none ↦ none
    ]

-- `if ((misa & bit) && i < max_len - 1) out_buf[i++] = letter;`
unfoldable pub append_letter : ℕ → ℕ → ℕ → ℕ → List ℕ → List ℕ
append_letter misa max_len bit letter out =
    if any_set misa (1 <<< bit) && ltb (length out) (max_len - 1) then out ++ (letter ∷ []) else out

-- `none`: the buffer is too small and is not written.
unfoldable pub generate_isa_string : ℕ → ℕ → Option (List ℕ)
generate_isa_string misa max_len =
    if ltb max_len 6
    then none
    else (let base = if any_set misa (2 <<< 62) then codes "rv64" else codes "rv32" in
        let i = append_letter misa max_len 8 105 base in
        let m = append_letter misa max_len 12 109 i in
        let a = append_letter misa max_len 0 97 m in
        let f = append_letter misa max_len 5 102 a in
        let d = append_letter misa max_len 3 100 f in some (append_letter misa max_len 2 99 d))

-- A call of libfdt on the buffer; `property` has the words of its value before `cpu_to_fdt32`.
pub data FdtCall : Type 0 where
  create : ℕ → FdtCall
  finish_reservemap : FdtCall
  begin_node : List ℕ → FdtCall
  end_node : FdtCall
  property_cell : String → ℕ → FdtCall
  property_string : String → List ℕ → FdtCall
  property : String → List ℕ → FdtCall
  finish : FdtCall
  pack : FdtCall

abbrev pub phandle_intc : ℕ
phandle_intc = 1

-- The two halves of a 64-bit number.
abbrev pub halves : ℕ → List ℕ → List ℕ
halves x rest = (x >>> 32) ∷ bit_and x 0xffff_ffff ∷ rest

unfoldable pub root_calls : ℕ → List ℕ → List FdtCall
root_calls buf_size stdout_path =
    FdtCall.create buf_size
    ∷ FdtCall.finish_reservemap
    ∷ FdtCall.begin_node []
    ∷ FdtCall.property_cell "#address-cells" 2
    ∷ FdtCall.property_cell "#size-cells" 2
    ∷ FdtCall.property_string "compatible" (codes "nathans-simulator,riscv-virt")
    ∷ FdtCall.property_string "model" (codes "Nathan's RISC-V Simulator")
    ∷ FdtCall.begin_node (codes "chosen")
    ∷ FdtCall.property_string "stdout-path" stdout_path
    ∷ FdtCall.end_node
    ∷ []

unfoldable pub cpu_calls : List ℕ → List FdtCall
cpu_calls isa_string =
    FdtCall.begin_node (codes "cpus")
    ∷ FdtCall.property_cell "#address-cells" 1
    ∷ FdtCall.property_cell "#size-cells" 0
    ∷ FdtCall.property_cell "timebase-frequency" 10000000
    ∷ FdtCall.begin_node (codes "cpu@0")
    ∷ FdtCall.property_cell "interrupt-controller" phandle_intc
    ∷ FdtCall.property_string "device_type" (codes "cpu")
    ∷ FdtCall.property_cell "reg" 0
    ∷ FdtCall.property_string "status" (codes "okay")
    ∷ FdtCall.property_string "compatible" (codes "riscv")
    ∷ FdtCall.property_string "riscv,isa" isa_string
    ∷ FdtCall.property_string "mmu-type" (codes "riscv,sv39")
    ∷ FdtCall.property_cell "riscv,pmp" 16
    ∷ FdtCall.property_cell "riscv,pmp-granularity" 4
    ∷ FdtCall.begin_node (codes "interrupt-controller")
    ∷ FdtCall.property_cell "#interrupt-cells" 1
    ∷ FdtCall.property "interrupt-controller" []
    ∷ FdtCall.property_string "compatible" (codes "riscv,cpu-intc")
    ∷ FdtCall.property_cell "phandle" phandle_intc
    ∷ FdtCall.property_cell "linux,phandle" phandle_intc
    ∷ FdtCall.end_node
    ∷ FdtCall.end_node
    ∷ FdtCall.end_node
    ∷ []

unfoldable pub memory_calls : List ℕ → ℕ → ℕ → List FdtCall
memory_calls mem_name ram_base ram_size =
    FdtCall.begin_node mem_name
    ∷ FdtCall.property_string "device_type" (codes "memory")
    ∷ FdtCall.property "reg" (halves ram_base (halves ram_size []))
    ∷ FdtCall.end_node
    ∷ []

unfoldable pub uart_calls : List ℕ → ℕ → List FdtCall
uart_calls uart_name uart_base =
    FdtCall.begin_node uart_name
    ∷ FdtCall.property_string "compatible" (codes "ns16550a")
    ∷ FdtCall.property "reg" (halves uart_base (0 ∷ 0x100 ∷ []))
    ∷ FdtCall.property_cell "clock-frequency" 3686400
    ∷ FdtCall.property_cell "reg-shift" 0
    ∷ FdtCall.property_cell "reg-io-width" 1
    ∷ FdtCall.end_node
    ∷ []

unfoldable pub clint_calls : List ℕ → ℕ → List FdtCall
clint_calls clint_name clint_base =
    FdtCall.begin_node clint_name
    ∷ FdtCall.property_string "compatible" (codes "riscv,clint0")
    ∷ FdtCall.property "reg" (halves clint_base (0 ∷ 0x10000 ∷ []))
    ∷ FdtCall.property "interrupts-extended" (phandle_intc ∷ 3 ∷ phandle_intc ∷ 7 ∷ [])
    ∷ FdtCall.end_node
    ∷ []

unfoldable pub soc_calls : List FdtCall → List FdtCall → List FdtCall
soc_calls uart clint =
    FdtCall.begin_node (codes "soc")
    ∷ FdtCall.property_cell "#address-cells" 2
    ∷ FdtCall.property_cell "#size-cells" 2
    ∷ FdtCall.property_string "compatible" (codes "simple-bus")
    ∷ FdtCall.property "ranges" []
    ∷ (uart ++ (clint ++ (FdtCall.end_node ∷ [])))

infixl 10 ◌>>=◌
abbrev pub ◌>>=◌ : {A B : Type 0} → Option A → (A → Option B) → Option B
none >>= f = none
some a >>= f = f a

-- The calls of `build` in order; `none` if a node's name is too long.
unfoldable pub build_calls : ℕ → ℕ → ℕ → ℕ → ℕ → List ℕ → Option (List FdtCall)
build_calls buf_size ram_base ram_size uart_base clint_base isa_string = do
  stdout_path ← make_node_name 64 (codes "/soc/uart") uart_base
  mem_name ← make_node_name 32 (codes "memory") ram_base
  uart_name ← make_node_name 32 (codes "uart") uart_base
  clint_name ← make_node_name 32 (codes "clint") clint_base
  some (
      root_calls buf_size stdout_path
      ++ (cpu_calls isa_string
          ++ (memory_calls mem_name ram_base ram_size
              ++ (soc_calls (uart_calls uart_name uart_base) (clint_calls clint_name clint_base)
                  ++ (FdtCall.end_node ∷ FdtCall.finish ∷ FdtCall.pack ∷ [])))))

-- What libfdt makes of the calls: the bytes of the buffer and `fdt_totalsize`, an `int`.
abbrev pub Libfdt : Type 0
Libfdt = List FdtCall → (ℕ → ℕ) × ℤ

-- `build`: what it leaves in the buffer, and its result.
unfoldable pub build : Libfdt → ℕ → ℕ → ℕ → ℕ → ℕ → List ℕ → Option ((ℕ → ℕ) × ℤ)
build fdt buf_size ram_base ram_size uart_base clint_base isa_string = do
  calls ← build_calls buf_size ram_base ram_size uart_base clint_base isa_string
  some (fdt calls)
