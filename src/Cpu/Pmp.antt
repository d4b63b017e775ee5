-- ===== src/Cpu/Pmp.antt =====
-- `Processor::checkPMP`: the 64 physical memory protection entries, the first match decides.
pub mod Napot
pub mod First
use rv64i_simulator.Base.{
  ℕ, zero, suc, ◌+◌, ◌-◌, ◌*◌, ◌/◌, ◌%◌, Bool, false, ◌&&◌, ◌||◌, not, leb, ltb, ◌==◌,
  if◌then◌else◌, bit_and, ◌<<<◌, ◌>>>◌, u64, ones64, any_set,
}
use rv64i_simulator.Machine.{AccessType, load, store, fetch, Csrs, Machine, machine_mode}

-- `while (a & 1) { a >>= 1; mask <<= 1; }`, with fuel. A `uint64_t` has at most 64 trailing ones.
unfoldable pub trailing_mask : ℕ → ℕ → ℕ → ℕ
trailing_mask zero a mask = mask
trailing_mask (suc fuel) a mask =
    let rest = trailing_mask fuel (a >>> 1) (u64 (mask <<< 1)) in if any_set a 1 then rest else mask

unfoldable pub napot_match : ℕ → ℕ → Bool
napot_match pmpaddr addr =
    let mask = u64 (trailing_mask 64 pmpaddr ones64 <<< 1) in
    bit_and (addr >>> 2) mask == bit_and pmpaddr mask

unfoldable pub entry_cfg : Csrs → ℕ → ℕ
entry_cfg c i = bit_and (c.pmpcfg (i / 8) >>> (i % 8 * 8)) 0xff

-- Whether entry `i`, in address-matching mode `mode`, covers the address.
unfoldable pub entry_match : Csrs → ℕ → ℕ → ℕ → Bool
entry_match c i mode addr =
    if mode == 1
    then (let start = if i == 0 then 0 else u64 (c.pmpaddr (i - 1) <<< 2) in
        let end = u64 (c.pmpaddr i <<< 2) in leb start addr && ltb addr end)
    else if mode == 2
    then (let start = u64 (c.pmpaddr i <<< 2) in
        let end = u64 (start + 4) in leb start addr && ltb addr end)
    else if mode == 3
    then napot_match (c.pmpaddr i) addr
    else false

-- What a matching entry decides.
unfoldable pub entry_grants : ℕ → ℕ → AccessType → Bool
entry_grants cfg mode load = (mode == machine_mode && not (any_set cfg 0x80)) || any_set cfg 0x1
entry_grants cfg mode store = (mode == machine_mode && not (any_set cfg 0x80)) || any_set cfg 0x2
entry_grants cfg mode fetch = (mode == machine_mode && not (any_set cfg 0x80)) || any_set cfg 0x4

-- The loop from entry `i`, with `left` entries to go.
unfoldable pub check_entries : ℕ → ℕ → Machine → ℕ → AccessType → Bool
check_entries zero i m addr type = m.mode == machine_mode
check_entries (suc left) i m addr type =
    let rest = check_entries left (i + 1) m addr type in
    let cfg = entry_cfg m.csrs i in
    let mode = bit_and (cfg >>> 3) 0x3 in
    if mode == 0
    then rest
    else if entry_match m.csrs i mode addr
    then entry_grants cfg m.mode type
    else rest

unfoldable pub check_pmp : ℕ → AccessType → Machine → Bool
check_pmp addr type m = check_entries 64 0 m addr type
