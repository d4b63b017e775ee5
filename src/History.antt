-- ===== src/History.antt =====
-- Core/Debug.cpp and include/core/Debug.h: the debug log and the ring buffer of its last characters.
-- A text is the list of its character codes. `has_io` says that the global `io` is not null; what the
-- device was sent is the list `sent`, in order.
pub mod Queue
use rv64i_simulator.Base.{
  ℕ, zero, suc, ◌+◌, ◌-◌, Bool, true, false, ◌&&◌, ◌||◌, not, Option, none, some, List, [], ◌∷◌,
  ◌++◌, leb, if◌then◌else◌, update,
}
use rv64i_simulator.Machine.{Machine}
use rv64i_simulator.Output.{codes, write_int, int64_to_hex}

-- `DEBUG_HISTORY_SIZE`.
abbrev pub history_size : ℕ
history_size = 8192

pub record Debug : Type 0 where
  pub debug : Bool
  pub tr : Bool
  pub history : ℕ → ℕ
  pub head : ℕ
  pub wrapped : Bool
  pub has_io : Bool
  pub sent : List ℕ

-- The static members' initialisers.
abbrev pub initial : Bool → Debug
initial has_io = record {
  debug = false;
  tr = false;
  history = λ i. 0;
  head = 0;
  wrapped = false;
  has_io = has_io;
  sent = [];
}

abbrev pub send : List ℕ → Debug → Debug
send s d = record d { sent = d.sent ++ s }

unfoldable pub record_char : ℕ → Debug → Debug
record_char c d =
    if not d.tr
    then d
    else (let d1 = record d { history = update d.history d.head c; head = d.head + 1 } in
        if leb history_size d1.head then record d1 { head = 0; wrapped = true } else d1)

-- The loop of `recordString`.
unfoldable pub record_chars : List ℕ → Debug → Debug
record_chars [] d = d
record_chars (c ∷ s) d = record_chars s (record_char c d)

unfoldable pub record_string : List ℕ → Debug → Debug
record_string s d = if not d.tr then d else record_chars s d

unfoldable pub write_string : List ℕ → Debug → Debug
write_string s d =
    if not d.tr
    then d
    else (let d1 = record_string s d in if d1.debug && d1.has_io then send s d1 else d1)

unfoldable pub write_number : ℕ → Debug → Debug
write_number val d =
    let d1 = record_string (int64_to_hex val) d in
    if d1.debug && d1.has_io
    then elim (write_int val) [ some digits ↦ send digits d1 | none ↦ d1 ]
    else d1

unfoldable pub write_hex : ℕ → Debug → Debug
write_hex val d =
    let d1 = record_string (int64_to_hex val) d in
    if d1.debug && d1.has_io then send (int64_to_hex val) d1 else d1

-- `begin`: the caller between `[` and `] `.
unfoldable pub begin : List ℕ → Debug → Debug
begin caller d =
    let d1 = record_string (93 ∷ 32 ∷ []) (record_string caller (record_char 91 d)) in
    if d1.debug && d1.has_io then send (91 ∷ (caller ++ (93 ∷ 32 ∷ []))) d1 else d1

-- `end` uses `io` without a test; `none` is the use of a null pointer.
unfoldable pub end : Debug → Option Debug
end d =
    let d1 = record_char 10 d in
    if d1.debug then (if d1.has_io then some (send (10 ∷ []) d1) else none) else some d1

unfoldable pub log : List ℕ → List ℕ → Debug → Option Debug
log caller message d = end (write_string message (begin caller d))

-- The characters of the buffer from `i` on, `n` of them.
unfoldable pub slice : (ℕ → ℕ) → ℕ → ℕ → List ℕ
slice history i zero = []
slice history i (suc n) = history i ∷ slice history (i + 1) n

-- The two loops of `dump`.
unfoldable pub recorded : Debug → List ℕ
recorded d =
    let newest = slice d.history 0 d.head in
    if d.wrapped then slice d.history d.head (history_size - d.head) ++ newest else newest

unfoldable pub dump : Debug → Debug
dump d =
    if not d.has_io || not d.tr
    then d
    else send (codes "\n...\n") (send (recorded d) (send (codes "\n Trace Dump: \n") d))

abbrev pub enabled : Debug → Bool
enabled d = d.debug

unfoldable pub enable : Debug → Debug
enable d = record d { debug = true }

unfoldable pub disable : Debug → Debug
disable d = record d { debug = false }

unfoldable pub enable_trace : Debug → Debug
enable_trace d = record d { tr = true }

-- The body of the loop of `printDebugRegisters`.
unfoldable pub print_register : Machine → ℕ → Debug → Debug
print_register cpu i d = write_string (codes "\n") (
    write_hex (cpu.registers i)
      (write_string (codes ": ") (write_number i (write_string (codes "x") d))))

-- The loop, from register `i` on.
unfoldable pub print_from : Machine → ℕ → ℕ → Debug → Debug
print_from cpu i zero d = d
print_from cpu i (suc n) d = print_from cpu (i + 1) n (print_register cpu i d)

unfoldable pub print_debug_registers : Machine → Debug → Option Debug
print_debug_registers cpu d = end (
    print_from cpu 0 32
      (write_string (codes "--- REGISTER DUMP ---\n") (begin (codes "printDebugRegisters") d)))
