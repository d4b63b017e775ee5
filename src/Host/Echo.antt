-- ===== src/Host/Echo.antt =====
-- The system calls read and write on RAM: what a read puts there, and what a write prints.
use rv64i_simulator.Base.{
  ℕ, zero, suc, ◌+◌, ◌-◌, ◌≤◌, ◌≡◌, refl, ◌∙◌, sym, ap, ap₂, subst, true, List, [], ◌∷◌, leb, ltb,
  ==_refl, if◌then◌else◌, u64, update, arith,
}
use rv64i_simulator.Memory
use rv64i_simulator.Machine.{Machine, char, print, load, write_reg}
use rv64i_simulator.Cpu.Pmp.First.{check_pmp_unlocked}
use rv64i_simulator.Bus.Read.{read_byte}
use rv64i_simulator.Bus.Write.{write_byte}
use rv64i_simulator.Output.Digits.{length}
use rv64i_simulator.Host.Loader.{print_codes}
use rv64i_simulator.Host.HostCalls.{write_chars, read_chars, sys_write, sys_read, handle_ecall}
use rv64i_simulator.Host.Payload.{
  placed, placed-before, HasRoom, with_cells, write_byte-update, rest_of_room,
}

-- The first characters of a list, and the bytes of an array from a place on.
unfoldable pub first_of : ℕ → List ℕ → List ℕ
first_of zero cs = []
first_of (suc n) [] = []
first_of (suc n) (c ∷ cs) = c ∷ first_of n cs

unfoldable pub bytes_from : ℕ → ℕ → (ℕ → ℕ) → List ℕ
bytes_from zero at cells = []
bytes_from (suc n) at cells = cells at ∷ bytes_from n (at + 1) cells

read_byte-cells :
    (m : Machine) (address n : ℕ)
    → HasRoom m address (suc n)
    → read_byte address m ≡ (m.ram.cells (address - m.ram_base), m)
unfolding read_byte Memory.read_byte Memory.get_size
read_byte-cells m address n r =
    let grant = check_pmp_unlocked m address load r.access.mode r.access.unlocked in
    let far = r.no_uart address r.from in
    let a = r.from in
    let i = r.inside in
    let f = r.fits in
    let above : leb m.ram_base address ≡ true = ground arith in
    let below : ltb address (u64 (m.ram_base + m.ram.size)) ≡ true = ground arith in
    let there : ltb (address - m.ram_base) m.ram.size ≡ true = ground arith in
    rw (read_byte, grant, far, above, below, Memory.read_byte, there) refl

print-HasRoom :
    (m : Machine) (address n c : ℕ)
    → HasRoom m address (suc n)
    → HasRoom (print (char c) m) (address + 1) n
print-HasRoom m address n c r = record {
  access = record { mode = r.access.mode; unlocked = r.access.unlocked };
  from = let a = r.from in omega arith;
  inside = let i = r.inside in omega arith;
  fits = r.fits;
  no_uart = r.no_uart;
}

write_chars-print_codes :
    (n address : ℕ) (m : Machine)
    → HasRoom m address n
    → write_chars n address m ≡ print_codes (bytes_from n (address - m.ram_base) m.ram.cells) m
unfolding write_chars bytes_from print_codes
write_chars-print_codes zero address m r = refl
write_chars-print_codes (suc n) address m r =
    let a = r.from in
    let i = r.inside in
    let f = r.fits in
    let next : u64 (address + 1) ≡ address + 1 = omega arith in
    let place : address + 1 - m.ram_base ≡ address - m.ram_base + 1 = omega arith in
    let c = m.ram.cells (address - m.ram_base) in
    ap (λ s. write_chars n (u64 (address + 1)) (print (char s.0) s.1))
      (read_byte-cells m address n r)
    ∙ ap (λ k. write_chars n k (print (char c) m)) next
    ∙ write_chars-print_codes n (address + 1) (print (char c) m) (print-HasRoom m address n c r)
    ∙ ap (λ k. print_codes (bytes_from n k m.ram.cells) (print (char c) m)) place

read_chars-placed :
    (n : ℕ) (input : List ℕ) (address : ℕ) (m : Machine)
    → HasRoom m address n
    → read_chars n input address m
      ≡ with_cells (placed (first_of n input) (address - m.ram_base) m.ram.cells) m
unfolding read_chars first_of placed
read_chars-placed zero input address m r = refl
read_chars-placed (suc n) [] address m r = refl
read_chars-placed (suc n) (c ∷ input) address m r =
    let a = r.from in
    let i = r.inside in
    let f = r.fits in
    let next : u64 (address + 1) ≡ address + 1 = omega arith in
    let place : address + 1 - m.ram_base ≡ address - m.ram_base + 1 = omega arith in
    let cells = update m.ram.cells (address - m.ram_base) c in
    ap (λ k. read_chars n input k (write_byte address c m)) next
    ∙ ap (read_chars n input (address + 1)) (write_byte-update m address n c r)
    ∙ read_chars-placed n input (address + 1) (with_cells cells m)
        (rest_of_room m address n cells r)
    ∙ ap (λ k. with_cells (placed (first_of n input) k cells) m) place

length-first_of : (n : ℕ) (cs : List ℕ) → n ≤ length cs → n ≡ length (first_of n cs)
unfolding first_of
length-first_of zero cs h = refl
length-first_of (suc n) [] h = ground arith
length-first_of (suc n) (c ∷ cs) h = let e = length-first_of n cs (omega arith) in omega arith

-- What was put there is there.
bytes_from-placed :
    (n : ℕ) (cs : List ℕ) (at : ℕ) (cells : ℕ → ℕ)
    → n ≡ length cs
    → bytes_from n at (placed cs at cells) ≡ cs
unfolding bytes_from placed
bytes_from-placed zero [] at cells e = refl
bytes_from-placed zero (c ∷ cs) at cells e = ground arith
bytes_from-placed (suc n) [] at cells e = ground arith
bytes_from-placed (suc n) (c ∷ cs) at cells e =
    let head : placed cs (at + 1) (update cells at c) at ≡ c =
      placed-before cs (at + 1) (update cells at c) at (omega arith) ∙ rw (==_refl at) refl in
    ap₂ (λ x y. x ∷ y) head (bytes_from-placed n cs (at + 1) (update cells at c) (omega arith))

module _ (get_line : Machine → List ℕ) (m : Machine) (is_read : m.registers 17 ≡ 63)
    (room : HasRoom m (m.registers 11) (m.registers 12)) where
  abbrev pub line : List ℕ
  line = get_line m

  -- As many characters as the line has, at most the third argument.
  abbrev pub count : ℕ
  count = if ltb (m.registers 12) (length line) then m.registers 12 else length line

  abbrev pub after_read : Machine
  after_read = handle_ecall get_line m

  -- The machine that next asks for these characters to be written.
  abbrev pub to_write : Machine
  to_write = record after_read { registers = update (update after_read.registers 17 64) 12 count }

  count-le : (count ≤ m.registers 12) × (count ≤ length line)
  count-le = (ground arith, ground arith)

  count-HasRoom : HasRoom m (m.registers 11) count
  count-HasRoom = record {
    access = room.access;
    from = room.from;
    inside = let i = room.inside in let c = count-le in omega arith;
    fits = room.fits;
    no_uart = room.no_uart;
  }

  abbrev filled : ℕ → ℕ
  filled = placed (first_of count line) (m.registers 11 - m.ram_base) m.ram.cells

  after_read-filled :
      after_read ≡ record (with_cells filled m) { registers = update m.registers 10 count }
  unfolding handle_ecall sys_read write_reg
  after_read-filled =
      let c = count-le in
      let i = room.inside in
      let f = room.fits in
      let small : u64 count ≡ count = omega arith in
      rw (is_read, small, read_chars-placed count line (m.registers 11) m count-HasRoom) refl

  to_write-HasRoom : HasRoom to_write (m.registers 11) count
  to_write-HasRoom =
      subst (λ k. HasRoom (record k { registers = to_write.registers }) (m.registers 11) count)
        (sym after_read-filled)
        (record {
          access = record { mode = room.access.mode; unlocked = room.access.unlocked };
          from = count-HasRoom.from;
          inside = count-HasRoom.inside;
          fits = room.fits;
          no_uart = room.no_uart;
        })

  address_kept : to_write.registers 11 ≡ m.registers 11
  address_kept = ap (λ k. k.registers 11) after_read-filled

  cells_kept : to_write.ram.cells ≡ filled
  cells_kept = ap (λ k. k.ram.cells) after_read-filled

  base_kept : to_write.ram_base ≡ m.ram_base
  base_kept = ap (λ k. k.ram_base) after_read-filled

  written :
      write_chars count (to_write.registers 11) to_write
      ≡ print_codes (first_of count line) to_write
  written =
      ap (λ k. write_chars count k to_write) address_kept
      ∙ write_chars-print_codes count (m.registers 11) to_write to_write-HasRoom
      ∙ ap (λ s. print_codes s to_write)
          (ap₂ (λ b c. bytes_from count (m.registers 11 - b) c) base_kept cells_kept
            ∙ bytes_from-placed count (first_of count line) (m.registers 11 - m.ram_base)
                m.ram.cells (length-first_of count line count-le.1))

  -- For a machine in machine mode without a locked PMP entry whose system call 63 names a buffer in
  -- RAM away from the UART, the call returns the smaller of the line's length and its third
  -- argument, and if the program then makes the call 64 with the same address and that count,
  -- exactly the line's first characters, as many as the count, are printed and the count is
  -- returned.
  pub sys_write-sys_read :
      (after_read.registers 10 ≡ count)
      × (handle_ecall get_line to_write
          ≡ write_reg 10 count (print_codes (first_of count line) to_write))
  unfolding handle_ecall sys_write
  sys_write-sys_read = (ap (λ k. k.registers 10) after_read-filled, ap (write_reg 10 count) written)
