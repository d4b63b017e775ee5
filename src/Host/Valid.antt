-- ===== src/Host/Valid.antt =====
-- The loader and the host's system calls keep the machine's invariant, for files and lines that are bytes.
use rv64i_simulator.Base.{
  ℕ, zero, suc, ◌+◌, ◌^◌, ◌<◌, ◌≡◌, refl, subst, Bool, true, false, Option, none, some, List, [],
  ◌∷◌, ◌++◌, ◌==◌, u64, arith,
}
use rv64i_simulator.Machine.{Machine, text, char}
use rv64i_simulator.Invariant.{IsValid, Layout, set_printed}
use rv64i_simulator.Invariant.Bus.{read_byte-Gives, write_byte-IsValid}
use rv64i_simulator.Invariant.Registers.{choose, write_reg-IsValid}
use rv64i_simulator.Invariant.Control.{KeepsValid}
use rv64i_simulator.Host.Loader.{print_codes, inject, load, folder_of, load_beside}
use rv64i_simulator.Host.HostCalls.{
  write_chars, read_chars, sys_write, sys_read, sys_brk, sys_exit, handle_ecall, handle_ebreak,
  host_environment,
}

abbrev pub AllBytes : List ℕ → Type 0
AllBytes [] = Unit
AllBytes (c ∷ cs) = (c < 2 ^ 8) × AllBytes cs

abbrev pub HeldBytes : Option (List ℕ) → Type 0
HeldBytes none = Unit
HeldBytes (some bytes) = AllBytes bytes

-- What the files hold are bytes.
abbrev pub FilesFit : (List ℕ → Option (List ℕ)) → Type 0
FilesFit files = (name : List ℕ) → HeldBytes (files name)

module _ {l : Layout} where
  pub print_codes-IsValid : (cs : List ℕ) {m : Machine} → IsValid l m → IsValid l (print_codes cs m)
  unfolding print_codes
  print_codes-IsValid [] h = h
  print_codes-IsValid (c ∷ cs) h = print_codes-IsValid cs (set_printed h (char c))

  inject-IsValid :
      (bytes : List ℕ) (start offset : ℕ) {m : Machine}
      → AllBytes bytes
      → IsValid l m
      → IsValid l (inject bytes start offset m).1
  unfolding inject
  inject-IsValid [] start offset p h = h
  inject-IsValid (b ∷ bytes) start offset p h =
      inject-IsValid bytes start (u64 (offset + 1)) p.1
        (write_byte-IsValid h (u64 (start + offset)) b (omega arith) p.0)

  pub load-IsValid :
      (files : List ℕ → Option (List ℕ)) (start : ℕ) (filename : List ℕ) {m : Machine}
      → FilesFit files
      → IsValid l m
      → IsValid l (load files start filename m).1
  unfolding load
  load-IsValid files start filename {m} p h = opened (files filename) refl
    where
      opened :
          (o : Option (List ℕ)) → files filename ≡ o → IsValid l (load files start filename m).1
      opened none e =
          rw (load, e)
            (set_printed
              (print_codes-IsValid filename (set_printed h (text "Loader Error: Could not open ")))
              (text "\n"))
      opened (some bytes) e =
          rw (load, e) (inject-IsValid bytes start 0 (subst HeldBytes e (p filename)) h)

  pub load_beside-IsValid :
      (files : List ℕ → Option (List ℕ)) (program : List ℕ) (start : ℕ) (filename : List ℕ)
      (static_path : Bool) {m : Machine}
      → FilesFit files
      → IsValid l m
      → IsValid l (load_beside files program start filename static_path m).1
  unfolding load_beside
  load_beside-IsValid files program start filename true p h =
      load-IsValid files start (folder_of program ++ filename) p h
  load_beside-IsValid files program start filename false p h = load-IsValid files start filename p h

  write_chars-IsValid :
      (n address : ℕ) {m : Machine}
      → address < 2 ^ 64
      → IsValid l m
      → IsValid l (write_chars n address m)
  unfolding write_chars
  write_chars-IsValid zero address p h = h
  write_chars-IsValid (suc n) address p h =
      let r = read_byte-Gives h address p in
      write_chars-IsValid n (u64 (address + 1)) (omega arith) (set_printed r.machine (char _))

  read_chars-IsValid :
      (n : ℕ) (input : List ℕ) (address : ℕ) {m : Machine}
      → AllBytes input
      → address < 2 ^ 64
      → IsValid l m
      → IsValid l (read_chars n input address m)
  unfolding read_chars
  read_chars-IsValid zero input address b p h = h
  read_chars-IsValid (suc n) [] address b p h = h
  read_chars-IsValid (suc n) (c ∷ input) address b p h =
      read_chars-IsValid n input (u64 (address + 1)) b.1 (omega arith)
        (write_byte-IsValid h address c p b.0)

  module _ (get_line : Machine → List ℕ) (lines : (m : Machine) → AllBytes (get_line m))
      {m : Machine} (h : IsValid l m) where
    sys_write-IsValid : IsValid l (sys_write m)
    unfolding sys_write
    sys_write-IsValid =
        write_reg-IsValid (write_chars-IsValid (m.registers 12) (m.registers 11) (h.registers 11) h)
          10 _ (h.registers 12)

    sys_read-IsValid : IsValid l (sys_read (get_line m) m)
    unfolding sys_read
    sys_read-IsValid =
        write_reg-IsValid
          (read_chars-IsValid _ (get_line m) (m.registers 11) (lines m) (h.registers 11) h) 10 _
          (omega arith)

    sys_brk-IsValid : IsValid l (sys_brk m)
    unfolding sys_brk
    sys_brk-IsValid =
        let b = h.registers 10 in write_reg-IsValid h 10 _ (ground (arith, h.registers 10))

    sys_exit-IsValid : IsValid l (sys_exit m)
    unfolding sys_exit
    sys_exit-IsValid = set_printed (set_printed (set_printed (set_printed h _) _) _) _

    handle_ecall-IsValid : IsValid l (handle_ecall get_line m)
    unfolding handle_ecall
    handle_ecall-IsValid =
        let n = m.registers 17 in
        choose (n == 64) sys_write-IsValid (
          choose (n == 63) sys_read-IsValid (
            choose (n == 214) sys_brk-IsValid (
              choose (n == 93) sys_exit-IsValid (set_printed (set_printed (set_printed h _) _) _))))

    handle_ebreak-IsValid : (debug : Bool) → IsValid l (handle_ebreak debug m)
    unfolding handle_ebreak
    handle_ebreak-IsValid debug = choose debug (set_printed (set_printed (set_printed h _) _) _) h

  pub host_environment-KeepsValid :
      (get_line : Machine → List ℕ) (debug : Bool)
      → ((m : Machine) → AllBytes (get_line m))
      → KeepsValid l (host_environment get_line debug)
  host_environment-KeepsValid get_line debug lines = record {
    ecall = λ m h. handle_ecall-IsValid get_line lines h;
    ebreak = λ m h. handle_ebreak-IsValid get_line lines h debug;
  }
