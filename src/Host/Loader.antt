-- ===== src/Host/Loader.antt =====
-- Host/InjectionLoader.cpp: a file's bytes written over the bus. Paths and names are lists of character
-- codes. The parameter `files` gives what a file holds, `none` if it cannot be opened, and `program` is
-- the path that Windows gives of the running program. Debug output is left out.
use rv64i_simulator.Base.{
  ℕ, ◌+◌, Bool, false, ◌||◌, not, Option, none, some, List, [], ◌∷◌, ◌++◌, ◌==◌, if◌then◌else◌, u64,
}
use rv64i_simulator.Machine.{Machine, text, char, print}
use rv64i_simulator.Bus.Write.{write_byte}

-- `io->writeString` of a text that is not a literal.
unfoldable pub print_codes : List ℕ → Machine → Machine
print_codes [] m = m
print_codes (c ∷ cs) m = print_codes cs (print (char c) m)

-- The loop: the bytes from `offset` on, and the offset after them.
unfoldable pub inject : List ℕ → ℕ → ℕ → Machine → ℕ × Machine
inject [] start_address offset m = (offset, m)
inject (byte ∷ bytes) start_address offset m =
    inject bytes start_address (u64 (offset + 1)) (write_byte (u64 (start_address + offset)) byte m)

unfoldable pub load : (List ℕ → Option (List ℕ)) → ℕ → List ℕ → Machine → ℕ × Machine
load files start_address filename m = elim (files filename) [
  | none ↦
      (0, print (text "\n") (print_codes filename (print (text "Loader Error: Could not open ") m)))
  | some bytes ↦ inject bytes start_address 0 m
]

abbrev is_separator : ℕ → Bool
is_separator c = c == 92 || c == 47

-- `path.substr(0, path.find_last_of("\\/"))`; `none` is `npos`.
unfoldable pub before_last : List ℕ → Option (List ℕ)
before_last [] = none
before_last (c ∷ cs) = elim (before_last cs) [
  | some folder ↦ some (c ∷ folder)
  | none ↦ if is_separator c then some [] else none
]

-- `!path.empty() && path.back() != '\\' && path.back() != '/'`.
unfoldable pub wants_separator : List ℕ → Bool
wants_separator [] = false
wants_separator (c ∷ []) = not (is_separator c)
wants_separator (c ∷ d ∷ cs) = wants_separator (d ∷ cs)

unfoldable pub folder_of : List ℕ → List ℕ
folder_of program =
    let path : List ℕ = elim (before_last program) [ some folder ↦ folder | none ↦ program ] in
    if wants_separator path then path ++ (92 ∷ []) else path

-- The second overload of `load`.
unfoldable pub load_beside :
    (List ℕ → Option (List ℕ)) → List ℕ → ℕ → List ℕ → Bool → Machine → ℕ × Machine
load_beside files program start_address filename static_path m =
    if not static_path
    then load files start_address filename m
    else load files start_address (folder_of program ++ filename) m
