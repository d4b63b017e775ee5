-- ===== src/Invariant/Step.antt =====
-- A step of the processor keeps the invariant.
use rv64i_simulator.Base.{
  inl, inr, ℕ, ◌+◌, ◌^◌, ◌<◌, Bool, true, false, not, Option, none, some, ◌==◌, if◌then◌else◌,
  bit_and, u64, arith,
}
use rv64i_simulator.Base.Bits.{bit_or-lt}
use rv64i_simulator.Compressed.Width.{decompress-lt}
use rv64i_simulator.Trap.{illegal_instruction}
use rv64i_simulator.Machine.{Machine, fetch}
use rv64i_simulator.Decode.{DecodedInstruction, decode}
use rv64i_simulator.Registry.{ExecFunc, Table}
use rv64i_simulator.Bus.Read.{read_half}
use rv64i_simulator.Cpu.Translate.{translate}
use rv64i_simulator.Instr.System.{Environment}
use rv64i_simulator.Step.{find_handler, dispatch, handle, execute, fetch_second, fetch_first, step}
use rv64i_simulator.Invariant.{
  IsValid, Layout, InstFits, set_program_counter, set_trap_pending, set_step_count, set_mtime,
}
use rv64i_simulator.Invariant.Trap.{raise_trap-IsValid}
use rv64i_simulator.Invariant.Bus.{read_half-Gives}
use rv64i_simulator.Invariant.Registers.{choose, write_reg-IsValid}
use rv64i_simulator.Invariant.Control.{HostKeeps}
use rv64i_simulator.Invariant.Call.{call-IsValid}
use rv64i_simulator.Invariant.Words.{decode-InstFits}
use rv64i_simulator.Invariant.Walk.{address_cases, translate-Leads}

choose_step :
    {l : Layout} (x y : Bool × Machine) (b : Bool)
    → IsValid l x.1
    → IsValid l y.1
    → IsValid l (if b then x else y).1
choose_step x y true p q = p
choose_step x y false p q = q

module _ {l : Layout} (env : Option Environment) (k : HostKeeps l env) (table : Table) where
  dispatch-IsValid :
      (func : Option ExecFunc) (inst : DecodedInstruction) (raw : ℕ) {m : Machine}
      → InstFits inst
      → raw < 2 ^ 64
      → IsValid l m
      → IsValid l (dispatch env func inst raw m)
  unfolding dispatch
  dispatch-IsValid (some func) inst raw f p h = call-IsValid h inst f env k func
  dispatch-IsValid none inst raw f p h = raise_trap-IsValid h illegal_instruction inst.pc raw f.pc p

  handle-IsValid :
      (raw length : ℕ) {m : Machine}
      → raw < 2 ^ 32
      → IsValid l m
      → IsValid l (handle env table raw length m)
  unfolding handle
  handle-IsValid raw length {m} p h =
      let inst = decode raw m.program_counter length in
      write_reg-IsValid
        (dispatch-IsValid (find_handler table inst) inst raw
          (decode-InstFits raw m.program_counter length p h.program_counter) (omega arith) h)
        0 0 (omega arith)

  execute-IsValid :
      (pc raw length : ℕ) {m : Machine}
      → raw < 2 ^ 32
      → IsValid l m
      → IsValid l (execute env table pc raw length m)
  unfolding execute
  execute-IsValid pc raw length {m} p h =
      let m1 = record (handle env table raw length m) { trap_pending = false } in
      let h1 = set_trap_pending (handle-IsValid raw length p h) false in
      let h2 =
        choose (m1.program_counter == pc)
          (set_program_counter h1 (u64 (m1.program_counter + length)) (omega arith)) h1 in
      write_reg-IsValid (set_step_count h2 _ (omega arith)) 0 0 (omega arith)

  fetch_second-IsValid :
      (pc first second : ℕ) {m : Machine}
      → first < 2 ^ 16
      → second < 2 ^ 64
      → IsValid l m
      → IsValid l (fetch_second env table pc first second m)
  unfolding fetch_second
  fetch_second-IsValid pc first second {m} p q h =
      let r = read_half-Gives h second q in
      let v = r.value in
      execute-IsValid pc _ 4 (bit_or-lt 32 _ first (omega arith) (omega arith)) r.machine

  fetch_first-IsValid : {m : Machine} → IsValid l m → IsValid l (fetch_first env table m).1
  unfolding fetch_first
  fetch_first-IsValid {m} h =
      let t = translate-Leads m.program_counter h.program_counter fetch h in
      elim (address_cases (translate m.program_counter fetch m).0 t.address) [
        | inl e ↦ rw (fetch_first, e) t.machine
        | inr (physical, p, e) ↦
            rw (fetch_first, e)
              (let r = read_half-Gives t.machine physical p in
                let m1 = (translate m.program_counter fetch m).1 in
                let first = (read_half physical m1).0 in
                let m2 = (read_half physical m1).1 in
                choose_step _ _ (not (bit_and first 0x3 == 0x3))
                  (execute-IsValid _ _ 2 (decompress-lt first) r.machine)
                  (choose_step _ _ (bit_and m2.program_counter 0xfff == 0xffe)
                    (let t2 =
                        translate-Leads (u64 (m2.program_counter + 2)) (omega arith) fetch
                          r.machine in
                      elim (address_cases (translate (u64 (m2.program_counter + 2)) fetch m2).0
                        t2.address) [
                          | inl e2 ↦ rw e2 t2.machine
                          | inr (second, q, e2) ↦
                              rw e2 (fetch_second-IsValid _ first second r.value q t2.machine)
                        ])
                    (fetch_second-IsValid _ first (u64 (physical + 2)) r.value (omega arith)
                      r.machine)))
      ]

  -- A step, for every instruction table and every host environment whose calls keep the invariant,
  -- keeps it: every field of the machine stays a value of its C++ type, the privilege mode at most
  -- 3, RAM's size and base as they were, and the trap flag clear.
  pub step-IsValid : (m : Machine) → IsValid l m → IsValid l (step env table m).1
  unfolding step
  step-IsValid m h =
      let ticked = set_mtime h (u64 (m.mtime + 1)) (omega arith) in
      fetch_first-IsValid (write_reg-IsValid ticked 0 0 (omega arith))
