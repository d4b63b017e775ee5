-- ===== src/Trap.antt =====
-- src/Core/TrapCause.cpp and include/core/TrapCause.h: the causes of a trap, their codes and names.
use Prim.Native.String.{String}
use rv64i_simulator.Base.{ℕ, ◌+◌, ◌^◌}

pub data TrapCause : Type 0 where
  none stack_size_exceeds_max : TrapCause
  instruction_misaligned instruction_access_fault illegal_instruction breakpoint : TrapCause
  misaligned_load load_access_fault misaligned_store store_access_fault : TrapCause
  ecall_from_u_mode ecall_from_s_mode ecall_from_m_mode : TrapCause
  instruction_page_fault load_page_fault store_page_fault : TrapCause
  supervisor_software_interrupt machine_software_interrupt : TrapCause
  supervisor_timer_interrupt machine_timer_interrupt : TrapCause
  supervisor_external_interrupt machine_external_interrupt : TrapCause

abbrev pub interrupt_bit : ℕ
interrupt_bit = 2 ^ 63

-- The enumerator's value. `INTERRUPT_BIT | k` is a sum, since k is small.
abbrev pub trap_code : TrapCause → ℕ
trap_code TrapCause.none = 0xffff_ffff_ffff_ffff
trap_code stack_size_exceeds_max = 0xffff_ffff_ffff_fffe
trap_code instruction_misaligned = 0
trap_code instruction_access_fault = 1
trap_code illegal_instruction = 2
trap_code breakpoint = 3
trap_code misaligned_load = 4
trap_code load_access_fault = 5
trap_code misaligned_store = 6
trap_code store_access_fault = 7
trap_code ecall_from_u_mode = 8
trap_code ecall_from_s_mode = 9
trap_code ecall_from_m_mode = 11
trap_code instruction_page_fault = 12
trap_code load_page_fault = 13
trap_code store_page_fault = 15
trap_code supervisor_software_interrupt = interrupt_bit + 1
trap_code machine_software_interrupt = interrupt_bit + 3
trap_code supervisor_timer_interrupt = interrupt_bit + 5
trap_code machine_timer_interrupt = interrupt_bit + 7
trap_code supervisor_external_interrupt = interrupt_bit + 9
trap_code machine_external_interrupt = interrupt_bit + 11

unfoldable pub trap_cause_to_string : TrapCause → String
trap_cause_to_string TrapCause.none = "No trap"
trap_cause_to_string stack_size_exceeds_max = "Stack size exceeds maximum"
trap_cause_to_string instruction_misaligned = "Instruction address misaligned"
trap_cause_to_string instruction_access_fault = "Instruction access fault"
trap_cause_to_string illegal_instruction = "Illegal instruction"
trap_cause_to_string breakpoint = "Breakpoint"
trap_cause_to_string misaligned_load = "Misaligned load"
trap_cause_to_string load_access_fault = "Load access fault"
trap_cause_to_string misaligned_store = "Misaligned store"
trap_cause_to_string store_access_fault = "Store access fault"
trap_cause_to_string ecall_from_u_mode = "Environment call from User mode"
trap_cause_to_string ecall_from_s_mode = "Environment call from Supervisor mode"
trap_cause_to_string ecall_from_m_mode = "Environment call from Machine mode"
trap_cause_to_string instruction_page_fault = "Instruction page fault"
trap_cause_to_string load_page_fault = "Load page fault"
trap_cause_to_string store_page_fault = "Store page fault"
trap_cause_to_string supervisor_timer_interrupt = "Supervisor timer interrupt"
trap_cause_to_string machine_timer_interrupt = "Machine timer interrupt"
trap_cause_to_string machine_external_interrupt = "Machine external interrupt"
trap_cause_to_string _ = "Unknown trap cause"
