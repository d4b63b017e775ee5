-- ===== src/Lib.antt =====
-- The RV64 system simulator: a processor with machine, supervisor and user mode, its control
-- registers, traps, physical memory protection and Sv39 translation, a bus with RAM, a UART and the
-- core-local timer, and the instruction set RV64I with M, A, C and the moves of F and D.
--
-- How the parts work together. `Processor::step` translates the program counter, fetches one or two
-- half-words over the bus, expands a compressed instruction, and hands the word to
-- `Interpreter::handle`, which decodes it, looks the handler up in the registry and calls it. A handler
-- reads and writes registers, control registers and, over the bus, memory and devices. The bus asks
-- the processor's protection unit about each access and raises a trap on it when it refuses. The
-- objects hold references to each other; the model keeps them in one record, `Machine.Machine`, and
-- every operation takes a machine and gives the next one, with its result before it if it has one.
--
-- Files and the code they model, all in src/Core and src/Instructions, with the types of include/core:
-- - Base, Base/Tests, Base/Words, Base/Int, Base/Bits: the shared names, Boolean tests, unsigned words
--   with their wrap-around, the integers of signed words, and the laws of masks and shifts.
-- - Memory: Memory.cpp, each read and write under its name (readByte is read_byte). Memory/Bytes,
--   Memory/RoundTrip and Memory/Safety hold the lemmas.
-- - Trap: TrapCause.h and TrapCause.cpp.
-- - Uart: UART.cpp; what is sent to the console is a result.
-- - Machine: the fields of Processor.h, with write_reg, reset and initialize.
-- - Cpu/CsrFile, Cpu/Csr: ProcessorCSR.cpp, the raw registers and the checked accesses.
-- - Cpu/Raise, Cpu/Interrupts, Cpu/Pmp, Cpu/Translate: raiseTrap, checkInterrupts, checkPMP and
--   translate of Processor.cpp. Cpu/Translate/Sv39 has the page-table walk of Sv39 as a relation, without
--   the canonical-address check, the A and D bits, SUM and MXR, none of which the code has.
-- - Bus/Read, Bus/Write: Bus.cpp. Bus/Ram has the lemmas on RAM behind it.
-- - Decode: decode, get_format and the immediates of Interpreter.cpp.
-- - Registry, Registry/Default: InstructionRegistry.cpp, and the registrations at the end of each file
--   of src/Instructions in the order of DefaultRegistry.cpp.
--   Registry/Probe, Insert and First have the lemmas on probing, filling and the lookup.
-- - Compressed: ProcessorCDecompressor.cpp, one child for each quadrant. Compressed/Forms lists the
--   compressed instructions as the manual gives them; Compressed/Expand and its children try every one
--   of them.
-- - Instr/Arithmetic, Mul, Access, Branches, System, Atomics, Float: the handlers exec_* of
--   src/Instructions. Instr/Dispatch is the call through the handler's address.
-- - Step: Interpreter::handle, Processor::step and Processor::run. Step/Fetch, Step/Expansion and
--   Step/Addi are about what a step fetches and executes.
-- - Invariant and its children: every field of the machine is a value of its C++ type, kept by every
--   operation; Invariant/Step and Invariant/Run are about the step and the loop.
-- - Output: the digit loops of IO.h and Utility/hexcode.cpp. Output/Digits and Output/Hex have their laws.
-- - History: Debug.cpp, the ring buffer of what was traced. History/Queue has the queue it stands for.
-- - Tree: DTBBuilder.h, the calls of libfdt that build the device tree.
-- - Host/CommandLine: Host/CLI.cpp. Host/Loader: Host/InjectionLoader.cpp. Host/HostCalls:
--   Host/WindowsEnvironment.cpp. Host/Systems: DefaultSystem.h and OpenSBISystem.h of include/systems.
--   Host/Main: Host.cpp. Host/Bare: Core.cpp, the main without an operating system. Host/Payload,
--   Host/Boot and Host/FirstStep follow a program from its file to its first instruction; Host/Echo is
--   about the system calls that read and write.
-- - Tests: sample machines, and the theorems applied to them.
--
-- Bounds and fuel. The NAPOT mask loop has fuel 64, since a word has at most 64 trailing ones; the
-- protection loop runs over its 64 entries; the walk descends from level 2 to 0; a probe of the
-- registry has at most 2048 steps, the table's size. `run` has no bound in the code, so `run_for`
-- takes the number of steps.
--
-- What is a parameter. The host's `Environment` (ecall and ebreak) is an argument of the step, and so is
-- the instruction table, which the program fills once. libfdt is a function from the sequence of its
-- calls to a buffer and a size; the files are a function from names to bytes; the reader of numbers
-- (stoul), the line that getline reads, the program's path, and what storage held
-- before it was set are arguments too.
--
-- Not modelled: the vendored libfdt, the console device, the trace output of the handlers and what
-- debug mode prints elsewhere, and the usage text. Console output of the modelled code is kept as a
-- list of what is printed, in which an exit of the process is an event as well: nothing after it is
-- seen. Indices outside an array and other undefined behaviour have no meaning in the model beyond
-- what each file's comment says.
mod Base
pub mod Memory
pub mod Trap
pub mod Uart
pub mod Machine
pub mod Cpu
pub mod Bus
pub mod Decode
pub mod Registry
pub mod Compressed
pub mod Instr
pub mod Step
pub mod Invariant
pub mod Output
pub mod History
pub mod Tree
pub mod Host
mod Tests
