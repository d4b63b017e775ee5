-- ===== src/Cpu.antt =====
-- The processor: src/Core/Processor.cpp and ProcessorCSR.cpp, a child for each group of methods.
pub mod CsrFile
pub mod Raise
pub mod Pmp
pub mod Csr
pub mod Translate
pub mod Interrupts
