-- ===== src/Bus.antt =====
-- src/Core/Bus.cpp: physical accesses of the processor, to the UART, the CLINT registers or RAM. The
-- bus is attached to a processor, as its constructor does. A write's returned value is its
-- argument on every path, and is left out.
pub mod Read
pub mod Write
pub mod Ram
