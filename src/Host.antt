-- ===== src/Host.antt =====
-- The program around the processor: the command line, the loader, the host's system calls, the two
-- systems and `main`.
pub mod CommandLine
pub mod Loader
pub mod HostCalls
pub mod Echo
pub mod Systems
pub mod Main
pub mod Boot
pub mod Payload
pub mod FirstStep
pub mod Bare
pub mod Valid
