-- ===== src/Tests.antt =====
mod Samples
mod Examples
mod Devices
mod Program
mod Steps
