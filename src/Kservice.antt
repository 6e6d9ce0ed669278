-- ===== src/Kservice.antt =====
-- src/kservice.c: the service routines of the kernel.
pub mod Ffs
pub mod Memory
pub mod Strings
pub mod Print
pub mod Format
