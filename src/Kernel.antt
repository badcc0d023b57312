-- ===== src/Kernel.antt =====
-- The programs of bpf/etrace.bpf.c, which run in the kernel.
pub mod Histogram
pub mod Flight
pub mod Producers
pub mod Programs
