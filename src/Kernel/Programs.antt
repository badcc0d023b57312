-- ===== src/Kernel/Programs.antt =====
-- The programs of bpf/etrace.bpf.c that count events.
pub mod Tables
pub mod Stats
pub mod State
pub mod Sched
pub mod SchedKeeps
pub mod OnCpu
pub mod Events
pub mod Counted
pub mod Pairs
pub mod Calls
pub mod Oom
