-- ===== src/Kernel/Flight.antt =====
-- The writers of the flight recorder: `rec_commit` of bpf/etrace.bpf.c.
pub mod Commit
pub mod Slots
pub mod CommitInv
pub mod CommitSteps
pub mod Committed
pub mod Settle
