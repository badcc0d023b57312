-- ===== src/Kernel/Producers.antt =====
-- What the two producers of bpf/etrace.bpf.c put into the flight recorder.
pub mod Snapshot
pub mod SampleWords
pub mod SamplerMerge
