-- ===== src/Kernel/Histogram.antt =====
-- The histograms of bpf/etrace.bpf.c and what is read from them.
pub mod Bins
pub mod BinRanges
pub mod Samples
pub mod Quantile
