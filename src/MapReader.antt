-- ===== src/MapReader.antt =====
-- src/collect/map_reader.h and src/collect/map_reader.cpp: access to one map of the kernel.
pub mod Slice
pub mod Sums
pub mod Walks
