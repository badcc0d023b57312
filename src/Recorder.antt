-- ===== src/Recorder.antt =====
-- The flight recorder as the DEEP collector reads it: src/collect/map_reader.h, the helpers and the
-- ring loops of src/collect/deep_collector.cpp.
pub mod Snapshot
pub mod Merge
pub mod Conserve
pub mod Groups
pub mod Ring
pub mod Drains
pub mod Percentile
