-- ===== src/Deep.antt =====
-- The life cycle of `DeepCollector` (src/collect/deep_collector.h and
-- src/collect/deep_collector.cpp).
pub mod Links
pub mod Collector
pub mod Entry
