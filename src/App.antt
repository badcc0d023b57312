-- ===== src/App.antt =====
-- The main loop (src/app.cpp), with the phase manager and the collector that it drives.
pub mod Loop
pub mod LoopInv
pub mod Interval
pub mod Collector
pub mod TopTasks
pub mod TopEntries
pub mod TopSums
