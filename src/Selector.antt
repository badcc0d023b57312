-- ===== src/Selector.antt =====
-- src/collect/target_selector.h and src/collect/target_selector.cpp: which threads are traced.
pub mod Maps
pub mod Budget
pub mod Counters
pub mod Hysteresis
pub mod Desired
pub mod Evaluate
pub mod BudgetBounds
pub mod Streaks
pub mod DesiredBounds
pub mod Targets
pub mod Membership
pub mod History
pub mod Pinned
pub mod PinnedTraced
