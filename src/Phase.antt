-- ===== src/Phase.antt =====
-- src/phase_manager.h and src/phase_manager.cpp: the state machine between the cheap BASE phase
-- and the DEEP phase around an anomaly.
pub mod Parts
pub mod Machine
pub mod Invariant
pub mod Window
pub mod Debounce
pub mod Episode
