-- ===== src/Tests.antt =====
-- Concrete inputs on which the theorems apply: each runs the operation that its theorem is about.
pub mod Floats
pub mod Phases
pub mod Wire
pub mod Recordings
pub mod Selection
pub mod Maps
pub mod Settings
pub mod Entries
pub mod Kernels
pub mod Programs
pub mod Sessions
pub mod Tables
