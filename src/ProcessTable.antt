-- ===== src/ProcessTable.antt =====
-- The table of threads that `EbpfManager::ReadProcessTable` of src/collect/ebpf_manager.cpp reads.
pub mod Lines
pub mod Rows
pub mod Reading
pub mod Unread
