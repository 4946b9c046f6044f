-- ===== src/HistoryStore.antt =====
-- src/zion_terminal/history_store.py: resumable acquisition of official sources, and releases of
-- historical series.
pub mod Files
pub mod Acquire
pub mod Outcomes
pub mod Threads
pub mod Pending
pub mod Interleaving
pub mod Reuse
pub mod Held
pub mod Attempts
pub mod Resume
pub mod Series
pub mod Manifest
pub mod Release
pub mod Rows
pub mod Names
pub mod Stored
pub mod Complete
