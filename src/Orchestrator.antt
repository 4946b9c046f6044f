-- ===== src/Orchestrator.antt =====
-- src/zion_terminal/orchestrator/orchestrator.py: the entry point, which retrieves, validates,
-- gates on the validation in strict mode, and keeps processed filings.
mod Agent
pub mod Filings
pub mod Gate
unfoldable pub use Agent.*
