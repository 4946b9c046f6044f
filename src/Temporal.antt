-- ===== src/Temporal.antt =====
-- src/zion_terminal/temporal.py: calendar days, market sessions and instants.
pub mod Calendar
pub mod Instants
pub mod Leakage
pub mod Sessions
unfoldable pub use Calendar.*
