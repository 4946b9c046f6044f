-- ===== src/Reconciler.antt =====
-- src/zion_terminal/verification/reconciler.py: facts of a filing against values extracted from
-- its text.
pub mod Compare
pub mod Report
pub mod Classes
pub mod Tally
unfoldable pub use Compare.*
unfoldable pub use Report.*
