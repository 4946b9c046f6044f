-- ===== src/Validation.antt =====
-- src/zion_terminal/agents/validation/agent.py: the checks on retrieved and on generated data.
mod Checks
mod Agent
pub mod Summary
pub mod ItemChecks
pub mod Soundness
pub mod Synthesis
unfoldable pub use Checks.*
unfoldable pub use Agent.*
