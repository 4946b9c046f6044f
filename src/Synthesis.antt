-- ===== src/Synthesis.antt =====
-- src/zion_terminal/agents/synthesis/agent.py: generated companies and their statements.
mod Statements
mod Agent
pub mod Consistency
pub mod Retry
unfoldable pub use Statements.*
unfoldable pub use Agent.*
