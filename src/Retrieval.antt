-- ===== src/Retrieval.antt =====
-- src/zion_terminal/agents/retrieval/agent.py: adapters by name, and the routing of tasks to them.
mod Agent
pub mod Routing
pub mod Outcomes
unfoldable pub use Agent.*
