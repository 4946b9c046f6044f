-- ===== src/Models.antt =====
-- src/zion_terminal/models: the records that the agents hand to each other.
pub mod Responses
pub mod SourceRoles
