-- ===== src/TruthQuery.antt =====
-- src/zion_terminal/truth_query.py: the release clients behind the world router.
pub mod Plan
pub mod Evidence
pub mod Release
pub mod Lookahead
pub mod Plans
