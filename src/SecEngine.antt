-- ===== src/SecEngine.antt =====
-- deploy/cloudflare-query/src/sec_engine.py: versioned histories of reported figures.
pub mod Decimals
pub mod Registry
pub mod Derivation
pub mod Sources
pub mod Selection
pub mod Periods
pub mod Overlap
pub mod Anchors
pub mod Output
pub mod Coverage
pub mod History
pub mod Versions
pub mod Known
pub mod Lookahead
pub mod Anchored
pub mod Published
pub mod Trailing
pub mod Exact
pub mod LongQuarters
pub mod InsideYear
pub mod Balance
pub mod Verdicts
pub mod Vintage
pub mod Entering
pub mod Ambiguity
