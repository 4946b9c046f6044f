-- ===== src/Valuation.antt =====
-- deploy/cloudflare-query/src/valuation_engine.py: exact, versioned research formulas.
pub mod Numbers
pub mod Formulas
pub mod Inputs
pub mod Context
pub mod Derivation
pub mod Engine
pub mod Derived
pub mod Rows
pub mod Verified
pub mod Priced
pub mod Terminating
