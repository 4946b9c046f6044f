-- ===== src/EquityClaims.antt =====
-- deploy/cloudflare-query/src/equity_claims.py: claims on the equity of a filer, from the facts that
-- it reported.
pub mod Facts
pub mod Selection
pub mod Claims
pub mod Doubling
pub mod Available
pub mod Eligible
pub mod Chosen
pub mod Debt
