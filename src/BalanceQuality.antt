-- ===== src/BalanceQuality.antt =====
-- deploy/cloudflare-query/src/sec_balance_quality.py: which balance checks may be presented.
pub mod Guard
pub mod Periods
pub mod Ends
pub mod Vintage
pub mod Suppression
