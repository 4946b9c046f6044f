-- ===== src/Documents.antt =====
-- src/zion_terminal/cache/doc_store.py and src/zion_terminal/models/documents.py: processed filings
-- by their id.
mod Store
pub mod Lookup
unfoldable pub use Store.*
