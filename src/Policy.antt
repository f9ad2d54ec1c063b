-- ===== src/Policy.antt =====
-- The relation policy store (mcp/gxp_core/relation_policy.py) and what the schema snapshot asks of it.
pub mod Document
pub mod Store
pub mod Snapshot
pub mod Lookup
pub mod Listed
pub mod Stale
pub mod Consistent
pub mod Files
pub mod Attempts
pub mod Verdict
mod Tests
