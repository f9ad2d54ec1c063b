-- ===== src/Handoff.antt =====
-- The local store of design evidence (mcp/gxp_core/handoff_store.py).
pub mod Host
pub mod Finite
pub mod Clean
pub mod Targets
pub mod Chosen
pub mod Compare
pub mod Snapshots
pub mod Diagnosis
pub mod ChangeSpec
pub mod Record
pub mod Summary
pub mod Store
pub mod Page
pub mod Environment
pub mod Cursor
pub mod Scan
pub mod Verified
pub mod Ordered
pub mod Written
pub mod Budget
pub mod Limits
pub mod Answers
pub mod Errors
pub mod Newest
pub mod Turn
pub mod Ids
pub mod Listing
pub mod Tests
