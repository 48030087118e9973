-- ===== src/Store.antt =====
-- The SQLite ledger of src/onceproof/store.py.
pub mod Tx
pub mod Keeps
pub mod Rows
pub mod Calls
pub mod Statements
pub mod Consistency
pub mod Timely
pub mod Answer
pub mod Outcome
pub mod OnceOnly
pub mod Decisions
pub mod Cleanup
pub mod Revocation
pub mod CutOff
pub mod Restore
pub mod Idempotency
pub mod Acceptance
pub mod Rotation
pub mod Retry
pub mod CachedRead
pub mod Issued
pub mod Window
pub mod Tables
pub mod Shared
pub mod Rate
pub mod Clients
pub mod Issue
pub mod Consume
pub mod Maintenance
pub mod Reports
pub mod Registered
