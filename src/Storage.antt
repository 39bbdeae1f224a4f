-- ===== src/Storage.antt =====
-- crashsafe/storage.py: `SQLiteStorage`, with its database as an explicit state.
pub mod Db
pub mod Reads
pub mod Create
pub mod Rebuild
pub mod Attempts
pub mod Claims
pub mod Fencing
pub mod Leases
pub mod Deadlines
pub mod Throttle
pub mod Candidates
pub mod Eligibility
pub mod Projection
pub mod Refence
pub mod Incomplete
pub mod Recoverable
