-- ===== src/Storage/Projection.antt =====
-- That the projection tables agree with the history: `projection_matches_history` of
-- crashsafe/storage.py.
pub mod Inserts
pub mod Rows
pub mod Events
pub mod Steps
pub mod NewRows
pub mod Creation
pub mod Moves
pub mod Attempt
pub mod Settled
pub mod Outcomes
pub mod Endings
pub mod Failing
pub mod Match
pub mod Keeping
pub mod Commit
pub mod Restored
pub mod Rebuilding
pub mod Replayed
pub mod Recovery
pub mod Frame
pub mod Others
pub mod Apart
pub mod Elsewhere
pub mod Isolation
pub mod Lifetime
