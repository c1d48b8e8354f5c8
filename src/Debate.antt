-- ===== src/Debate.antt =====
-- The two-agent Debate of src/debate: its rows and errors, the queries of its SQLite database, the
-- transactional state machine of its store, the service over it, and their properties.
pub mod Types
pub mod Database
pub mod Store
pub mod Invariant
pub mod History
pub mod Isolation
pub mod Commit
pub mod Progress
pub mod Speaking
pub mod Turns
pub mod Ended
pub mod Waiters
pub mod Service
mod Tests
