-- ===== src/Task.antt =====
-- The in-process task runtime of src/task: its tasks and errors, its operations as steps of one
-- event loop, their specification, and its properties.
pub mod Types
pub mod Runtime
pub mod History
pub mod Effects
pub mod Pruning
pub mod Capacity
pub mod Identity
pub mod Claims
pub mod Over
pub mod Pruned
pub mod Refinement
pub mod Handles
pub mod Shutdown
pub mod Reports
pub mod Settled
pub mod Room
pub mod Visibility
mod Tests
