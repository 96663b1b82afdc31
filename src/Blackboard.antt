-- ===== src/Blackboard.antt =====
-- investigation/blackboard.py: the submission blackboard of a Run. `State` holds its data and its
-- construction, `Submit`, `Bind` and `Batch` its operations; the other modules prove.
pub mod State
pub mod Submit
pub mod Bind
pub mod Batch
pub mod Invariant
pub mod Accepted
pub mod Versions
pub mod Binding
pub mod Bound
pub mod Runs
pub mod Sequence
pub mod Readiness
pub mod Collected
pub mod Complete
