-- ===== src/Assignments.antt =====
-- investigation/assignments.py: the Leader's assignment plan. `Plan` holds the plans and the board,
-- `Submit` the operations and the tools; the other modules prove.
pub mod Plan
pub mod Submit
pub mod Once
pub mod Coverage
pub mod Names
pub mod Canonical
