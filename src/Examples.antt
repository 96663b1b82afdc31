-- ===== src/Examples.antt =====
-- The components at concrete inputs: `Boards` runs the blackboard and its gates, `Batches` a batch and
-- the last gate, `Assignments` the assignment plans, `Projections` the projection of a Run, `Budgets`
-- the budget ledger, `Streams` the event stores, `Reviews` the reviews, `Restarts` the repository,
-- `Reports` the Evidence of a report and the redaction.
mod Boards
mod Batches
mod Assignments
mod Projections
mod Budgets
mod Streams
mod Reviews
mod Restarts
mod Reports
