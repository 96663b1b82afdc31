-- ===== src/Budget.antt =====
-- orchestration/base.py and contracts/execution.py: the budget ledger that the components of a Run
-- share. `Ledger` holds its state, `Claims` the counted claims, `Tokens` the operations on model
-- requests, `Cost` the reported cost; the other modules prove.
pub mod Ledger
pub mod Claims
pub mod Tokens
pub mod Steps
pub mod Bounds
pub mod Exhaustion
pub mod Cost
pub mod Accounting
pub mod Limits
