-- ===== src/Review.antt =====
-- The reviews of the submission blackboard: `Model` holds the review contracts, `Submit` the
-- operations; `Charge`, `Outcomes` and `Binding` prove.
pub mod Model
pub mod Submit
pub mod Charge
pub mod Outcomes
pub mod Binding
