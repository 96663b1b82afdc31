-- ===== src/Projection.antt =====
-- observability/run_store.py: `RunProjection`, which folds the events of a Run into what a browser is
-- shown, and `RunEventPublisher`. `View` holds the data, `Parts`, `Changes`, `Apply`,
-- `Publish` and `Complete` the operations; the other modules prove.
pub mod View
pub mod Parts
pub mod Changes
pub mod Apply
pub mod Steps
pub mod Bounds
pub mod Views
pub mod Delivery
pub mod Ahead
pub mod Growth
pub mod Refusal
pub mod Publishing
pub mod Storing
pub mod Completing
pub mod Publish
pub mod Complete
