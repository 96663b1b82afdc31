-- ===== src/Runs.antt =====
-- observability/run_store.py: the repository of runs. `Repository` holds its state and operations,
-- `Creation` and `Recovery` prove.
pub mod Repository
pub mod Creation
pub mod Recovery
