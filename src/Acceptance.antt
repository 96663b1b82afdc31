-- ===== src/Acceptance.antt =====
-- investigation/validation.py and contracts/results.py: the last hard gate over the results of all
-- agents. `Results` holds the operations, `Order` proves.
pub mod Results
pub mod Order
