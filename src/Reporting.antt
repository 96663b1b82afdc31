-- ===== src/Reporting.antt =====
-- reporting/product_assembler.py: the Evidence that a report rests on. `Lineage` holds the operations,
-- `Fuel`, `Growth`
-- and `Closure` prove.
pub mod Lineage
pub mod Fuel
pub mod Growth
pub mod Closure
