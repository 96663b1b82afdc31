-- ===== src/Redaction.antt =====
-- security/redaction.py: what is removed from a value before it is public. `Engine` holds the
-- operations, `Public` proves.
pub mod Engine
pub mod Public
