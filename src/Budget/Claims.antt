-- ===== src/Budget/Claims.antt =====
-- orchestration/base.py: the claims that `BudgetLedger` counts, and the slots of its operations.
use jindiao.Prelude.{ℕ, ◌+◌, ◌-◌, leb, max}
use jindiao.Errors.{Reason, execution_error}
use jindiao.Budget.Ledger.{Step, ◌>>◌, modify, fail_if, exhaust_if, ensure_available}

unfoldable pub claim_tool_call : ℕ → Step (Unit {0})
claim_tool_call now = do
  ensure_available now
  exhaust_if (λ l. leb l.budget.max_tool_calls l.tool_calls) Reason.tool_calls_exhausted
  modify (λ l. record l { tool_calls = l.tool_calls + 1 })

unfoldable pub claim_snapshot_read : ℕ → Step (Unit {0})
claim_snapshot_read now = do
  ensure_available now
  exhaust_if (λ l. leb l.budget.max_snapshot_reads l.snapshot_reads) Reason.snapshot_reads_exhausted
  exhaust_if (λ l. leb l.budget.max_tool_calls l.tool_calls) Reason.tool_calls_exhausted
  modify (λ l. record l { snapshot_reads = l.snapshot_reads + 1; tool_calls = l.tool_calls + 1 })

unfoldable pub claim_schema_retry : ℕ → Step (Unit {0})
claim_schema_retry now = do
  ensure_available now
  exhaust_if (λ l. leb l.budget.max_schema_retries l.schema_retries) Reason.schema_retries_exhausted
  modify (λ l. record l { schema_retries = l.schema_retries + 1 })

unfoldable pub claim_repair_round : ℕ → Step (Unit {0})
claim_repair_round now = do
  ensure_available now
  exhaust_if (λ l. leb l.budget.max_repair_rounds l.repair_rounds) Reason.repair_rounds_exhausted
  modify (λ l. record l { repair_rounds = l.repair_rounds + 1 })

unfoldable pub check_deadline : ℕ → Step (Unit {0})
check_deadline now = ensure_available now

-- The entry of `operation_slot`: a slot that is refused does not exhaust the budget.
unfoldable pub enter_slot : ℕ → Step (Unit {0})
enter_slot now = do
  ensure_available now
  fail_if (λ l. leb l.budget.max_concurrency l.active_operations)
      (execution_error Reason.concurrency_exhausted)
  modify (λ l. record l {
    active_operations = l.active_operations + 1;
    peak_concurrency = max l.peak_concurrency (l.active_operations + 1);
  })

-- Its `finally` clause.
unfoldable pub leave_slot : Step (Unit {0})
leave_slot = modify (λ l. record l { active_operations = l.active_operations - 1 })
