-- ===== src/Budget/Cost.antt =====
-- orchestration/base.py and contracts/execution.py: the usage and the cost that a ledger reports.
use jindiao.Prelude.{ℕ, ◌+◌, ◌-◌, Bool, not, ◌&&◌, eqb, ltb, nonempty, List, [], ◌∷◌, Option}
use jindiao.Errors.{Reason, Result, ok, ◌>>◌, raise_if, validation_error}
use jindiao.Budget.Ledger.{BudgetLedger}

pub record BudgetUsageSnapshot : Type 0 where
  pub llm_requests : ℕ
  pub successful_llm_requests : ℕ
  pub provider_usage_requests : ℕ
  pub input_tokens : ℕ
  pub output_tokens : ℕ
  pub total_tokens : ℕ
  pub tool_calls : ℕ
  pub snapshot_reads : ℕ
  pub schema_retries : ℕ
  pub repair_rounds : ℕ
  pub active_operations : ℕ
  pub peak_concurrency : ℕ
  pub wall_time_ms : ℕ
  pub deadline_remaining_ms : ℕ
  pub exhausted_reason : Option Reason
  pub reserved_input_tokens : ℕ
  pub reserved_output_tokens : ℕ
  pub unknown_usage_requests : ℕ
  pub unreported_input_tokens : ℕ
  pub unreported_output_tokens : ℕ

-- `snapshot`: its `max(0, ...)` is the subtraction of natural numbers
unfoldable pub usage_snapshot : ℕ → BudgetLedger → BudgetUsageSnapshot
usage_snapshot now l = record {
  llm_requests = l.llm_requests;
  successful_llm_requests = l.successful_llm_requests;
  provider_usage_requests = l.provider_usage_requests;
  input_tokens = l.input_tokens;
  output_tokens = l.output_tokens;
  total_tokens = l.input_tokens + l.output_tokens;
  tool_calls = l.tool_calls;
  snapshot_reads = l.snapshot_reads;
  schema_retries = l.schema_retries;
  repair_rounds = l.repair_rounds;
  active_operations = l.active_operations;
  peak_concurrency = l.peak_concurrency;
  wall_time_ms = now - l.started_at;
  deadline_remaining_ms = l.deadline - now;
  exhausted_reason = l.exhausted_reason;
  reserved_input_tokens = l.reserved_input_tokens;
  reserved_output_tokens = l.reserved_output_tokens;
  unknown_usage_requests = l.unknown_usage_requests;
  unreported_input_tokens = l.unreported_input_tokens;
  unreported_output_tokens = l.unreported_output_tokens;
}

pub record ExecutionCost : Type 0 where
  pub llm_requests : ℕ
  pub successful_llm_requests : ℕ
  pub provider_usage_requests : ℕ
  pub input_tokens : ℕ
  pub output_tokens : ℕ
  pub total_tokens : ℕ
  pub tool_calls : ℕ
  pub mcp_calls : ℕ
  pub schema_retries : ℕ
  pub repair_rounds : ℕ
  pub wall_time_ms : ℕ

-- `ExecutionCost(...)`, by its validator `reconcile_usage`
unfoldable pub reconcile_usage : ExecutionCost → Result ExecutionCost
reconcile_usage c = do
  raise_if (not (eqb c.total_tokens (c.input_tokens + c.output_tokens)))
      (validation_error Reason.tokens_not_reconciled)
  raise_if (ltb c.llm_requests c.successful_llm_requests)
      (validation_error Reason.successes_exceed_requests)
  raise_if (ltb c.successful_llm_requests c.provider_usage_requests)
      (validation_error Reason.usage_exceeds_successes)
  ok c

unfoldable pub cost_of_usage : BudgetUsageSnapshot → ExecutionCost
cost_of_usage usage = record {
  llm_requests = usage.llm_requests;
  successful_llm_requests = usage.successful_llm_requests;
  provider_usage_requests = usage.provider_usage_requests;
  input_tokens = usage.input_tokens;
  output_tokens = usage.output_tokens;
  total_tokens = usage.total_tokens;
  tool_calls = usage.tool_calls;
  mcp_calls = 0;
  schema_retries = usage.schema_retries;
  repair_rounds = usage.repair_rounds;
  wall_time_ms = usage.wall_time_ms;
}

unfoldable pub to_execution_cost : ℕ → BudgetLedger → Result ExecutionCost
unfolding reconcile_usage cost_of_usage usage_snapshot
to_execution_cost now l = reconcile_usage (cost_of_usage (usage_snapshot now l))

abbrev pub zero_cost : ExecutionCost
zero_cost = record {
  llm_requests = 0;
  successful_llm_requests = 0;
  provider_usage_requests = 0;
  input_tokens = 0;
  output_tokens = 0;
  total_tokens = 0;
  tool_calls = 0;
  mcp_calls = 0;
  schema_retries = 0;
  repair_rounds = 0;
  wall_time_ms = 0;
}

abbrev pub add_cost : ExecutionCost → ExecutionCost → ExecutionCost
add_cost c d = record {
  llm_requests = c.llm_requests + d.llm_requests;
  successful_llm_requests = c.successful_llm_requests + d.successful_llm_requests;
  provider_usage_requests = c.provider_usage_requests + d.provider_usage_requests;
  input_tokens = c.input_tokens + d.input_tokens;
  output_tokens = c.output_tokens + d.output_tokens;
  total_tokens = c.total_tokens + d.total_tokens;
  tool_calls = c.tool_calls + d.tool_calls;
  mcp_calls = c.mcp_calls + d.mcp_calls;
  schema_retries = c.schema_retries + d.schema_retries;
  repair_rounds = c.repair_rounds + d.repair_rounds;
  wall_time_ms = c.wall_time_ms + d.wall_time_ms;
}

-- the field by field sums of `ExecutionCost.combine`
unfoldable pub sum_costs : List ExecutionCost → ExecutionCost
sum_costs [] = zero_cost
sum_costs (c ∷ cs) = add_cost c (sum_costs cs)

-- `ExecutionCost.combine`
unfoldable pub combine : List ExecutionCost → Result ExecutionCost
unfolding sum_costs reconcile_usage
combine costs = reconcile_usage (sum_costs costs)

-- `provider_usage_complete` of `error_details`
unfoldable pub provider_usage_complete : BudgetLedger → Bool
provider_usage_complete l =
    eqb l.provider_usage_requests l.llm_requests
    && eqb l.unknown_usage_requests 0
    && not (nonempty l.reservations)
