-- ===== src/Examples/Budgets.antt =====
-- orchestration/base.py at a small budget.
use jindiao.Prelude.{◌≡◌, ◌≤◌, ◌+◌, refl, true, [], ◌∷◌}
use jindiao.Errors.{ok}
use jindiao.Budget.Ledger.{RunBudget, LlmReservation, BudgetLedger, open_ledger}
use jindiao.Budget.Claims.{
  claim_tool_call, claim_snapshot_read, claim_schema_retry, claim_repair_round, check_deadline,
  enter_slot,
}
use jindiao.Budget.Tokens.{
  committed_input, committed_output, reserve_llm_request, add_reservation, claim_llm_request,
}
use jindiao.Budget.Cost.{
  ExecutionCost, zero_cost, reconcile_usage, sum_costs, combine, to_execution_cost,
}
use jindiao.Budget.Steps.{Operation, run, Reach}
use jindiao.Budget.Bounds.{Reach-IsWithin}
use jindiao.Budget.Exhaustion.{IsExhausted, is_raised, Reach-IsExhausted}
use jindiao.Budget.Accounting.{input_sum, output_sum, Reach-reserved, to_execution_cost-Reach}
use jindiao.Budget.Limits.{reserve_llm_request-within, combine-IsReconciled}

abbrev pub budget : RunBudget
budget = record {
  max_tool_calls = 1;
  max_concurrency = 2;
  timeout_seconds = 10;
  max_repair_rounds = 1;
  max_llm_requests = 3;
  max_input_tokens = 100;
  max_output_tokens = 50;
  max_total_tokens = 120;
  enforce_token_budget = true;
  max_schema_retries = 0;
  max_snapshot_reads = 4;
}

abbrev opened : BudgetLedger
opened = open_ledger budget 0

abbrev reserved : BudgetLedger
reserved = run (Operation.reserve 90 40) 3 opened

-- a tool call, and a reservation whose output is cut to what the total leaves
abbrev used : BudgetLedger
used = run Operation.tool_call 4 reserved

used_reached : Reach opened used
used_reached =
    Reach.step Operation.tool_call 4 (Reach.step (Operation.reserve 90 40) 3 Reach.here tt) tt

Reach-IsWithin_example :
    (used.tool_calls ≤ used.budget.max_tool_calls)
    × (used.snapshot_reads ≤ used.budget.max_snapshot_reads)
    × (used.llm_requests ≤ used.budget.max_llm_requests)
    × (used.schema_retries ≤ used.budget.max_schema_retries)
    × (used.repair_rounds ≤ used.budget.max_repair_rounds)
    × (used.snapshot_reads ≤ used.tool_calls)
    × (used.active_operations ≤ used.peak_concurrency)
    × (used.peak_concurrency ≤ used.budget.max_concurrency)
Reach-IsWithin_example = Reach-IsWithin budget 0 used used_reached

Reach-reserved_example :
    (used.reserved_input_tokens ≡ input_sum used.reservations)
    × (used.reserved_output_tokens ≡ output_sum used.reservations)
Reach-reserved_example = Reach-reserved budget 0 used used_reached

to_execution_cost-Reach_example :
    (c : ExecutionCost) × (to_execution_cost 9 used ≡ ok c)
    × (c.successful_llm_requests ≤ c.llm_requests)
    × (c.llm_requests ≡ used.llm_requests)
    × (c.total_tokens ≡ used.input_tokens + used.output_tokens)
to_execution_cost-Reach_example = to_execution_cost-Reach budget 0 9 used used_reached

-- a second tool call is one too many
abbrev exhausted : BudgetLedger
exhausted = run Operation.tool_call 5 used

exhausted-IsExhausted : IsExhausted exhausted
unfolding run claim_tool_call reserve_llm_request open_ledger
exhausted-IsExhausted = refl

Reach-IsExhausted_example :
    IsExhausted exhausted
    × (is_raised (claim_tool_call 6 exhausted).0 ≡ true)
    × (is_raised (claim_snapshot_read 6 exhausted).0 ≡ true)
    × (is_raised (claim_llm_request 6 exhausted).0 ≡ true)
    × (is_raised (reserve_llm_request 6 1 1 exhausted).0 ≡ true)
    × (is_raised (claim_schema_retry 6 exhausted).0 ≡ true)
    × (is_raised (claim_repair_round 6 exhausted).0 ≡ true)
    × (is_raised (check_deadline 6 exhausted).0 ≡ true)
    × (is_raised (enter_slot 6 exhausted).0 ≡ true)
Reach-IsExhausted_example =
    Reach-IsExhausted exhausted exhausted 6 1 0 exhausted-IsExhausted Reach.here

abbrev granted : LlmReservation
granted = record { handle = 0; input_tokens = 90; output_tokens = 30 }

reservation_granted :
    reserve_llm_request 3 90 40 opened ≡ (ok granted, add_reservation granted opened)
unfolding reserve_llm_request open_ledger
reservation_granted = refl

reserve_llm_request-within_example :
    (committed_input (add_reservation granted opened) ≤ opened.budget.max_input_tokens)
    × (committed_output (add_reservation granted opened) ≤ opened.budget.max_output_tokens)
    × (committed_input (add_reservation granted opened)
          + committed_output (add_reservation granted opened)
        ≤ opened.budget.max_total_tokens)
    × (granted.input_tokens ≡ 90)
    × (1 ≤ granted.output_tokens)
    × (granted.output_tokens ≤ 40)
unfolding open_ledger
reserve_llm_request-within_example =
    reserve_llm_request-within 3 90 40 opened granted (add_reservation granted opened) refl
      reservation_granted

abbrev one_request : ExecutionCost
one_request = record zero_cost {
  llm_requests = 2;
  successful_llm_requests = 1;
  provider_usage_requests = 1;
  input_tokens = 8;
  output_tokens = 5;
  total_tokens = 13;
}

one_request_reconciled : reconcile_usage one_request ≡ ok one_request
unfolding reconcile_usage
one_request_reconciled = refl

combine-IsReconciled_example :
    combine (one_request ∷ one_request ∷ []) ≡ ok (sum_costs (one_request ∷ one_request ∷ []))
combine-IsReconciled_example =
    combine-IsReconciled (one_request ∷ one_request ∷ [])
      (one_request_reconciled, (one_request_reconciled, tt))
