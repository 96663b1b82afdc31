-- ===== src/Budget/Limits.antt =====
-- What a granted reservation and a combined cost promise.
use jindiao.Prelude.{ℕ, ◌+◌, ◌≤◌, ◌≡◌, arith, true, List, [], ◌∷◌, All}
use jindiao.Errors.{ok}
use jindiao.Budget.Ledger.{LlmReservation, BudgetLedger}
use jindiao.Budget.Tokens.{committed_input, committed_output, reserve_llm_request}
use jindiao.Budget.Cost.{ExecutionCost, reconcile_usage, add_cost, sum_costs, combine}

-- Where tokens are enforced, a granted reservation leaves the tokens used, reserved and unreported
-- within the input, the output and the total limit, and allows between one output token and those
-- asked for.
pub reserve_llm_request-within :
    (now input output : ℕ) (l : BudgetLedger) (r : LlmReservation) (l' : BudgetLedger)
    → l.budget.enforce_token_budget ≡ true
    → reserve_llm_request now input output l ≡ (ok r, l')
    → (committed_input l' ≤ l.budget.max_input_tokens)
      × (committed_output l' ≤ l.budget.max_output_tokens)
      × (committed_input l' + committed_output l' ≤ l.budget.max_total_tokens)
      × (r.input_tokens ≡ input)
      × (1 ≤ r.output_tokens)
      × (r.output_tokens ≤ output)
unfolding reserve_llm_request
reserve_llm_request-within now input output l r l' enforced h = ground arith

abbrev IsReconciled : ExecutionCost → Type 0
IsReconciled c = reconcile_usage c ≡ ok c

add_cost-IsReconciled :
    (c d : ExecutionCost) → IsReconciled c → IsReconciled d → IsReconciled (add_cost c d)
unfolding reconcile_usage
add_cost-IsReconciled c d h k = ground arith

sum_costs-IsReconciled :
    (cs : List ExecutionCost) → All IsReconciled cs → IsReconciled (sum_costs cs)
unfolding sum_costs reconcile_usage
sum_costs-IsReconciled [] h = ground arith
sum_costs-IsReconciled (c ∷ cs) h =
    add_cost-IsReconciled c (sum_costs cs) h.0 (sum_costs-IsReconciled cs h.1)

-- Costs that reconcile one by one can be combined, and their combination reconciles.
pub combine-IsReconciled :
    (cs : List ExecutionCost)
    → All (λ (c : ExecutionCost). reconcile_usage c ≡ ok c) cs
    → combine cs ≡ ok (sum_costs cs)
unfolding combine
combine-IsReconciled cs h = sum_costs-IsReconciled cs h
