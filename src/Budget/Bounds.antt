-- ===== src/Budget/Bounds.antt =====
-- The counters of a budget ledger stay within the budget, whatever is called when.
use jindiao.Prelude.{ℕ, ◌≤◌, arith, Bool-cases, inl, inr, Bool, Option}
use jindiao.Budget.Ledger.{RunBudget, LlmReservation, BudgetLedger, open_ledger}
use jindiao.Budget.Claims.{
  claim_tool_call, claim_snapshot_read, claim_schema_retry, claim_repair_round, check_deadline,
  enter_slot, leave_slot,
}
use jindiao.Budget.Tokens.{
  claim_llm_request, reserve_llm_request, release_llm_request, complete_llm_request,
  record_llm_usage, drop_reservation, settle, settled, check_recorded_usage, holds,
}
use jindiao.Budget.Steps.{Operation, run, Reach}

-- Every counter is within its limit, and the slots in use within the peak.
abbrev pub IsWithin : BudgetLedger → Type 0
IsWithin l =
    (l.tool_calls ≤ l.budget.max_tool_calls)
    × (l.snapshot_reads ≤ l.budget.max_snapshot_reads)
    × (l.llm_requests ≤ l.budget.max_llm_requests)
    × (l.schema_retries ≤ l.budget.max_schema_retries)
    × (l.repair_rounds ≤ l.budget.max_repair_rounds)
    × (l.snapshot_reads ≤ l.tool_calls)
    × (l.active_operations ≤ l.peak_concurrency)
    × (l.peak_concurrency ≤ l.budget.max_concurrency)

open-IsWithin : (b : RunBudget) (now : ℕ) → IsWithin (open_ledger b now)
unfolding open_ledger
open-IsWithin b now = ground arith

module _ (now : ℕ) (l : BudgetLedger) where
  claims-IsWithin :
      IsWithin l
      → IsWithin (claim_tool_call now l).1
        × IsWithin (claim_snapshot_read now l).1
        × IsWithin (claim_schema_retry now l).1
        × IsWithin (claim_repair_round now l).1
  unfolding claim_tool_call claim_snapshot_read claim_schema_retry claim_repair_round
  claims-IsWithin w = (ground arith, ground arith, ground arith, ground arith)

  slots-IsWithin :
      IsWithin l
      → IsWithin (check_deadline now l).1
        × IsWithin (enter_slot now l).1
        × IsWithin (leave_slot l).1
  unfolding check_deadline enter_slot leave_slot
  slots-IsWithin w = (ground arith, ground arith, ground arith)

  requests-IsWithin :
      (i o : ℕ)
      → IsWithin l
      → IsWithin (claim_llm_request now l).1 × IsWithin (reserve_llm_request now i o l).1
  unfolding claim_llm_request reserve_llm_request
  requests-IsWithin i o w = (ground arith, ground arith)

  recorded-IsWithin : IsWithin l → IsWithin (check_recorded_usage now l).1
  unfolding check_recorded_usage
  recorded-IsWithin w = ground arith

module _ (l : BudgetLedger) where
  settled-IsWithin :
      (r : LlmReservation) (i o : Option ℕ) (p s : Bool)
      → IsWithin l
      → IsWithin (settled r i o p s l)
  unfolding settle drop_reservation
  settled-IsWithin r i o p s w = w

  release-IsWithin : (r : LlmReservation) → IsWithin l → IsWithin (release_llm_request r l).1
  unfolding release_llm_request drop_reservation
  release-IsWithin r w = ground arith

complete-IsWithin :
    (now : ℕ) (l : BudgetLedger) (r : LlmReservation) (i o : Option ℕ) (p s : Bool)
    → IsWithin l
    → IsWithin (complete_llm_request now r i o p s l).1
unfolding complete_llm_request
complete-IsWithin now l r i o p s w = elim (Bool-cases (holds r l.reservations)) [
  | inl h ↦ rw h (recorded-IsWithin now (settled r i o p s l) (settled-IsWithin l r i o p s w))
  | inr h ↦ rw h w
]

usage-IsWithin :
    (now : ℕ) (l : BudgetLedger) (i o : ℕ) (p : Bool)
    → IsWithin l
    → IsWithin (record_llm_usage now i o p l).1
unfolding record_llm_usage check_recorded_usage
usage-IsWithin now l i o p w = ground arith

run-IsWithin :
    (operation : Operation) (now : ℕ) (l : BudgetLedger)
    → IsWithin l
    → IsWithin (run operation now l)
unfolding run
run-IsWithin Operation.tool_call now l w = (claims-IsWithin now l w).0
run-IsWithin Operation.snapshot_read now l w = (claims-IsWithin now l w).1
run-IsWithin Operation.schema_retry now l w = (claims-IsWithin now l w).2
run-IsWithin Operation.repair_round now l w = (claims-IsWithin now l w).3
run-IsWithin Operation.deadline_check now l w = (slots-IsWithin now l w).0
run-IsWithin Operation.enter now l w = (slots-IsWithin now l w).1
run-IsWithin Operation.leave now l w = (slots-IsWithin now l w).2
run-IsWithin Operation.llm_request now l w = (requests-IsWithin now l 0 0 w).0
run-IsWithin (Operation.reserve i o) now l w = (requests-IsWithin now l i o w).1
run-IsWithin (Operation.release r) now l w = release-IsWithin l r w
run-IsWithin (Operation.complete r i o p s) now l w = complete-IsWithin now l r i o p s w
run-IsWithin (Operation.usage i o p) now l w = usage-IsWithin now l i o p w

-- Whatever operations are called, when, and in whatever order, no counter of a ledger exceeds its
-- limit: tool calls, snapshot reads (each of which is a tool call), model requests, schema retries,
-- repair rounds, and slots in use at one moment.
pub Reach-IsWithin :
    (b : RunBudget) (opened : ℕ) (l : BudgetLedger)
    → Reach (open_ledger b opened) l
    → (l.tool_calls ≤ l.budget.max_tool_calls)
      × (l.snapshot_reads ≤ l.budget.max_snapshot_reads)
      × (l.llm_requests ≤ l.budget.max_llm_requests)
      × (l.schema_retries ≤ l.budget.max_schema_retries)
      × (l.repair_rounds ≤ l.budget.max_repair_rounds)
      × (l.snapshot_reads ≤ l.tool_calls)
      × (l.active_operations ≤ l.peak_concurrency)
      × (l.peak_concurrency ≤ l.budget.max_concurrency)
Reach-IsWithin b opened l Reach.here = open-IsWithin b opened
Reach-IsWithin b opened l (Reach.step {l = before} operation now p possible) =
    run-IsWithin operation now before (Reach-IsWithin b opened before p)
