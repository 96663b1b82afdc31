-- ===== src/Budget/Steps.antt =====
-- The runs of a budget ledger: every operation as one step, and the ledgers that they reach.
use jindiao.Prelude.{ℕ, ◌≤◌, Bool, Option}
use jindiao.Budget.Ledger.{LlmReservation, BudgetLedger}
use jindiao.Budget.Claims.{
  claim_tool_call, claim_snapshot_read, claim_schema_retry, claim_repair_round, check_deadline,
  enter_slot, leave_slot,
}
use jindiao.Budget.Tokens.{
  claim_llm_request, reserve_llm_request, release_llm_request, complete_llm_request,
  record_llm_usage,
}

pub data Operation : Type 0 where
  tool_call snapshot_read schema_retry repair_round deadline_check enter leave llm_request :
      Operation
  reserve : ℕ → ℕ → Operation
  release : LlmReservation → Operation
  complete : LlmReservation → Option ℕ → Option ℕ → Bool → Bool → Operation
  usage : ℕ → ℕ → Bool → Operation

-- The ledger after an operation at a time, whether it raised or not.
unfoldable pub run : Operation → ℕ → BudgetLedger → BudgetLedger
run Operation.tool_call now l = (claim_tool_call now l).1
run Operation.snapshot_read now l = (claim_snapshot_read now l).1
run Operation.schema_retry now l = (claim_schema_retry now l).1
run Operation.repair_round now l = (claim_repair_round now l).1
run Operation.deadline_check now l = (check_deadline now l).1
run Operation.enter now l = (enter_slot now l).1
run Operation.leave now l = (leave_slot l).1
run Operation.llm_request now l = (claim_llm_request now l).1
run (Operation.reserve i o) now l = (reserve_llm_request now i o l).1
run (Operation.release r) now l = (release_llm_request r l).1
run (Operation.complete r i o p s) now l = (complete_llm_request now r i o p s l).1
run (Operation.usage i o p) now l = (record_llm_usage now i o p l).1

-- A slot is left by an operation that has entered it.
abbrev pub IsPossible : Operation → BudgetLedger → Type 0
IsPossible Operation.leave l = 1 ≤ l.active_operations
IsPossible _ l = Unit

-- The ledgers that the concurrent users of a budget can bring about, by any interleaving of their
-- operations at any times.
pub data Reach (start : BudgetLedger) : BudgetLedger → Type 0 where
  here : Reach start start
  step :
      {l : BudgetLedger} (operation : Operation) (now : ℕ)
      → Reach start l
      → IsPossible operation l
      → Reach start (run operation now l)
