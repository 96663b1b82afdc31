-- ===== src/Budget/Exhaustion.antt =====
-- An exhausted ledger stays exhausted, and grants nothing.
use jindiao.Prelude.{ℕ, ◌≡◌, arith, Bool, true, false, Option, is_none, Bool-cases, inl, inr}
use jindiao.Errors.{Result, ok, err, execution_error}
use jindiao.Budget.Ledger.{LlmReservation, BudgetLedger}
use jindiao.Budget.Claims.{
  claim_tool_call, claim_snapshot_read, claim_schema_retry, claim_repair_round, check_deadline,
  enter_slot, leave_slot,
}
use jindiao.Budget.Tokens.{
  claim_llm_request, reserve_llm_request, release_llm_request, complete_llm_request,
  record_llm_usage, drop_reservation, settle, settled, check_recorded_usage, holds,
}
use jindiao.Budget.Steps.{Operation, run, Reach}

-- `ledger._exhausted_reason is not None`
abbrev pub IsExhausted : BudgetLedger → Type 0
IsExhausted l = is_none l.exhausted_reason ≡ false

abbrev pub is_raised : {A : Type 0} → Result A → Bool
is_raised (ok a) = false
is_raised (err (execution_error e)) = true
is_raised (err e) = false

module _ (now : ℕ) (l : BudgetLedger) where
  claims-stay :
      IsExhausted l
      → IsExhausted (claim_tool_call now l).1
        × IsExhausted (claim_snapshot_read now l).1
        × IsExhausted (claim_schema_retry now l).1
        × IsExhausted (claim_repair_round now l).1
        × IsExhausted (check_deadline now l).1
        × IsExhausted (enter_slot now l).1
        × IsExhausted (leave_slot l).1
        × IsExhausted (claim_llm_request now l).1
  unfolding claim_tool_call claim_snapshot_read claim_schema_retry claim_repair_round check_deadline
      enter_slot leave_slot claim_llm_request
  claims-stay w = (
    ground arith,
    ground arith,
    ground arith,
    ground arith,
    ground arith,
    ground arith,
    ground arith,
    ground arith,
  )

  reserve-stays : (i o : ℕ) → IsExhausted l → IsExhausted (reserve_llm_request now i o l).1
  unfolding reserve_llm_request
  reserve-stays i o w = ground arith

  recorded-stays : IsExhausted l → IsExhausted (check_recorded_usage now l).1
  unfolding check_recorded_usage
  recorded-stays w = ground arith

  release-stays : (r : LlmReservation) → IsExhausted l → IsExhausted (release_llm_request r l).1
  unfolding release_llm_request drop_reservation
  release-stays r w = ground arith

settled-stays :
    (l : BudgetLedger) (r : LlmReservation) (i o : Option ℕ) (p s : Bool)
    → IsExhausted l
    → IsExhausted (settled r i o p s l)
unfolding settle drop_reservation
settled-stays l r i o p s w = w

complete-stays :
    (now : ℕ) (l : BudgetLedger) (r : LlmReservation) (i o : Option ℕ) (p s : Bool)
    → IsExhausted l
    → IsExhausted (complete_llm_request now r i o p s l).1
unfolding complete_llm_request
complete-stays now l r i o p s w = elim (Bool-cases (holds r l.reservations)) [
  | inl h ↦ rw h (recorded-stays now (settled r i o p s l) (settled-stays l r i o p s w))
  | inr h ↦ rw h w
]

usage-stays :
    (now : ℕ) (l : BudgetLedger) (i o : ℕ) (p : Bool)
    → IsExhausted l
    → IsExhausted (record_llm_usage now i o p l).1
unfolding record_llm_usage check_recorded_usage
usage-stays now l i o p w = ground arith

run-stays :
    (operation : Operation) (now : ℕ) (l : BudgetLedger)
    → IsExhausted l
    → IsExhausted (run operation now l)
unfolding run
run-stays Operation.tool_call now l w = (claims-stay now l w).0
run-stays Operation.snapshot_read now l w = (claims-stay now l w).1
run-stays Operation.schema_retry now l w = (claims-stay now l w).2
run-stays Operation.repair_round now l w = (claims-stay now l w).3
run-stays Operation.deadline_check now l w = (claims-stay now l w).4
run-stays Operation.enter now l w = (claims-stay now l w).5
run-stays Operation.leave now l w = (claims-stay now l w).6
run-stays Operation.llm_request now l w = (claims-stay now l w).7
run-stays (Operation.reserve i o) now l w = reserve-stays now l i o w
run-stays (Operation.release r) now l w = release-stays now l r w
run-stays (Operation.complete r i o p s) now l w = complete-stays now l r i o p s w
run-stays (Operation.usage i o p) now l w = usage-stays now l i o p w

-- Once a budget is exhausted it stays so at every later moment, and then every claim, slot and
-- reservation (of at least one output token) is refused with an AgentExecutionError.
pub Reach-IsExhausted :
    (start l : BudgetLedger) (now i o : ℕ)
    → IsExhausted start
    → Reach start l
    → IsExhausted l
      × (is_raised (claim_tool_call now l).0 ≡ true)
      × (is_raised (claim_snapshot_read now l).0 ≡ true)
      × (is_raised (claim_llm_request now l).0 ≡ true)
      × (is_raised (reserve_llm_request now i (ℕ.suc o) l).0 ≡ true)
      × (is_raised (claim_schema_retry now l).0 ≡ true)
      × (is_raised (claim_repair_round now l).0 ≡ true)
      × (is_raised (check_deadline now l).0 ≡ true)
      × (is_raised (enter_slot now l).0 ≡ true)
unfolding claim_tool_call claim_snapshot_read claim_schema_retry claim_repair_round check_deadline
    enter_slot claim_llm_request reserve_llm_request
Reach-IsExhausted start l now i o w p =
    let e = stays p in
    (
      e,
      ground arith,
      ground arith,
      ground arith,
      ground arith,
      ground arith,
      ground arith,
      ground arith,
      ground arith,
    )
  where
    stays : {m : BudgetLedger} → Reach start m → IsExhausted m
    stays Reach.here = w
    stays (Reach.step {l = before} operation at q possible) =
        run-stays operation at before (stays q)
