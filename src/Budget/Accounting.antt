-- ===== src/Budget/Accounting.antt =====
-- The requests and the tokens of a budget ledger add up.
use jindiao.Prelude.{
  ℕ, ◌+◌, ◌≤◌, ◌≡◌, refl, arith, Bool, true, Option, List, [], ◌∷◌, length, Bool-cases, inl, inr,
  same_iff,
}
use jindiao.Errors.{ok}
use jindiao.Budget.Ledger.{
  RunBudget, LlmReservation, Reservation-discrete, BudgetLedger, open_ledger,
}
use jindiao.Budget.Claims.{
  claim_tool_call, claim_snapshot_read, claim_schema_retry, claim_repair_round, check_deadline,
  enter_slot, leave_slot,
}
use jindiao.Budget.Tokens.{
  claim_llm_request, reserve_llm_request, release_llm_request, complete_llm_request,
  record_llm_usage, drop_reservation, settle, settled, check_recorded_usage, holds, remove,
}
use jindiao.Budget.Cost.{
  ExecutionCost, reconcile_usage, to_execution_cost, usage_snapshot, cost_of_usage,
}
use jindiao.Budget.Steps.{Operation, run, Reach}

unfoldable pub input_sum : List LlmReservation → ℕ
input_sum [] = 0
input_sum (r ∷ rs) = r.input_tokens + input_sum rs

unfoldable pub output_sum : List LlmReservation → ℕ
output_sum [] = 0
output_sum (r ∷ rs) = r.output_tokens + output_sum rs

-- what the removal of a held reservation takes away
length-remove :
    (r : LlmReservation) (rs : List LlmReservation)
    → holds r rs ≡ true
    → length rs ≡ length (remove r rs) + 1
unfolding holds remove
length-remove r [] h = cc
length-remove r (x ∷ rs) h = ground (arith, same_iff Reservation-discrete x r, length-remove r rs)

input_sum-remove :
    (r : LlmReservation) (rs : List LlmReservation)
    → holds r rs ≡ true
    → input_sum rs ≡ input_sum (remove r rs) + r.input_tokens
unfolding holds remove input_sum
input_sum-remove r [] h = cc
input_sum-remove r (x ∷ rs) h =
    ground (arith, same_iff Reservation-discrete x r, input_sum-remove r rs)

output_sum-remove :
    (r : LlmReservation) (rs : List LlmReservation)
    → holds r rs ≡ true
    → output_sum rs ≡ output_sum (remove r rs) + r.output_tokens
unfolding holds remove output_sum
output_sum-remove r [] h = cc
output_sum-remove r (x ∷ rs) h =
    ground (arith, same_iff Reservation-discrete x r, output_sum-remove r rs)

-- The tokens reserved are those of the reservations held; every request that is pending, reserved or
-- successful has been counted; and usage is reported by successful requests only.
abbrev pub IsAccounted : BudgetLedger → Type 0
IsAccounted l =
    (l.reserved_input_tokens ≡ input_sum l.reservations)
    × (l.reserved_output_tokens ≡ output_sum l.reservations)
    × (l.legacy_pending_requests + length l.reservations + l.successful_llm_requests
        ≤ l.llm_requests)
    × (l.provider_usage_requests ≤ l.successful_llm_requests)

open-IsAccounted : (b : RunBudget) (now : ℕ) → IsAccounted (open_ledger b now)
unfolding open_ledger input_sum output_sum
open-IsAccounted b now = ground arith

module _ (now : ℕ) (l : BudgetLedger) where
  claims-IsAccounted :
      IsAccounted l
      → IsAccounted (claim_tool_call now l).1
        × IsAccounted (claim_snapshot_read now l).1
        × IsAccounted (claim_schema_retry now l).1
        × IsAccounted (claim_repair_round now l).1
        × IsAccounted (check_deadline now l).1
        × IsAccounted (enter_slot now l).1
        × IsAccounted (leave_slot l).1
        × IsAccounted (claim_llm_request now l).1
  unfolding claim_tool_call claim_snapshot_read claim_schema_retry claim_repair_round check_deadline
      enter_slot leave_slot claim_llm_request
  claims-IsAccounted w = (
    ground arith,
    ground arith,
    ground arith,
    ground arith,
    ground arith,
    ground arith,
    ground arith,
    ground arith,
  )

  reserve-IsAccounted : (i o : ℕ) → IsAccounted l → IsAccounted (reserve_llm_request now i o l).1
  unfolding reserve_llm_request input_sum output_sum
  reserve-IsAccounted i o w = ground arith

  recorded-IsAccounted : IsAccounted l → IsAccounted (check_recorded_usage now l).1
  unfolding check_recorded_usage
  recorded-IsAccounted w = ground arith

  release-IsAccounted :
      (r : LlmReservation) → IsAccounted l → IsAccounted (release_llm_request r l).1
  unfolding release_llm_request drop_reservation
  release-IsAccounted r w = ground (
    arith,
    length-remove r l.reservations,
    input_sum-remove r l.reservations,
    output_sum-remove r l.reservations,
  )

  settled-IsAccounted :
      (r : LlmReservation) (i o : Option ℕ) (p s : Bool)
      → holds r l.reservations ≡ true
      → IsAccounted l
      → IsAccounted (settled r i o p s l)
  unfolding settle drop_reservation
  settled-IsAccounted r i o p s h w = ground (
    arith,
    length-remove r l.reservations h,
    input_sum-remove r l.reservations h,
    output_sum-remove r l.reservations h,
  )

complete-IsAccounted :
    (now : ℕ) (l : BudgetLedger) (r : LlmReservation) (i o : Option ℕ) (p s : Bool)
    → IsAccounted l
    → IsAccounted (complete_llm_request now r i o p s l).1
unfolding complete_llm_request
complete-IsAccounted now l r i o p s w = elim (Bool-cases (holds r l.reservations)) [
  | inl h ↦
      rw h
        (recorded-IsAccounted now (settled r i o p s l) (settled-IsAccounted now l r i o p s h w))
  | inr h ↦ rw h w
]

usage-IsAccounted :
    (now : ℕ) (l : BudgetLedger) (i o : ℕ) (p : Bool)
    → IsAccounted l
    → IsAccounted (record_llm_usage now i o p l).1
unfolding record_llm_usage check_recorded_usage
usage-IsAccounted now l i o p w = ground arith

run-IsAccounted :
    (operation : Operation) (now : ℕ) (l : BudgetLedger)
    → IsAccounted l
    → IsAccounted (run operation now l)
unfolding run
run-IsAccounted Operation.tool_call now l w = (claims-IsAccounted now l w).0
run-IsAccounted Operation.snapshot_read now l w = (claims-IsAccounted now l w).1
run-IsAccounted Operation.schema_retry now l w = (claims-IsAccounted now l w).2
run-IsAccounted Operation.repair_round now l w = (claims-IsAccounted now l w).3
run-IsAccounted Operation.deadline_check now l w = (claims-IsAccounted now l w).4
run-IsAccounted Operation.enter now l w = (claims-IsAccounted now l w).5
run-IsAccounted Operation.leave now l w = (claims-IsAccounted now l w).6
run-IsAccounted Operation.llm_request now l w = (claims-IsAccounted now l w).7
run-IsAccounted (Operation.reserve i o) now l w = reserve-IsAccounted now l i o w
run-IsAccounted (Operation.release r) now l w = release-IsAccounted now l r w
run-IsAccounted (Operation.complete r i o p s) now l w = complete-IsAccounted now l r i o p s w
run-IsAccounted (Operation.usage i o p) now l w = usage-IsAccounted now l i o p w

reach-IsAccounted :
    (b : RunBudget) (opened : ℕ) {l : BudgetLedger} → Reach (open_ledger b opened) l → IsAccounted l
reach-IsAccounted b opened Reach.here = open-IsAccounted b opened
reach-IsAccounted b opened (Reach.step {l = before} operation now p possible) =
    run-IsAccounted operation now before (reach-IsAccounted b opened p)

-- At every moment of a run the tokens that a ledger holds in reserve are the sums over the
-- reservations that it has given out and not settled.
pub Reach-reserved :
    (b : RunBudget) (opened : ℕ) (l : BudgetLedger)
    → Reach (open_ledger b opened) l
    → (l.reserved_input_tokens ≡ input_sum l.reservations)
      × (l.reserved_output_tokens ≡ output_sum l.reservations)
Reach-reserved b opened l p = let w = reach-IsAccounted b opened p in (w.0, w.1)

-- The cost of a ledger can be reported at every moment of a run: it passes the reconciliation of
-- ExecutionCost, whatever was called, and its total is its input plus its output.
pub to_execution_cost-Reach :
    (b : RunBudget) (opened now : ℕ) (l : BudgetLedger)
    → Reach (open_ledger b opened) l
    → (c : ExecutionCost) × (to_execution_cost now l ≡ ok c)
      × (c.successful_llm_requests ≤ c.llm_requests)
      × (c.llm_requests ≡ l.llm_requests)
      × (c.total_tokens ≡ l.input_tokens + l.output_tokens)
unfolding to_execution_cost reconcile_usage cost_of_usage usage_snapshot
to_execution_cost-Reach b opened now l p =
    let w = reach-IsAccounted b opened p in
    (cost_of_usage (usage_snapshot now l), ground arith, ground arith, refl, refl)
