-- ===== src/Review/Charge.antt =====
-- investigation/review.py: the repair round that `submit_review` charges to the ledger, described by the
-- counters of the ledger before and after it.
use jindiao.Prelude.{
  ℕ, ◌+◌, ◌<◌, ◌≡◌, ◌⊎◌, inl, inr, refl, arith, Bool, true, false, Option, none, some, Bool-cases,
  Option-cases, leb, ltb,
}
use jindiao.Errors.{Error, Reason, Checked, ok, err}
use jindiao.Budget.Ledger.{BudgetLedger, Outcome}
use jindiao.Budget.Claims.{claim_repair_round}
use jindiao.Review.Submit.{charge_round}

-- A round that is charged is counted, and there was one left; without a charge or without a ledger,
-- the ledger stays.
abbrev pub IsCounted : Bool → Option BudgetLedger → Option BudgetLedger → Type 0
IsCounted charged none left = left ≡ none
IsCounted false (some l) left = left ≡ some l
IsCounted true (some l) left =
    (l.repair_rounds < l.budget.max_repair_rounds)
    × (left ≡ some (record l { repair_rounds = l.repair_rounds + 1 }))

-- A round that is refused is not counted: at most the reason of the refusal is noted.
abbrev pub IsRefused : Bool → Option BudgetLedger → Option BudgetLedger → Type 0
IsRefused charged none left = left ≡ none
IsRefused false (some l) left = left ≡ some l
IsRefused true (some l) left =
    (left ≡ some l)
    ⊎ ((reason : Reason) × (left ≡ some (record l { exhausted_reason = some reason })))

pub same-IsRefused :
    (charged : Bool) (ledger : Option BudgetLedger) → IsRefused charged ledger ledger
same-IsRefused charged none = refl
same-IsRefused false (some l) = refl
same-IsRefused true (some l) = inl refl

abbrev pub IsCharge : Bool → Option BudgetLedger → Checked × Option BudgetLedger → Type 0
IsCharge charged ledger c =
    ((c.0 ≡ ok tt) × IsCounted charged ledger c.1)
    ⊎ ((e : Error) × (c.0 ≡ err e) × IsRefused charged ledger c.1)

abbrev paired : Outcome (Unit {0}) → Checked × Option BudgetLedger
paired c = (c.0, some c.1)

claim-IsCharge :
    (at : ℕ) (l : BudgetLedger) → IsCharge true (some l) (paired (claim_repair_round at l))
unfolding claim_repair_round
claim-IsCharge at l = elim (Bool-cases (ltb l.deadline at)) [
  | inl late ↦ rw late (inr (_, refl, inr (Reason.deadline_exceeded, refl)))
  | inr early ↦ elim (Option-cases l.exhausted_reason) [
    | inr (reason, p) ↦ rw (early, p) (inr (_, refl, inl refl))
    | inl p ↦ elim (Bool-cases (leb l.budget.max_repair_rounds l.repair_rounds)) [
      | inl used ↦ rw (early, p, used) (inr (_, refl, inr (Reason.repair_rounds_exhausted, refl)))
      | inr left ↦ rw (early, p, left) (inl (refl, (ground arith, refl)))
    ]
  ]
]

pub charge_round-IsCharge :
    (charged : Bool) (at : ℕ) (ledger : Option BudgetLedger)
    → IsCharge charged ledger (charge_round charged at ledger)
unfolding charge_round
charge_round-IsCharge charged at none = inl (refl, refl)
charge_round-IsCharge false at (some l) = inl (refl, refl)
charge_round-IsCharge true at (some l) = claim-IsCharge at l
