-- ===== src/Budget/Ledger.antt =====
-- orchestration/base.py: `RunBudget`, the state of a `BudgetLedger`, and the steps that all its
-- operations are made of. A step returns the ledger also when it raises, since an exhausted budget
-- is recorded before the exception leaves. The clock is the argument `now`, in milliseconds.
use jindiao.Prelude.{
  ℕ, ◌+◌, ◌*◌, Bool, ltb, if◌then◌else◌, List, [], Option, none, some, ℕ_discrete,
}
use jindiao.Errors.{
  Reason, Error, Result, Checked, ok, err, raise_if, execution_error, validation_error,
}

pub record RunBudget : Type 0 where
  pub max_tool_calls : ℕ
  pub max_concurrency : ℕ
  pub timeout_seconds : ℕ
  pub max_repair_rounds : ℕ
  pub max_llm_requests : ℕ
  pub max_input_tokens : ℕ
  pub max_output_tokens : ℕ
  pub max_total_tokens : ℕ
  pub enforce_token_budget : Bool
  pub max_schema_retries : ℕ
  pub max_snapshot_reads : ℕ

-- `validate_token_limits`
abbrev pub validate_token_limits : RunBudget → Checked
validate_token_limits b =
    raise_if (ltb (b.max_input_tokens + b.max_output_tokens) b.max_total_tokens)
      (validation_error Reason.token_limits_inconsistent)

-- An opaque object, compared by identity: the handle stands for the identity.
pub record LlmReservation : Type 0 where
  pub handle : ℕ
  pub input_tokens : ℕ
  pub output_tokens : ℕ

unfoldable pub Reservation-discrete : Discrete LlmReservation
Reservation-discrete = hlevel ℕ_discrete

-- `next_handle` is the identity of the next object that is made.
pub record BudgetLedger : Type 0 where
  pub budget : RunBudget
  pub started_at : ℕ
  pub deadline : ℕ
  pub tool_calls : ℕ
  pub snapshot_reads : ℕ
  pub llm_requests : ℕ
  pub successful_llm_requests : ℕ
  pub provider_usage_requests : ℕ
  pub input_tokens : ℕ
  pub output_tokens : ℕ
  pub legacy_pending_requests : ℕ
  pub reservations : List LlmReservation
  pub next_handle : ℕ
  pub reserved_input_tokens : ℕ
  pub reserved_output_tokens : ℕ
  pub unknown_usage_requests : ℕ
  pub unreported_input_tokens : ℕ
  pub unreported_output_tokens : ℕ
  pub schema_retries : ℕ
  pub repair_rounds : ℕ
  pub active_operations : ℕ
  pub peak_concurrency : ℕ
  pub exhausted_reason : Option Reason

-- `BudgetLedger.__init__`
unfoldable pub open_ledger : RunBudget → ℕ → BudgetLedger
open_ledger budget now = record {
  budget = budget;
  started_at = now;
  deadline = now + budget.timeout_seconds * 1000;
  tool_calls = 0;
  snapshot_reads = 0;
  llm_requests = 0;
  successful_llm_requests = 0;
  provider_usage_requests = 0;
  input_tokens = 0;
  output_tokens = 0;
  legacy_pending_requests = 0;
  reservations = [];
  next_handle = 0;
  reserved_input_tokens = 0;
  reserved_output_tokens = 0;
  unknown_usage_requests = 0;
  unreported_input_tokens = 0;
  unreported_output_tokens = 0;
  schema_retries = 0;
  repair_rounds = 0;
  active_operations = 0;
  peak_concurrency = 0;
  exhausted_reason = none;
}

-- What a step returns, and the ledger it leaves.
abbrev pub Outcome : Type 0 → Type 0
Outcome A = Result A × BudgetLedger

abbrev pub Step : Type 0 → Type 0
Step A = BudgetLedger → Outcome A

abbrev pub continue_with : {A B : Type 0} → Outcome A → (A → Step B) → Outcome B
continue_with (ok a, l) f = f a l
continue_with (err e, l) f = (err e, l)

infixl 5 ◌>>=◌ ◌>>◌
abbrev pub ◌>>=◌ : {A B : Type 0} → Step A → (A → Step B) → Step B
m >>= f = λ l. continue_with (m l) f

abbrev pub ◌>>◌ : {B : Type 0} → Step (Unit {0}) → Step B → Step B
m >> k = λ l. continue_with (m l) (λ u. k)

abbrev pub modify : (BudgetLedger → BudgetLedger) → Step (Unit {0})
modify f = λ l. (ok tt, f l)

abbrev pub fail_if : (BudgetLedger → Bool) → Error → Step (Unit {0})
fail_if c e = λ l. (raise_if (c l) e, l)

-- `_exhaust`, under a guard
abbrev pub exhaust_if : (BudgetLedger → Bool) → Reason → Step (Unit {0})
exhaust_if c reason = λ l.
    if c l
    then (err (execution_error reason), record l { exhausted_reason = some reason })
    else (ok tt, l)

-- `_ensure_deadline`
abbrev pub ensure_deadline : ℕ → Step (Unit {0})
ensure_deadline now = exhaust_if (λ l. ltb l.deadline now) Reason.deadline_exceeded

abbrev pub raise_exhausted : Option Reason → Checked
raise_exhausted none = ok tt
raise_exhausted (some reason) = err (execution_error reason)

-- `_ensure_available`
abbrev pub ensure_available : ℕ → Step (Unit {0})
ensure_available now = do ensure_deadline now; λ l. (raise_exhausted l.exhausted_reason, l)
