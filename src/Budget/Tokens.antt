-- ===== src/Budget/Tokens.antt =====
-- orchestration/base.py: the operations of `BudgetLedger` on model requests and their tokens.
-- The source refuses negative token counts with a `ValueError`; here they are natural numbers.
use jindiao.Prelude.{
  ℕ, ◌+◌, ◌-◌, min, Bool, true, false, not, ◌&&◌, ◌||◌, ltb, leb, if◌then◌else◌, is_yes, List, [],
  ◌∷◌, Option, none, some,
}
use jindiao.Errors.{Reason, ok, value_error, execution_error}
use jindiao.Budget.Ledger.{
  LlmReservation, Reservation-discrete, BudgetLedger, Step, ◌>>◌, modify, fail_if, exhaust_if,
  ensure_available, ensure_deadline,
}

unfoldable pub claim_llm_request : ℕ → Step (Unit {0})
claim_llm_request now = do
  ensure_available now
  exhaust_if (λ l. leb l.budget.max_llm_requests l.llm_requests) Reason.llm_requests_exhausted
  modify (λ l. record l {
    llm_requests = l.llm_requests + 1;
    legacy_pending_requests = l.legacy_pending_requests + 1;
  })

abbrev pub committed_input : BudgetLedger → ℕ
committed_input l = l.input_tokens + l.reserved_input_tokens + l.unreported_input_tokens

abbrev pub committed_output : BudgetLedger → ℕ
committed_output l = l.output_tokens + l.reserved_output_tokens + l.unreported_output_tokens

-- Where the source's differences are negative these are 0, and both fail the test `< 1`.
abbrev pub bounded_output : ℕ → ℕ → BudgetLedger → ℕ
bounded_output input output l =
    if l.budget.enforce_token_budget
    then min output (
        min (l.budget.max_output_tokens - committed_output l)
          (l.budget.max_total_tokens - committed_input l - committed_output l - input))
    else output

abbrev pub lacks_tokens : ℕ → ℕ → BudgetLedger → Bool
lacks_tokens input output l =
    l.budget.enforce_token_budget
    && (ltb l.budget.max_input_tokens (committed_input l + input)
        || ltb (bounded_output input output l) 1)

abbrev pub reservation_of : ℕ → ℕ → BudgetLedger → LlmReservation
reservation_of input output l = record {
  handle = l.next_handle;
  input_tokens = input;
  output_tokens = bounded_output input output l;
}

abbrev pub add_reservation : LlmReservation → BudgetLedger → BudgetLedger
add_reservation r l = record l {
  reservations = r ∷ l.reservations;
  next_handle = l.next_handle + 1;
  reserved_input_tokens = l.reserved_input_tokens + r.input_tokens;
  reserved_output_tokens = l.reserved_output_tokens + r.output_tokens;
  llm_requests = l.llm_requests + 1;
}

unfoldable pub reserve_llm_request : ℕ → ℕ → ℕ → Step LlmReservation
reserve_llm_request now input output = do
  fail_if (λ l. ltb output 1) (value_error Reason.bad_reservation)
  ensure_available now
  exhaust_if (λ l. leb l.budget.max_llm_requests l.llm_requests) Reason.llm_requests_exhausted
  exhaust_if (lacks_tokens input output) Reason.tokens_exhausted_before_request
  λ l. (ok (reservation_of input output l), add_reservation (reservation_of input output l) l)

unfoldable pub holds : LlmReservation → List LlmReservation → Bool
holds r [] = false
holds r (x ∷ xs) = is_yes (Reservation-discrete x r) || holds r xs

unfoldable pub remove : LlmReservation → List LlmReservation → List LlmReservation
remove r [] = []
remove r (x ∷ xs) =
    let rest = remove r xs in if is_yes (Reservation-discrete x r) then xs else x ∷ rest

-- `_remove_reservation` of a reservation that is held
unfoldable pub drop_reservation : LlmReservation → BudgetLedger → BudgetLedger
unfolding remove
drop_reservation r l = record l {
  reservations = remove r l.reservations;
  reserved_input_tokens = l.reserved_input_tokens - r.input_tokens;
  reserved_output_tokens = l.reserved_output_tokens - r.output_tokens;
}

unfoldable pub release_llm_request : LlmReservation → Step (Unit {0})
unfolding holds drop_reservation
release_llm_request r = modify (λ l.
    if holds r l.reservations
    then (let d = drop_reservation r l in record d { llm_requests = d.llm_requests - 1 })
    else l)

-- `_check_recorded_usage`
unfoldable pub check_recorded_usage : ℕ → Step (Unit {0})
check_recorded_usage now = do
  exhaust_if
      (λ l.
        l.budget.enforce_token_budget
        && (ltb l.budget.max_input_tokens l.input_tokens
            || ltb l.budget.max_output_tokens l.output_tokens
            || ltb l.budget.max_total_tokens (l.input_tokens + l.output_tokens)))
      Reason.tokens_exhausted
  ensure_deadline now

abbrev pub or_zero : Option ℕ → ℕ
or_zero none = 0
or_zero (some n) = n

abbrev pub is_some : Option ℕ → Bool
is_some none = false
is_some (some n) = true

abbrev pub add_if : Bool → ℕ → ℕ
add_if c n = if c then n + 1 else n

-- The variables of `complete_llm_request`: known, observed_input and observed_output.
pub record Observed : Type 0 where
  pub known : Bool
  pub observed_input : ℕ
  pub observed_output : ℕ

abbrev pub observe : Bool → LlmReservation → Option ℕ → Option ℕ → Bool → Bool → Observed
observe enforce r input output provider succeeded =
    let reported = provider && is_some input && is_some output in
    if not reported && succeeded && not enforce
    then record { known = true; observed_input = r.input_tokens; observed_output = r.output_tokens }
    else record {
      known = reported;
      observed_input = or_zero input;
      observed_output = or_zero output;
    }

unfoldable pub settle : LlmReservation → Observed → Bool → BudgetLedger → BudgetLedger
settle r o succeeded l =
    let unknown = not o.known || not succeeded in
    record l {
      successful_llm_requests = add_if (succeeded || o.known) l.successful_llm_requests;
      provider_usage_requests = add_if o.known l.provider_usage_requests;
      input_tokens = l.input_tokens + o.observed_input;
      output_tokens = l.output_tokens + o.observed_output;
      unknown_usage_requests = add_if unknown l.unknown_usage_requests;
      unreported_input_tokens =
          l.unreported_input_tokens + (if unknown then r.input_tokens - o.observed_input else 0);
      unreported_output_tokens =
          l.unreported_output_tokens + (if unknown then r.output_tokens - o.observed_output else 0);
    }

-- The ledger between the removal of the reservation and the check of the recorded usage.
abbrev pub settled :
    LlmReservation → Option ℕ → Option ℕ → Bool → Bool → BudgetLedger → BudgetLedger
settled r input output provider succeeded l =
    settle r (observe l.budget.enforce_token_budget r input output provider succeeded) succeeded
      (drop_reservation r l)

unfoldable pub complete_llm_request :
    ℕ → LlmReservation → Option ℕ → Option ℕ → Bool → Bool → Step (Unit {0})
unfolding holds drop_reservation settle check_recorded_usage
complete_llm_request now r input output provider succeeded = λ l.
    if holds r l.reservations
    then check_recorded_usage now (settled r input output provider succeeded l)
    else (ok tt, l)

-- `usage.provider_usage` of `record_llm_usage` decides which counter grows.
unfoldable pub record_llm_usage : ℕ → ℕ → ℕ → Bool → Step (Unit {0})
unfolding check_recorded_usage
record_llm_usage now input output provider = do
  fail_if (λ l. ltb l.legacy_pending_requests 1) (execution_error Reason.no_claimed_request)
  modify (λ l. record l {
    legacy_pending_requests = l.legacy_pending_requests - 1;
    successful_llm_requests = l.successful_llm_requests + 1;
    provider_usage_requests = add_if provider l.provider_usage_requests;
    unknown_usage_requests = add_if (not provider) l.unknown_usage_requests;
    input_tokens = l.input_tokens + input;
    output_tokens = l.output_tokens + output;
  })
  check_recorded_usage now
