-- ===== src/Projection/Changes.antt =====
-- observability/run_store.py: the writes of the branches of `RunProjection.apply` that need no text of
-- a JSON value.
use jindiao.Prelude.{
  ℕ, ◌+◌, min, String, Bool, true, ◌||◌, eqb, if◌then◌else◌, [], ◌∷◌, Option, none, some, is_none,
  not, Dict,
}
use jindiao.Errors.{Reason, Result, ok, err, ◌>>=◌, validation_error}
use jindiao.Contracts.Json.{ℤ, JsonValue, JsonFields, get_field, int_of, dict_of}
use jindiao.Runs.Repository.{RunStatus}
use jindiao.Projection.View.{RunStage, RunTerminationReason, BudgetView, RunResource, RunEvent}
use jindiao.Projection.Parts.{int_in, update_review}

-- The branches of `apply`, by the event's type.
pub data EventKind : Type 0 where
  run_started run_accepted phase_started phase_completed : EventKind
  run_completed report_completed run_partial run_failed run_cancelled : EventKind
  acquisition_started acquisition_completed snapshot_frozen : EventKind
  agent_event check_event review_event budget_event : EventKind
  section_completed section_event other_event : EventKind

-- what a write of `values` makes of a resource, by the kind of event
abbrev pub Change : Type 0
Change = RunResource → RunEvent → Result RunResource

-- `current.started_at or event.occurred_at`
abbrev pub or_now : ℕ → Option ℕ → Option ℕ
or_now now none = some now
or_now now (some at) = some at

abbrev pub start : RunStatus → Change
start status r event =
    ok (record r { status = status; started_at = or_now event.occurred_at r.started_at })

abbrev pub finish_run : RunStatus → RunTerminationReason → Change
finish_run status reason r event = ok (record r {
  status = status;
  stage = RunStage.terminal;
  completed_at = some event.occurred_at;
  termination = some reason;
})

abbrev pub finish_with_result : RunStatus → RunTerminationReason → Change
finish_with_result status reason r event = ok (record r {
  status = status;
  stage = RunStage.terminal;
  completed_at = some event.occurred_at;
  termination = some reason;
  result_available = true;
})

-- `report.completed` completes the Run, but leaves its termination.
abbrev pub finish_report : Change
finish_report r event = ok (record r {
  status = RunStatus.completed;
  stage = RunStage.terminal;
  completed_at = some event.occurred_at;
  result_available = not (is_none (get_field "result" event.payload)) || r.result_available;
})

abbrev pub is_zero : ℕ → Bool
is_zero n = eqb n 0

-- `current.reporting.total or 8`
abbrev pub section_total : ℕ → ℕ
section_total total = if is_zero total then 8 else total

abbrev pub finish_section : Change
finish_section r event = ok (record r {
  stage = RunStage.reporting;
  reporting = record {
    completed = min (section_total r.reporting.total) (r.reporting.completed + 1);
    total = section_total r.reporting.total;
  };
})

abbrev pub review_change : Change
review_change r event =
    ok (record r { stage = RunStage.adjudication; review = update_review r.review event })

-- `all(isinstance(value, int) for value in used.values())`, with the integers
abbrev pub add_count : String → Option ℤ → Option (Dict String ℤ) → Option (Dict String ℤ)
add_count key (some n) (some counts) = some ((key, n) ∷ counts)
add_count key _ _ = none

unfoldable pub counts_of : JsonFields → Option (Dict String ℤ)
counts_of JsonFields.no_fields = some []
counts_of (JsonFields.field key value fs) = add_count key (int_of value) (counts_of fs)

abbrev pub counts_in : Option JsonFields → Option (Dict String ℤ)
counts_in none = none
counts_in (some fields) = counts_of fields

abbrev pub counts_or : Dict String ℤ → Option (Dict String ℤ) → Dict String ℤ
counts_or current none = current
counts_or current (some counts) = counts

abbrev pub peak_of : ℕ → Option ℤ → Result ℕ
peak_of current none = ok current
peak_of current (some (ℤ.pos n)) = ok n
peak_of current (some (ℤ.negsuc n)) = err (validation_error Reason.out_of_range)

abbrev pub budget_of : BudgetView → JsonFields → Result BudgetView
budget_of current raw = do
  peak ← peak_of current.peak_concurrency (int_in (get_field "peak_concurrency" raw))
  ok (record {
    used = counts_or current.used (counts_in (dict_of (get_field "used" raw)));
    remaining = counts_or current.remaining (counts_in (dict_of (get_field "remaining" raw)));
    peak_concurrency = peak;
  })

abbrev pub budget_change : RunResource → Option JsonFields → Result RunResource
budget_change r none = ok r
budget_change r (some raw) = budget_of r.budget raw >>= λ view. ok (record r { budget = view })

-- the value, where it is not `None`
abbrev pub non_null : Option JsonValue → Option JsonValue
non_null (some JsonValue.null) = none
non_null value = value

abbrev pub first_of : Option JsonValue → Option JsonValue → Option JsonValue
first_of none second = second
first_of (some value) second = some value

abbrev pub field_in : String → Option JsonFields → Option JsonValue
field_in key none = none
field_in key (some fields) = get_field key fields
