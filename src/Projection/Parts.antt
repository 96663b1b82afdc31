-- ===== src/Projection/Parts.antt =====
-- observability/run_store.py: the helpers of `RunProjection.apply`, step progress included.
use Prim.Native.Char.{code}
use jindiao.Prelude.{
  ℕ, ◌+◌, max, String, String_discrete, Bool, true, false, not, ◌&&◌, ◌||◌, ◌==◌, eqb, leb,
  contains, if◌then◌else◌, List, [], ◌∷◌, map, length, keep, nonempty, Option, none, some, Dict,
  lookup, has_key, put,
}
use jindiao.Contracts.Json.{ℤ, JsonValue, get_field, int_of}
use jindiao.Acceptance.Results.{AgentStatus}
use jindiao.Projection.View.{
  RunStage, ExecutionStepState, RunProgress, AgentView, CheckView, ReviewView, RunResource,
  RunEvent, RunProjection, execution_step_ids,
}

-- `text.startswith(prefix)`
unfoldable pub starts_with : String → String → Bool
starts_with String.[] text = true
starts_with (String.◌∷◌ c prefix) String.[] = false
starts_with (String.◌∷◌ c prefix) (String.◌∷◌ d text) =
    let rest = starts_with prefix text in eqb (code c) (code d) && rest

-- `self._execution_states.setdefault(step_id, PENDING)`
abbrev pub add_pending : String → Dict String ExecutionStepState → Dict String ExecutionStepState
add_pending id states =
    if has_key String_discrete id states
    then states
    else put String_discrete id ExecutionStepState.pending states

unfoldable pub add_steps :
    List String → Dict String ExecutionStepState → Dict String ExecutionStepState
unfolding has_key put
add_steps [] states = states
add_steps (id ∷ ids) states = add_steps ids (add_pending id states)

abbrev pub is_completed_state : ExecutionStepState → Bool
is_completed_state ExecutionStepState.completed = true
is_completed_state _ = false

-- The counts of the steps.
abbrev pub progress_of_steps : Dict String ExecutionStepState → RunProgress
progress_of_steps states = record {
  completed = length (keep (λ (e : String × ExecutionStepState). is_completed_state e.1) states);
  total = length states;
}

abbrev pub step_events : List String
step_events =
    "execution.step.started" ∷ "execution.step.progress" ∷ "execution.step.completed"
    ∷ "execution.step.failed" ∷ []

-- `self._execution_sequences.get(step_id, 0)`
abbrev pub or_zero : Option ℕ → ℕ
or_zero none = 0
or_zero (some n) = n

-- A step that the plan does not have, or an event that is not newer than the step's last.
abbrev pub is_stale : RunProjection → RunEvent → Bool
is_stale p event =
    not (has_key String_discrete event.step.step_id p.execution_states)
    || leb event.sequence
        (or_zero (lookup String_discrete event.step.step_id p.execution_sequences))

abbrev pub record_step : RunProjection → RunEvent → RunProjection
record_step p event = record p {
  execution_states = put String_discrete event.step.step_id event.step.state p.execution_states;
  execution_sequences = put String_discrete event.step.step_id event.sequence p.execution_sequences;
}

abbrev pub counted : RunProjection → Option RunProgress × RunProjection
counted p = (some (progress_of_steps p.execution_states), p)

-- `_execution_progress`: the new progress, if there is one, and the projection with its dictionaries
-- written.
unfoldable pub execution_progress : RunProjection → RunEvent → Option RunProgress × RunProjection
unfolding add_steps has_key lookup put
execution_progress p event =
    if event.event_type == "execution.plan.created"
    then counted (record p { execution_states = add_steps execution_step_ids p.execution_states })
    else if contains step_events event.event_type && nonempty p.execution_states
    then (if is_stale p event then (none, p) else counted (record_step p event))
    else (none, p)

-- `values["progress"] = progress`, if there is one
abbrev pub with_progress : Option RunProgress → RunResource → RunResource
with_progress none r = r
with_progress (some progress) r = record r { progress = progress }

-- `RunStage(text)`
unfoldable pub stage_named : String → Option RunStage
stage_named text =
    if text == "accepted"
    then some RunStage.accepted
    else if text == "acquisition"
    then some RunStage.acquisition
    else if text == "snapshot"
    then some RunStage.snapshot
    else if text == "investigation"
    then some RunStage.investigation
    else if text == "adjudication"
    then some RunStage.adjudication
    else if text == "reporting"
    then some RunStage.reporting
    else if text == "terminal"
    then some RunStage.terminal
    else none

abbrev pub stage_or : RunStage → Option RunStage → RunStage
stage_or stage none = stage
stage_or stage (some named) = named

abbrev pub replace_agent : AgentView → List AgentView → List AgentView
replace_agent updated views =
    map (λ (v : AgentView). if v.agent_id == updated.agent_id then updated else v) views

-- `... or (updated,)`
abbrev pub or_single {ℓ} : {A : Type ℓ} → A → List A → List A
or_single a [] = a ∷ []
or_single a (x ∷ xs) = x ∷ xs

abbrev pub replace_check : CheckView → List CheckView → List CheckView
replace_check updated views =
    map (λ (v : CheckView). if v.check_id == updated.check_id then updated else v) views

abbrev pub agent_status : String → AgentStatus
agent_status event_type =
    if event_type == "agent.completed"
    then AgentStatus.completed
    else if event_type == "agent.failed"
    then AgentStatus.failed
    else if event_type == "agent.cancelled"
    then AgentStatus.cancelled
    else AgentStatus.running

abbrev pub check_status : String → String
check_status event_type =
    if event_type == "check.assigned"
    then "assigned"
    else if event_type == "check.started"
    then "running"
    else if event_type == "check.completed"
    then "completed"
    else if event_type == "submission.accepted"
    then "accepted"
    else "pending"

-- `_progress_from_checks`
abbrev pub progress_from_checks : List CheckView → RunProgress
progress_from_checks checks = record {
  completed =
      length (keep (λ (c : CheckView). c.status == "completed" || c.status == "accepted") checks);
  total = length checks;
}

abbrev pub one_if : Bool → ℕ
one_if true = 1
one_if false = 0

abbrev pub raised_round : ℕ → Option ℤ → ℕ
raised_round round (some (ℤ.pos n)) = max round n
raised_round round _ = round

abbrev pub int_in : Option JsonValue → Option ℤ
int_in none = none
int_in (some value) = int_of value

-- `_update_review`
unfoldable pub update_review : ReviewView → RunEvent → ReviewView
unfolding get_field
update_review r event = record {
  round = raised_round r.round (int_in (get_field "round" event.payload));
  status = if event.event_type == "review.submitted" then "completed" else "running";
  issue_count =
      r.issue_count
      + one_if (event.event_type == "review.issue" || event.event_type == "conflict.detected");
  repair_count =
      r.repair_count
      + one_if
          (event.event_type == "review.repair_requested" || event.event_type == "repair.requested");
}
