-- ===== src/Examples/Projections.antt =====
-- The projection and the publisher of observability/run_store.py at a short Run.
use jindiao.Prelude.{
  true, ◌≤◌, ◌≡◌, ◌⊎◌, refl, String, false, none, some, [], ◌∷◌, ◌++◌, max, ◌==◌, ◌+◌, false≢true,
  contains, decimal, if◌then◌else◌, le_refl, arith, length,
}
use jindiao.Errors.{Error, Reason, Checked, ok, err, validation_error}
use jindiao.Contracts.Check.{is_blank}
use jindiao.Contracts.Json.{JsonValue, JsonFields, get_field}
use jindiao.Acceptance.Results.{AgentStatus}
use jindiao.Runs.Repository.{RunStatus}
use jindiao.Events.Log.{RunEvent, append, is_terminal, last_sequence}
use jindiao.Projection.View.{RunStage, ExecutionStepState, RunResource, RunProjection}
use jindiao.Projection.Parts.{execution_progress, starts_with}
use jindiao.Projection.Apply.{agent_view, apply, apply_new, change_of, kind_of, upsert_agent}
use jindiao.Projection.Steps.{Applied}
use jindiao.Projection.Bounds.{Applied-IsConsistent, IsConsistent}
use jindiao.Projection.Views.{Applied-HasOneView}
use jindiao.Projection.Delivery.{apply-redelivered}
use jindiao.Projection.Publish.{
  event_types, EventBody, RunEventPublisher, projected, publish, publish_next, store_and_apply,
}
use jindiao.Projection.Refusal.{Attempts, IsCompleting, publish-stuck}
use jindiao.Projection.Complete.{Completion, complete}
use jindiao.Projection.Publishing.{publish-advances}

abbrev str : JsonValue → String
str (JsonValue.text s) = s
str _ = "None"

abbrev validate : String → String → Checked
validate event_type payload =
    if payload == "" then err (validation_error Reason.blank_field) else ok tt

-- the payload is the id of an agent
abbrev read : String → EventBody
read payload = record {
  occurred_at = 7;
  stage = RunStage.investigation;
  actor_id = "jindiao";
  actor_role = some "coordinator";
  check_id = none;
  fields = JsonFields.field "agent_id" (JsonValue.text payload) JsonFields.no_fields;
  step = record { step_id = "company-verification"; state = ExecutionStepState.running };
}

abbrev resource : RunResource
resource = record {
  identity = "run";
  status = RunStatus.running;
  stage = RunStage.investigation;
  started_at = some 1;
  completed_at = none;
  latest_sequence = 0;
  progress = record { completed = 0; total = 0 };
  acquisition = record { completed = 0; total = 0 };
  investigation = record { completed = 0; total = 0 };
  reporting = record { completed = 0; total = 0 };
  agents = [];
  checks = [];
  review = record { round = 0; status = "pending"; issue_count = 0; repair_count = 0 };
  budget = record { used = []; remaining = []; peak_concurrency = 0 };
  termination = none;
  result_available = false;
}

abbrev projection : RunProjection
projection = record { resource = resource; execution_states = []; execution_sequences = [] }

abbrev publisher : RunEventPublisher
publisher = record {
  run_id = "run";
  log = record { events = []; queues = []; max_queue = 4 };
  projection = projection;
  sequence = 0;
}

abbrev started : RunEvent
started = record {
  event_id = "run:1";
  event_type = "agent.started";
  run_id = "run";
  sequence = 1;
  payload = "alpha";
}

abbrev second : RunEvent
second = record started { event_id = "run:2"; sequence = 2; payload = "beta" }

-- the resource after the first agent
abbrev shown : RunResource
shown = record resource {
  latest_sequence = 1;
  agents =
      record {
        agent_id = "alpha";
        role = "coordinator";
        status = AgentStatus.running;
        phase = RunStage.investigation;
      }
      ∷ [];
}

applied : (apply str 9 projection (projected read started)).0 ≡ ok shown
unfolding apply apply_new execution_progress change_of kind_of starts_with upsert_agent agent_view
    get_field is_blank contains ◌==◌
applied = refl

apply-redelivered_example :
    (shown.latest_sequence ≡ max 0 1)
    × (apply str 9 (apply str 9 projection (projected read started)).1 (projected read started)
        ≡ (ok shown, (apply str 9 projection (projected read started)).1))
apply-redelivered_example =
    apply-redelivered str 9 projection (projected read started) (projected read started) shown
      applied (le_refl 1)

abbrev both : RunProjection
both = (apply str 9 (apply str 9 projection (projected read started)).1 (projected read second)).1

both_applied : Applied str 9 projection both
both_applied =
    Applied.applied (projected read second) (Applied.applied (projected read started) Applied.here)

Applied-IsConsistent_example : IsConsistent both.resource
Applied-IsConsistent_example =
    Applied-IsConsistent str 9 projection both
      (le_refl 0, le_refl 0, le_refl 0, le_refl 0, λ n. absurd (false≢true n)) both_applied

Applied-HasOneView_example : (length both.resource.agents ≤ 1) × (length both.resource.checks ≤ 1)
Applied-HasOneView_example =
    Applied-HasOneView str 9 projection both (omega arith) (omega arith) both_applied

abbrev published : RunEventPublisher
published = record publisher {
  log = record { events = started ∷ []; queues = []; max_queue = 4 };
  projection = record projection { resource = shown };
  sequence = 1;
}

published_first :
    publish validate read str 9 publisher "agent.started" "alpha" ≡ (ok started, published)
unfolding publish publish_next store_and_apply append is_terminal last_sequence decimal apply
    apply_new execution_progress change_of kind_of starts_with upsert_agent agent_view get_field
    is_blank contains ◌==◌
published_first = refl

publish-advances_example :
    (started ∷ [] ≡ [] ++ started ∷ [])
    × (started.sequence ≡ last_sequence [] + 1)
    × (published.sequence ≡ started.sequence)
    × (shown.latest_sequence ≡ started.sequence)
publish-advances_example =
    publish-advances validate read str 9 publisher published "agent.started" "alpha" started
      (omega arith) published_first

abbrev stopped : RunEventPublisher
stopped = (publish validate read str 9 publisher "agent.started" "").1

blank_refused : validate "agent.started" "" ≡ err (validation_error Reason.blank_field)
unfolding ◌==◌
blank_refused = refl

known_type : contains event_types "agent.started" ≡ true
unfolding contains ◌==◌
known_type = refl

abbrev saved : RunResource → Checked
saved r = ok tt

-- the result is not written: the text of the second event does not validate
abbrev unwritten : Completion
unwritten = record {
  is_partial = false;
  phase_payload = "reporting";
  report_payload = "";
  terminal_payload = "completed";
}

abbrev written : Completion
written = record unwritten { report_payload = "{}" }

abbrev attempted : RunEventPublisher
attempted = (complete validate read str 9 saved stopped unwritten).1

abbrev ended : RunEventPublisher
ended = (complete validate read str 9 saved attempted written).1

publish-stuck_example :
    ((ended.log ≡ publisher.log)
      × ((later_type later_payload : String)
          → (raised : Error) × ((publish validate read str 9 ended later_type later_payload).0
              ≡ err raised)))
    ⊎ IsCompleting publisher.log.events ended.log.events
publish-stuck_example =
    publish-stuck validate read str 9 saved publisher ended "agent.started" ""
      (validation_error Reason.blank_field) known_type blank_refused
      (Attempts.completed written (Attempts.completed unwritten Attempts.here))

abbrev finished : RunEventPublisher
finished = (complete validate read str 9 saved publisher written).1
