-- ===== src/Projection/Publish.antt =====
-- observability/run_store.py: `RunEventPublisher.publish`. The event of the store carries its fields as
-- a text, `payload`; `read`, their reading, is a parameter, as are the validators of the event and the
-- parameters of the projection.
use Prim.Native.String.{◌++◌ as concat}
use jindiao.Prelude.{List, [], ◌∷◌, contains, ℕ, String, ltb, if◌then◌else◌, decimal, Option}
use jindiao.Errors.{Reason, Result, Checked, ok, err, value_error}
use jindiao.Contracts.Json.{JsonValue, JsonFields}
use jindiao.Events.Log.{RunEvent, RunLog, append, last_sequence, next_number}
use jindiao.Projection.View.{
  ExecutionStepSnapshot, RunStage, RunResource, RunProjection, RunEvent as ProjectedEvent,
}
use jindiao.Projection.Apply.{apply}

-- The values of `EventType`, `LifecycleEventType` and `ExecutionEventType`.
abbrev pub event_types : List String
event_types =
    "run.accepted" ∷ "acquisition.started" ∷ "acquisition.completed" ∷ "snapshot.frozen"
    ∷ "snapshot.read" ∷ "snapshot.read_denied" ∷ "model.request.started" ∷ "model.request.completed"
    ∷ "check.assigned" ∷ "check.started" ∷ "check.completed" ∷ "submission.accepted"
    ∷ "submission.rejected" ∷ "review.submitted" ∷ "review.issue" ∷ "review.repair_requested"
    ∷ "budget.updated" ∷ "budget.exhausted" ∷ "entity.resolved" ∷ "plan.created" ∷ "agent.started"
    ∷ "evidence.collected" ∷ "source.fallback" ∷ "conflict.detected" ∷ "repair.requested"
    ∷ "section.completed" ∷ "report.completed" ∷ "skill_evolution.proposed" ∷ "run.failed"
    ∷ "run.started" ∷ "run.phase.started" ∷ "run.phase.completed" ∷ "run.completed" ∷ "run.partial"
    ∷ "run.cancel_requested" ∷ "run.cancelled" ∷ "agent.completed" ∷ "agent.failed"
    ∷ "agent.cancelled" ∷ "execution.plan.created" ∷ "execution.step.started"
    ∷ "execution.step.progress" ∷ "execution.step.completed" ∷ "execution.step.failed" ∷ []

-- what the text of an event holds
pub record EventBody : Type 0 where
  pub occurred_at : ℕ
  pub stage : RunStage
  pub actor_id : String
  pub actor_role : Option String
  pub check_id : Option String
  pub fields : JsonFields
  pub step : ExecutionStepSnapshot

abbrev pub projected : (String → EventBody) → RunEvent → ProjectedEvent
projected read e =
    let body = read e.payload in
    record {
      event_type = e.event_type;
      sequence = e.sequence;
      occurred_at = body.occurred_at;
      stage = body.stage;
      actor_id = body.actor_id;
      actor_role = body.actor_role;
      check_id = body.check_id;
      payload = body.fields;
      step = body.step;
    }

-- A `RunEventPublisher`: the entries of its run in the event store, its projection, and the number of
-- its sequencer.
pub record RunEventPublisher : Type 0 where
  pub run_id : String
  pub log : RunLog
  pub projection : RunProjection
  pub sequence : ℕ

abbrev pub Published : Type 0
Published = Result RunEvent × RunEventPublisher

-- `if persisted_sequence > self._sequencer.sequence: self._sequencer.restore(persisted_sequence)`
abbrev pub caught_up : ℕ → ℕ → ℕ
caught_up persisted sequence = if ltb sequence persisted then persisted else sequence

abbrev pub event_of : String → ℕ → String → String → RunEvent
event_of run_id number event_type payload = record {
  event_id = concat (concat run_id ":") (decimal number);
  event_type = event_type;
  run_id = run_id;
  sequence = number;
  payload = payload;
}

module _ (validate : String → String → Checked) (read : String → EventBody)
    (str : JsonValue → String) (total : ℕ) where
  abbrev pub with_projection :
      RunEventPublisher → RunEvent → Result RunResource × RunProjection → Published
  with_projection p event (ok r, q) = (ok event, record p { projection = q })
  with_projection p event (err e, q) = (err e, record p { projection = q })

  -- `append`, and `apply` after it
  unfoldable pub store_and_apply :
      RunEventPublisher → RunEvent → Result (RunEvent × RunLog) → Published
  unfolding apply
  store_and_apply p event (ok stored) =
      with_projection (record p { log = stored.1 }) event
        (apply str total p.projection (projected read event))
  store_and_apply p event (err e) = (err e, p)

  -- The event that `next` makes is validated after the number is taken.
  unfoldable pub publish_next : RunEventPublisher → RunEvent → Checked → Published
  unfolding append store_and_apply
  publish_next p event (ok valid) = store_and_apply p event (append event p.log)
  publish_next p event (err e) = (err e, p)

  -- `publish`: a name of no event type is refused before the number is taken
  unfoldable pub publish : RunEventPublisher → String → String → Published
  unfolding publish_next decimal last_sequence contains
  publish p event_type payload =
      let restored = caught_up (last_sequence p.log.events) p.sequence in
      let number = (next_number restored).0 in
      let published =
        publish_next (record p { sequence = number }) (event_of p.run_id number event_type payload)
          (validate event_type payload) in
      if contains event_types event_type
      then published
      else (err (value_error Reason.unknown_event_type), record p { sequence = restored })
