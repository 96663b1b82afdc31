-- ===== src/Projection/Apply.antt =====
-- observability/run_store.py: `RunProjection.apply`. `str`, the text of a JSON value by Python's `str`,
-- and the number of submodules of the default acquisition plan, which a configuration file holds, are
-- parameters.
use jindiao.Prelude.{
  ℕ, max, String, ◌||◌, ◌==◌, leb, contains, if◌then◌else◌, List, [], ◌∷◌, Option, none, some,
}
use jindiao.Errors.{Reason, Result, ok, err, ◌>>=◌, ◌>>◌, raise_if, validation_error}
use jindiao.Contracts.Check.{is_blank}
use jindiao.Contracts.Json.{JsonValue, get_field, dict_of}
use jindiao.Runs.Repository.{RunStatus}
use jindiao.Projection.View.{
  RunStage, RunTerminationReason, RunProgress, AgentView, CheckView, RunResource, RunEvent,
  RunProjection,
}
use jindiao.Projection.Parts.{
  agent_status, check_status, execution_progress, or_single, progress_from_checks, replace_agent,
  replace_check, stage_named, stage_or, starts_with, update_review, with_progress,
}
use jindiao.Projection.Changes.{
  EventKind, Change, start, finish_run, finish_with_result, finish_report, finish_section,
  review_change, counts_of, budget_change, non_null, first_of, field_in,
}

module _ (str : JsonValue → String) (acquisition_total : ℕ) where
  abbrev text_or : String → Option JsonValue → String
  text_or default none = default
  text_or default (some value) = str value

  abbrev role_or : Option String → String
  role_or none = "agent"
  role_or (some role) = if is_blank role then "agent" else role

  -- The view that `_upsert_agent` writes.
  unfoldable pub agent_view : RunEvent → AgentView
  unfolding get_field is_blank
  agent_view event =
      let agent = dict_of (get_field "agent" event.payload) in
      record {
        agent_id =
            text_or (text_or event.actor_id (get_field "agent_id" event.payload))
              (field_in "agent_id" agent);
        role = text_or (role_or event.actor_role) (field_in "role" agent);
        status = agent_status event.event_type;
        phase = event.stage;
      }

  -- `_upsert_agent`
  unfoldable pub upsert_agent : List AgentView → RunEvent → Result (List AgentView)
  unfolding agent_view
  upsert_agent current event = do
    raise_if (is_blank (agent_view event).agent_id || is_blank (agent_view event).role)
        (validation_error Reason.blank_field)
    ok (or_single (agent_view event) (replace_agent (agent_view event) current))

  abbrev investigation_or : RunStage → RunStage
  investigation_or RunStage.accepted = RunStage.investigation
  investigation_or stage = stage

  abbrev pub agent_change : Change
  agent_change r event = do
    agents ← upsert_agent r.agents event
    ok (record r { stage = investigation_or event.stage; agents = agents })

  abbrev pub check_in : Option String → List CheckView → RunEvent → Result (List CheckView)
  check_in none current event = ok current
  check_in (some check_id) current event =
      let updated : CheckView = record {
        check_id = check_id;
        status = check_status event.event_type;
        agent_id = event.actor_id;
      } in
      raise_if (is_blank check_id) (validation_error Reason.blank_field)
      >> ok (or_single updated (replace_check updated current))

  abbrev texts : Option JsonValue → Option String
  texts none = none
  texts (some value) = some (str value)

  -- the check that an event is about: its own, or one that the payload names
  abbrev check_of : RunEvent → Option String → Option String
  check_of event (some check_id) = some check_id
  check_of event none = texts (
      first_of (non_null (get_field "check_id" event.payload))
        (non_null (field_in "check_id" (dict_of (get_field "check" event.payload)))))

  -- `_upsert_check`
  unfoldable pub upsert_check : List CheckView → RunEvent → Result (List CheckView)
  unfolding get_field
  upsert_check current event = check_in (check_of event event.check_id) current event

  abbrev pub check_change : Change
  check_change r event = do
    checks ← upsert_check r.checks event
    ok (record r {
      stage = RunStage.investigation;
      checks = checks;
      investigation = progress_from_checks checks;
    })

  -- the stage that a phase event names, and its own where that is no stage
  abbrev pub phase_stage : RunEvent → RunStage
  phase_stage event = elim (get_field "stage" event.payload) [
    | none ↦ event.stage
    | some value ↦ stage_or event.stage (stage_named (str value))
  ]

  abbrev pub acquired : ℕ → Change
  acquired completed r event = ok (record r {
    stage = RunStage.acquisition;
    acquisition = record { completed = completed; total = acquisition_total };
  })

  unfoldable pub change_of : EventKind → Change
  unfolding upsert_agent upsert_check counts_of update_review stage_named get_field
  change_of EventKind.run_started r event = start RunStatus.running r event
  change_of EventKind.run_accepted r event = start RunStatus.accepted r event
  change_of EventKind.phase_started r event =
      ok (record r { status = RunStatus.running; stage = phase_stage event })
  change_of EventKind.phase_completed r event = ok (record r { stage = phase_stage event })
  change_of EventKind.run_completed r event =
      finish_with_result RunStatus.completed RunTerminationReason.completed r event
  change_of EventKind.report_completed r event = finish_report r event
  change_of EventKind.run_partial r event =
      finish_with_result RunStatus.partial RunTerminationReason.partial r event
  change_of EventKind.run_failed r event =
      finish_run RunStatus.failed RunTerminationReason.failed r event
  change_of EventKind.run_cancelled r event =
      finish_run RunStatus.cancelled RunTerminationReason.cancelled r event
  change_of EventKind.acquisition_started r event = acquired 0 r event
  change_of EventKind.acquisition_completed r event = acquired acquisition_total r event
  change_of EventKind.snapshot_frozen r event = ok (record r { stage = RunStage.snapshot })
  change_of EventKind.agent_event r event = agent_change r event
  change_of EventKind.check_event r event = check_change r event
  change_of EventKind.review_event r event = review_change r event
  change_of EventKind.budget_event r event =
      budget_change r (dict_of (get_field "budget" event.payload))
  change_of EventKind.section_completed r event = finish_section r event
  change_of EventKind.section_event r event = ok (record r { stage = RunStage.reporting })
  change_of EventKind.other_event r event = ok r

-- The chain of tests on the type of an event.
unfoldable pub kind_of : String → EventKind
unfolding starts_with
kind_of t =
    if t == "run.started"
    then EventKind.run_started
    else if t == "run.accepted"
    then EventKind.run_accepted
    else if t == "run.phase.started"
    then EventKind.phase_started
    else if t == "run.phase.completed"
    then EventKind.phase_completed
    else if t == "run.completed"
    then EventKind.run_completed
    else if t == "report.completed"
    then EventKind.report_completed
    else if t == "run.partial"
    then EventKind.run_partial
    else if t == "run.failed"
    then EventKind.run_failed
    else if t == "run.cancelled"
    then EventKind.run_cancelled
    else if t == "acquisition.started"
    then EventKind.acquisition_started
    else if t == "acquisition.completed"
    then EventKind.acquisition_completed
    else if t == "snapshot.frozen"
    then EventKind.snapshot_frozen
    else if contains ("agent.started" ∷ "agent.completed" ∷ "agent.failed" ∷ "agent.cancelled" ∷ [])
        t
    then EventKind.agent_event
    else if starts_with "check." t || t == "submission.accepted"
    then EventKind.check_event
    else if starts_with "review." t || t == "repair.requested"
    then EventKind.review_event
    else if starts_with "budget." t
    then EventKind.budget_event
    else if t == "section.completed"
    then EventKind.section_completed
    else if starts_with "section." t
    then EventKind.section_event
    else EventKind.other_event

-- What the first writes of `apply` make of the resource.
abbrev pub advanced : Option RunProgress → RunEvent → RunResource → RunResource
advanced progress event r =
    with_progress progress (record r { latest_sequence = max r.latest_sequence event.sequence })

abbrev pub write_back : RunProjection → Result RunResource → Result RunResource × RunProjection
write_back p (ok r) = (ok r, record p { resource = r })
write_back p (err e) = (err e, p)

module _ (str : JsonValue → String) (acquisition_total : ℕ) where
  -- `apply`, on an event that is newer than the resource
  unfoldable pub apply_new : RunProjection → RunEvent → Result RunResource × RunProjection
  unfolding change_of kind_of execution_progress
  apply_new p event =
      let (progress, q) = execution_progress p event in
      write_back q (
        change_of str acquisition_total (kind_of event.event_type)
          (advanced progress event p.resource) event)

  -- `apply`
  unfoldable pub apply : RunProjection → RunEvent → Result RunResource × RunProjection
  unfolding apply_new
  apply p event =
      if leb event.sequence p.resource.latest_sequence
      then (ok p.resource, p)
      else apply_new p event
