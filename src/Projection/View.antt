-- ===== src/Projection/View.antt =====
-- contracts/runs.py and contracts/execution_steps.py: what a Run shows, and an event as it is read.
use jindiao.Prelude.{ℕ, String, Bool, List, [], ◌∷◌, Option, Dict}
use jindiao.Contracts.Json.{ℤ, JsonFields}
use jindiao.Acceptance.Results.{AgentStatus}
use jindiao.Runs.Repository.{RunStatus}

pub data RunStage : Type 0 where
  accepted acquisition snapshot investigation adjudication reporting terminal : RunStage

pub data RunTerminationReason : Type 0 where
  completed partial failed cancelled deadline_exceeded : RunTerminationReason
  budget_exhausted schema_retry_exhausted context_invalidated interrupted : RunTerminationReason

pub data ExecutionStepState : Type 0 where
  pending running completed failed cancelled : ExecutionStepState

-- The percentage is computed from the two counts, and left out.
pub record RunProgress : Type 0 where
  pub completed : ℕ
  pub total : ℕ

pub record AgentView : Type 0 where
  pub agent_id : String
  pub role : String
  pub status : AgentStatus
  pub phase : RunStage

pub record CheckView : Type 0 where
  pub check_id : String
  pub status : String
  pub agent_id : String

pub record ReviewView : Type 0 where
  pub round : ℕ
  pub status : String
  pub issue_count : ℕ
  pub repair_count : ℕ

pub record BudgetView : Type 0 where
  pub used : Dict String ℤ
  pub remaining : Dict String ℤ
  pub peak_concurrency : ℕ

-- The fields that the projection reads or writes; `identity` stands for the others.
pub record RunResource : Type 0 where
  pub identity : String
  pub status : RunStatus
  pub stage : RunStage
  pub started_at : Option ℕ
  pub completed_at : Option ℕ
  pub latest_sequence : ℕ
  pub progress : RunProgress
  pub acquisition : RunProgress
  pub investigation : RunProgress
  pub reporting : RunProgress
  pub agents : List AgentView
  pub checks : List CheckView
  pub review : ReviewView
  pub budget : BudgetView
  pub termination : Option RunTerminationReason
  pub result_available : Bool

-- `EXECUTION_STEP_IDS`
abbrev pub execution_step_ids : List String
execution_step_ids =
    "company-verification" ∷ "ownership-and-relations" ∷ "business-and-supply-chain"
    ∷ "finance-cashflow-solvency" ∷ "external-risk-screening" ∷ "cross-risk-review"
    ∷ "structured-report-generation" ∷ []

pub record ExecutionStepSnapshot : Type 0 where
  pub step_id : String
  pub state : ExecutionStepState

-- The parts of a `RunEvent` that the projection reads. `step` is the snapshot in the payload of an
-- execution event, which the validators of the event have parsed already.
pub record RunEvent : Type 0 where
  pub event_type : String
  pub sequence : ℕ
  pub occurred_at : ℕ
  pub stage : RunStage
  pub actor_id : String
  pub actor_role : Option String
  pub check_id : Option String
  pub payload : JsonFields
  pub step : ExecutionStepSnapshot

-- A `RunProjection`: the resource and its two private dictionaries.
pub record RunProjection : Type 0 where
  pub resource : RunResource
  pub execution_states : Dict String ExecutionStepState
  pub execution_sequences : Dict String ℕ
