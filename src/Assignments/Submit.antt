-- ===== src/Assignments/Submit.antt =====
-- investigation/assignments.py: the canonical plan, the validation of a plan, `submit` and the tools.
-- `sha256`, the digest of a plan's canonical JSON by the standard library, is a parameter.
use jindiao.Prelude.{
  ℕ, List, [], map, String, String_discrete, Bool, true, false, not, ◌||◌, ◌==◌, eqb, unique,
  subset, is_yes, if◌then◌else◌, Option, none, some, Dict, lookup, update,
}
use jindiao.Errors.{
  Reason, Error, Result, Checked, ok, err, ◌>>=◌, ◌>>◌, raise_if, or_key_error, for_each, traverse,
  value_error, is_validation_error,
}
use jindiao.Contracts.Catalog.{DueDiligenceCheckDefinition}
use jindiao.Blackboard.State.{strips_to_nothing}
use jindiao.Budget.Ledger.{BudgetLedger, Outcome}
use jindiao.Budget.Claims.{claim_tool_call, claim_schema_retry}
use jindiao.Assignments.Plan.{
  CheckAssignment, CheckAssignmentPlan, Plan-discrete, AssignmentReceipt, AssignmentBoard,
  enabled_checks, task_of, validate_assignment, validate_plan_fields,
}

-- The assignment of a check to the agent of its role.
abbrev pub assignment_of : DueDiligenceCheckDefinition → String → CheckAssignment
assignment_of d agent = record {
  task_id = task_of d.check_id;
  check_id = d.check_id;
  assigned_agent_id = agent;
  required_submodule_ids = d.required_submodule_ids;
  optional_submodule_ids = d.optional_submodule_ids;
  prompt_template_id = d.prompt_template_id;
  output_schema_version = d.output_schema_version;
}

-- `CheckAssignmentPlan.model_validate`
abbrev pub model_validate_plan : CheckAssignmentPlan → Result CheckAssignmentPlan
model_validate_plan p = validate_plan_fields p >> ok p

-- `==` on two tuples of texts
unfoldable pub Texts-discrete : Discrete (List String)
Texts-discrete = hlevel String_discrete

-- `{item.check_id: item for item in plan.assignments}`
abbrev pub by_id : List CheckAssignment → Dict String CheckAssignment
by_id assignments =
    update String_discrete [] (map (λ (a : CheckAssignment). (a.check_id, a)) assignments)

abbrev pub assigned_checks : CheckAssignmentPlan → List String
assigned_checks p = map (λ (a : CheckAssignment). a.check_id) p.assignments

abbrev pub assigned_tasks : CheckAssignmentPlan → List String
assigned_tasks p = map (λ (a : CheckAssignment). a.task_id) p.assignments

module _ (b : AssignmentBoard) where
  -- `self.role_agent_ids[role]`
  abbrev pub agent_of_role : String → Result String
  agent_of_role role = or_key_error (lookup String_discrete role b.role_agent_ids)

  abbrev pub assign : DueDiligenceCheckDefinition → Result CheckAssignment
  assign d = do
    agent ← agent_of_role d.owner_role
    validate_assignment (assignment_of d agent)
    ok (assignment_of d agent)

  abbrev pub plan_of : String → List CheckAssignment → CheckAssignmentPlan
  plan_of prompt_version assignments = record {
    run_id = b.run_id;
    snapshot_id = b.snapshot_id;
    snapshot_sha256 = b.snapshot_sha256;
    subject_id = b.subject_id;
    check_catalog_version = b.check_catalog.catalog_version;
    prompt_version = prompt_version;
    assignment_version = 1;
    assignments = assignments;
  }

  -- `_canonical_plan`
  unfoldable pub canonical_plan : String → Result CheckAssignmentPlan
  unfolding validate_assignment validate_plan_fields
  canonical_plan prompt_version = do
    assignments ← traverse assign (enabled_checks b.check_catalog)
    model_validate_plan (plan_of prompt_version assignments)

  -- The body of the loop of `_validate_plan`, on the assignment of the check.
  unfoldable pub check_assignment : DueDiligenceCheckDefinition → CheckAssignment → Checked
  check_assignment d a = agent_of_role d.owner_role >>= λ owner.
      raise_if (not (a.assigned_agent_id == owner)) (value_error Reason.owner_mismatch)
      >> (raise_if (not (a.task_id == task_of d.check_id)) (value_error Reason.task_mismatch)
          >> raise_if
              (not (is_yes (Texts-discrete a.required_submodule_ids d.required_submodule_ids))
                || not (is_yes (Texts-discrete a.optional_submodule_ids d.optional_submodule_ids))
                || not (a.prompt_template_id == d.prompt_template_id)
                || not (a.output_schema_version == d.output_schema_version))
              (value_error Reason.scope_mismatch))

  abbrev pub expected_ids : List String
  expected_ids =
      map (λ (d : DueDiligenceCheckDefinition). d.check_id) (enabled_checks b.check_catalog)

  abbrev pub check_definition : Dict String CheckAssignment → DueDiligenceCheckDefinition → Checked
  check_definition assigned d =
      or_key_error (lookup String_discrete d.check_id assigned) >>= check_assignment d

  -- `_validate_plan`
  unfoldable pub validate_plan : CheckAssignmentPlan → Checked
  unfolding check_assignment
  validate_plan p = do
    raise_if
        (not (p.run_id == b.run_id)
          || not (p.snapshot_id == b.snapshot_id)
          || not (p.snapshot_sha256 == b.snapshot_sha256)
          || not (p.subject_id == b.subject_id))
        (value_error Reason.identity_mismatch)
    raise_if (not (p.check_catalog_version == b.check_catalog.catalog_version))
        (value_error Reason.another_catalog_version)
    raise_if (not (unique (assigned_checks p)) || not (unique (assigned_tasks p)))
        (value_error Reason.duplicate_assignment)
    raise_if
        (not (subset (assigned_checks p) expected_ids)
          || not (subset expected_ids (assigned_checks p)))
        (value_error Reason.coverage_mismatch)
    for_each (check_definition (by_id p.assignments)) (enabled_checks b.check_catalog)

module _ (sha256 : CheckAssignmentPlan → String) where
  -- `_receipt`
  abbrev pub assignment_receipt :
      AssignmentBoard → CheckAssignmentPlan → Bool → ℕ → AssignmentReceipt
  assignment_receipt b p replay now = record {
    run_id = b.run_id;
    snapshot_id = b.snapshot_id;
    assignment_version = p.assignment_version;
    assignment_sha256 = sha256 p;
    accepted = true;
    idempotent_replay = replay;
    accepted_at = now;
  }

  -- The end of `submit`, by the plan that the board holds.
  unfoldable pub store_plan :
      AssignmentBoard
      → CheckAssignmentPlan
      → ℕ
      → Option CheckAssignmentPlan
      → Result (AssignmentReceipt × AssignmentBoard)
  store_plan b p now (some held) = do
    raise_if (not (is_yes (Plan-discrete held p))) (value_error Reason.version_collision)
    ok (assignment_receipt b p true now, b)
  store_plan b p now none = do
    raise_if (not (eqb p.assignment_version 1)) (value_error Reason.initial_version_not_one)
    ok (assignment_receipt b p false now, record b { plan = some p })

  -- `submit`
  unfoldable pub submit_plan :
      AssignmentBoard
      → CheckAssignmentPlan
      → String
      → ℕ
      → Result (AssignmentReceipt × AssignmentBoard)
  unfolding store_plan validate_plan validate_plan_fields
  submit_plan b p leader now = do
    raise_if (not (leader == b.leader_agent_id)) (value_error Reason.not_the_leader)
    validated ← model_validate_plan p
    validate_plan b validated
    store_plan b validated now b.plan

-- The board and the ledger that the tools charge, if there is one.
pub record AssignmentTools : Type 0 where
  pub board : AssignmentBoard
  pub ledger : Option BudgetLedger

abbrev pub ToolOutcome : Type 0
ToolOutcome = Result AssignmentReceipt × AssignmentTools

abbrev pub after_claim : AssignmentTools → Outcome (Unit {0}) → Checked × AssignmentTools
after_claim s o = (o.0, record s { ledger = some o.1 })

-- `if self._budget_ledger is not None: await self._budget_ledger.claim_...(...)`
abbrev pub charge :
    (ℕ → BudgetLedger → Outcome (Unit {0}))
    → ℕ
    → AssignmentTools
    → Option BudgetLedger
    → Checked × AssignmentTools
charge claim now s none = (ok tt, s)
charge claim now s (some l) = after_claim s (claim now l)

abbrev pub keep_board : AssignmentTools → Result (AssignmentReceipt × AssignmentBoard) → ToolOutcome
keep_board s (ok out) = (ok out.0, record s { board = out.1 })
keep_board s (err e) = (err e, s)

abbrev pub go_on : Checked × AssignmentTools → (AssignmentTools → ToolOutcome) → ToolOutcome
go_on (ok done, s) next = next s
go_on (err e, s) next = (err e, s)

-- Raise the error, unless the claim before it raised another.
abbrev pub raise_after : Error → Checked × AssignmentTools → ToolOutcome
raise_after e (ok done, s) = (err e, s)
raise_after e (err raised, s) = (err raised, s)

module _ (sha256 : CheckAssignmentPlan → String) where
  -- The part of `submit_check_assignments` after the call of `model_validate`.
  unfoldable pub submit_parsed :
      String → ℕ → AssignmentTools → Result CheckAssignmentPlan → ToolOutcome
  unfolding submit_plan claim_schema_retry
  submit_parsed leader now s (ok parsed) =
      keep_board s (submit_plan sha256 s.board parsed leader now)
  submit_parsed leader now s (err e) =
      raise_after e
        (if is_validation_error e then charge claim_schema_retry now s s.ledger else (ok tt, s))

  -- The tool `submit_check_assignments` of `build_submit_assignments_tool`, on a dictionary that has
  -- the fields of a plan.
  unfoldable pub submit_check_assignments :
      String → CheckAssignmentPlan → ℕ → AssignmentTools → ToolOutcome
  unfolding claim_tool_call submit_parsed
  submit_check_assignments leader plan now s =
      go_on (charge claim_tool_call now s s.ledger)
        (λ t. submit_parsed leader now t (model_validate_plan plan))

  -- The tool of `build_submit_canonical_assignments_tool`.
  unfoldable pub submit_canonical_assignments : String → String → ℕ → AssignmentTools → ToolOutcome
  unfolding claim_tool_call canonical_plan submit_plan
  submit_canonical_assignments leader prompt_version now s =
      go_on (charge claim_tool_call now s s.ledger) (λ t. keep_board t (
        canonical_plan t.board prompt_version >>= λ plan.
        submit_plan sha256 t.board plan leader now))

-- The guard of `build_submit_canonical_assignments_tool`.
unfoldable pub check_canonical_tool : String → Checked
unfolding strips_to_nothing
check_canonical_tool prompt_version =
    raise_if (strips_to_nothing prompt_version) (value_error Reason.blank_prompt_version)
