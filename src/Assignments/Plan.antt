-- ===== src/Assignments/Plan.antt =====
-- investigation/assignments.py: assignments, plans, the board and its construction.
use Prim.Native.String.{◌++◌ as concat}
use jindiao.Prelude.{
  ℕ, List, [], ◌∷◌, ◌++◌, map, String, String_discrete, ℕ_discrete, Bool, not, any, eqb, keep,
  nonempty, unique, subset, Option, none, Dict,
}
use jindiao.Errors.{
  Reason, Result, Checked, ok, ◌>>◌, raise_if, for_each, value_error, validation_error,
}
use jindiao.Contracts.Check.{is_blank, is_sha256}
use jindiao.Contracts.Catalog.{DueDiligenceCheckDefinition, DueDiligenceCheckCatalog}

pub record CheckAssignment : Type 0 where
  pub task_id : String
  pub check_id : String
  pub assigned_agent_id : String
  pub required_submodule_ids : List String
  pub optional_submodule_ids : List String
  pub prompt_template_id : String
  pub output_schema_version : String

pub record CheckAssignmentPlan : Type 0 where
  pub run_id : String
  pub snapshot_id : String
  pub snapshot_sha256 : String
  pub subject_id : String
  pub check_catalog_version : String
  pub prompt_version : String
  pub assignment_version : ℕ
  pub assignments : List CheckAssignment

-- `==` on two plans
unfoldable pub Plan-discrete : Discrete CheckAssignmentPlan
Plan-discrete = hlevel (String_discrete, ℕ_discrete)

pub record AssignmentReceipt : Type 0 where
  pub run_id : String
  pub snapshot_id : String
  pub assignment_version : ℕ
  pub assignment_sha256 : String
  pub accepted : Bool
  pub idempotent_replay : Bool
  pub accepted_at : ℕ

-- The declared fields of an assignment and `unique_submodule_scope`.
unfoldable pub validate_assignment : CheckAssignment → Checked
unfolding is_blank unique
validate_assignment a = do
  raise_if
      (any is_blank (
        a.task_id ∷ a.check_id ∷ a.assigned_agent_id ∷ a.prompt_template_id
        ∷ a.output_schema_version ∷ []))
      (validation_error Reason.blank_field)
  raise_if (not (nonempty a.required_submodule_ids)) (validation_error Reason.blank_field)
  raise_if (not (unique (a.required_submodule_ids ++ a.optional_submodule_ids)))
      (validation_error Reason.assignment_scope_not_unique)

-- The declared fields of a plan, those of its assignments included.
unfoldable pub validate_plan_fields : CheckAssignmentPlan → Checked
unfolding validate_assignment is_sha256
validate_plan_fields p = do
  raise_if
      (any is_blank
        (p.run_id ∷ p.snapshot_id ∷ p.subject_id ∷ p.check_catalog_version ∷ p.prompt_version ∷ []))
      (validation_error Reason.blank_field)
  raise_if (not (is_sha256 p.snapshot_sha256)) (validation_error Reason.not_a_sha256)
  raise_if (eqb p.assignment_version 0) (validation_error Reason.out_of_range)
  raise_if (not (nonempty p.assignments)) (validation_error Reason.blank_field)
  for_each validate_assignment p.assignments

-- The state of an `AssignmentBlackboard`; the clock and the ledger are arguments of its operations.
pub record AssignmentBoard : Type 0 where
  pub run_id : String
  pub snapshot_id : String
  pub snapshot_sha256 : String
  pub subject_id : String
  pub check_catalog : DueDiligenceCheckCatalog
  pub role_agent_ids : Dict String String
  pub leader_agent_id : String
  pub plan : Option CheckAssignmentPlan

abbrev pub enabled_checks : DueDiligenceCheckCatalog → List DueDiligenceCheckDefinition
enabled_checks catalog = keep (λ d. d.enabled) catalog.checks

-- `f"check:{check_id}"`
unfoldable pub task_of : String → String
task_of check_id = concat "check:" check_id

-- `AssignmentBlackboard.__init__`
unfoldable pub create_assignments :
    String
    → String
    → String
    → String
    → DueDiligenceCheckCatalog
    → Dict String String
    → String
    → Result AssignmentBoard
unfolding is_blank subset
create_assignments run_id snapshot_id snapshot_sha256 subject_id catalog roles leader = do
  raise_if (any is_blank (run_id ∷ snapshot_id ∷ snapshot_sha256 ∷ subject_id ∷ []))
      (value_error Reason.empty_identity)
  raise_if
      (not (
        subset (map (λ (d : DueDiligenceCheckDefinition). d.owner_role) (enabled_checks catalog))
          (map (λ (e : String × String). e.0) roles)))
      (value_error Reason.no_agent_for_role)
  ok (record {
    run_id = run_id;
    snapshot_id = snapshot_id;
    snapshot_sha256 = snapshot_sha256;
    subject_id = subject_id;
    check_catalog = catalog;
    role_agent_ids = roles;
    leader_agent_id = leader;
    plan = none;
  })
