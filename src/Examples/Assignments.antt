-- ===== src/Examples/Assignments.antt =====
-- investigation/assignments.py at a catalog with one check.
use jindiao.Prelude.{
  ◌≡◌, refl, String, false, String_discrete, true, some, none, [], ◌∷◌, lookup, ◌==◌, contains,
  subset, unique, All,
}
use jindiao.Errors.{ok}
use jindiao.Contracts.Check.{is_blank, is_sha256}
use jindiao.Budget.Ledger.{open_ledger}
use jindiao.Assignments.Plan.{
  AssignmentBoard, CheckAssignmentPlan, create_assignments, enabled_checks, task_of,
  validate_assignment, validate_plan_fields,
}
use jindiao.Assignments.Submit.{
  AssignmentTools, assigned_checks, assigned_tasks, assignment_of, assignment_receipt,
  canonical_plan, plan_of, submit_canonical_assignments, submit_plan,
}
use jindiao.Assignments.Once.{Calls, Calls-plan}
use jindiao.Assignments.Coverage.{IsAssigned, submit_plan-IsAssigned}
use jindiao.Assignments.Canonical.{submit_plan-canonical_plan}
use jindiao.Examples.Boards.{catalog, definition, digest}
use jindiao.Examples.Budgets.{budget}

abbrev assignment_board : AssignmentBoard
assignment_board = record {
  run_id = "run";
  snapshot_id = "snapshot";
  snapshot_sha256 = digest;
  subject_id = "subject";
  check_catalog = catalog;
  role_agent_ids = ("registration_agent", "agent") ∷ [];
  leader_agent_id = "leader";
  plan = none;
}

assignment_board_made :
    create_assignments "run" "snapshot" digest "subject" catalog
      (("registration_agent", "agent") ∷ [])
      "leader"
    ≡ ok assignment_board
unfolding create_assignments is_blank subset contains ◌==◌
assignment_board_made = refl

abbrev sha256 : CheckAssignmentPlan → String
sha256 p = digest

abbrev plan : CheckAssignmentPlan
plan = plan_of assignment_board "1" (assignment_of definition "agent" ∷ [])

abbrev planned : AssignmentBoard
planned = record assignment_board { plan = some plan }

plan_made : canonical_plan assignment_board "1" ≡ ok plan
unfolding canonical_plan validate_assignment validate_plan_fields task_of is_blank is_sha256 lookup
    unique contains String_discrete ◌==◌
plan_made = refl

catalog_unique : unique ("registration_status" ∷ []) ≡ true
unfolding unique contains
catalog_unique = refl

submit_plan-canonical_plan_example :
    submit_plan sha256 assignment_board plan "leader" 3
    ≡ ok (assignment_receipt sha256 assignment_board plan false 3, planned)
submit_plan-canonical_plan_example =
    submit_plan-canonical_plan assignment_board sha256 "1" plan 3 catalog_unique plan_made refl

submit_plan-IsAssigned_example :
    All (IsAssigned assignment_board plan) (enabled_checks catalog)
    × (unique (assigned_checks plan) ≡ true)
    × (unique (assigned_tasks plan) ≡ true)
    × (subset (assigned_checks plan) ("registration_status" ∷ []) ≡ true)
submit_plan-IsAssigned_example =
    submit_plan-IsAssigned assignment_board sha256 plan "leader" 3
      (assignment_receipt sha256 assignment_board plan false 3, planned)
      submit_plan-canonical_plan_example

abbrev tools : AssignmentTools
tools = record { board = planned; ledger = some (open_ledger budget 0) }

abbrev called : AssignmentTools
called = (submit_canonical_assignments sha256 "intruder" "2" 5 tools).1

Calls-plan_example : called.board.plan ≡ some plan
Calls-plan_example =
    Calls-plan sha256 tools called plan (Calls.canonical "intruder" "2" 5 Calls.here) refl
