-- ===== src/Assignments/Canonical.antt =====
-- The canonical plan of a board is a plan that the board accepts.
use jindiao.Prelude.{
  ℕ, ◌≡◌, refl, sym, ap, ◌∙◌, subst, List, [], ◌∷◌, map, String, String_discrete, true, false,
  ==_refl, none, some, Dict, lookup, All, same_iff, subset_refl, unique,
}
use jindiao.Errors.{ok, >>-eq-ok, >>=-eq-ok, for_each, traverse, ok-injective}
use jindiao.Contracts.Catalog.{DueDiligenceCheckDefinition, check_ids}
use jindiao.Assignments.Plan.{
  CheckAssignment, CheckAssignmentPlan, AssignmentBoard, enabled_checks, task_of,
  validate_assignment, validate_plan_fields,
}
use jindiao.Assignments.Submit.{
  Texts-discrete, agent_of_role, assign, assignment_of, assignment_receipt, plan_of, by_id,
  canonical_plan, check_assignment, check_definition, expected_ids, store_plan, submit_plan,
  validate_plan,
}
use jindiao.Assignments.Names.{
  IsHeld, assignment_ids, definition_ids, unique-task_of, enabled-unique, update-IsHeld,
}

module _ (b : AssignmentBoard) where
  assign-eq :
      (d : DueDiligenceCheckDefinition) (a : CheckAssignment)
      → assign b d ≡ ok a
      → (owner : String) × (agent_of_role b d.owner_role ≡ ok owner) × (a ≡ assignment_of d owner)
  assign-eq d a h =
      let (owner, role, h1) = >>=-eq-ok (agent_of_role b d.owner_role) _ h in
      let (valid, done) = >>-eq-ok (validate_assignment (assignment_of d owner)) _ h1 in
      (owner, role, sym (ok-injective done))

  -- the checks and the tasks of the assignments that are made
  assigned_names :
      (ds : List DueDiligenceCheckDefinition) (items : List CheckAssignment)
      → traverse (assign b) ds ≡ ok items
      → (assignment_ids items ≡ definition_ids ds)
        × (map (λ (a : CheckAssignment). a.task_id) items ≡ map task_of (definition_ids ds))
  assigned_names [] items h =
      subst
        (λ (x : List CheckAssignment).
          (assignment_ids x ≡ []) × (map (λ (a : CheckAssignment). a.task_id) x ≡ []))
        (ok-injective h) (refl, refl)
  assigned_names (d ∷ ds) items h =
      let (a, one, h1) = >>=-eq-ok (assign b d) _ h in
      let (rest, others, h2) = >>=-eq-ok (traverse (assign b) ds) _ h1 in
      let (owner, role, same) = assign-eq d a one in
      let (checks, tasks) = assigned_names ds rest others in
      subst
        (λ (x : List CheckAssignment).
          (assignment_ids x ≡ definition_ids (d ∷ ds))
          × (map (λ (y : CheckAssignment). y.task_id) x ≡ map task_of (definition_ids (d ∷ ds))))
        (ok-injective h2) (cc (same, checks), cc (same, tasks))

  check_assignment-assign :
      (d : DueDiligenceCheckDefinition) (a : CheckAssignment)
      → assign b d ≡ ok a
      → check_assignment b d a ≡ ok tt
  unfolding check_assignment
  check_assignment-assign d a h =
      let (owner, role, same) = assign-eq d a h in
      subst (λ (x : CheckAssignment). check_assignment b d x ≡ ok tt) (sym same)
        (rw (
          role,
          ==_refl owner,
          ==_refl (task_of d.check_id),
          (same_iff Texts-discrete d.required_submodule_ids d.required_submodule_ids).1 refl,
          (same_iff Texts-discrete d.optional_submodule_ids d.optional_submodule_ids).1 refl,
          ==_refl d.prompt_template_id,
          ==_refl d.output_schema_version,
        ))

  -- on a dictionary that holds them, the loop of `_validate_plan` accepts the assignments made
  definitions-assigned :
      (held : Dict String CheckAssignment) (ds : List DueDiligenceCheckDefinition)
      (items : List CheckAssignment)
      → traverse (assign b) ds ≡ ok items
      → All (IsHeld held) items
      → for_each (check_definition b held) ds ≡ ok tt
  definitions-assigned held [] items h a = refl
  definitions-assigned held (d ∷ ds) items h all =
      let (a, one, h1) = >>=-eq-ok (assign b d) _ h in
      let (rest, others, h2) = >>=-eq-ok (traverse (assign b) ds) _ h1 in
      let (owner, role, same) = assign-eq d a one in
      let (here, later) = subst (All (IsHeld held)) (sym (ok-injective h2)) all in
      let id : a.check_id ≡ d.check_id = ap (λ (x : CheckAssignment). x.check_id) same in
      let found = subst (λ i. lookup String_discrete i held ≡ some a) id here in
      rw (found, check_assignment-assign d a one, definitions-assigned held ds rest others later)

  -- The canonical plan of a board whose catalog names no check twice is accepted from the leader: on
  -- a board without a plan it is stored at once, and it is then the plan of the board.
  pub submit_plan-canonical_plan :
      (sha256 : CheckAssignmentPlan → String) (prompt_version : String) (p : CheckAssignmentPlan)
      (now : ℕ)
      → unique (check_ids b.check_catalog) ≡ true
      → canonical_plan b prompt_version ≡ ok p
      → b.plan ≡ none
      → submit_plan sha256 b p b.leader_agent_id now
        ≡ ok (assignment_receipt sha256 b p false now, record b { plan = some p })
  unfolding canonical_plan submit_plan validate_plan store_plan
  submit_plan-canonical_plan sha256 pv p now u h e =
      let (items, made, h1) =
        >>=-eq-ok (traverse (assign b) (enabled_checks b.check_catalog)) _ h in
      let (fields, same) = >>-eq-ok (validate_plan_fields (plan_of b pv items)) _ h1 in
      let (checks, tasks) = assigned_names (enabled_checks b.check_catalog) items made in
      let distinct_checks = ap unique checks ∙ enabled-unique b.check_catalog.checks u in
      let distinct_tasks =
        ap unique tasks
        ∙ unique-task_of (definition_ids (enabled_checks b.check_catalog))
        ∙ enabled-unique b.check_catalog.checks u in
      let assigned =
        definitions-assigned (by_id items) (enabled_checks b.check_catalog) items made
          (update-IsHeld items [] distinct_checks) in
      subst
        (λ (x : CheckAssignmentPlan).
          submit_plan sha256 b x b.leader_agent_id now
          ≡ ok (assignment_receipt sha256 b x false now, record b { plan = some x }))
        (ok-injective same)
        (rw (
          ==_refl b.leader_agent_id,
          fields,
          ==_refl b.run_id,
          ==_refl b.snapshot_id,
          ==_refl b.snapshot_sha256,
          ==_refl b.subject_id,
          ==_refl b.check_catalog.catalog_version,
          distinct_checks,
          distinct_tasks,
          checks,
          subset_refl (expected_ids b),
          assigned,
          e,
        ))
