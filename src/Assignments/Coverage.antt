-- ===== src/Assignments/Coverage.antt =====
-- An accepted plan assigns every enabled check of the catalog once, as the catalog says.
use jindiao.Prelude.{
  not-false, ℕ, ◌≡◌, refl, ap, ◌∙◌, List, [], ◌∷◌, map, String, String_discrete, Bool, true, false,
  not, ◌||◌, ◌==◌, ==→eq, Option, none, some, Dict, lookup, put, update, put-All, lookup-All, All,
  arith, same_iff, is_yes, subset, unique,
}
use jindiao.Errors.{
  Checked, ok, >>-eq-ok, >>=-eq-ok, raise_if, raise_if-eq-ok, or_key_error, for_each,
}
use jindiao.Contracts.Catalog.{DueDiligenceCheckDefinition}
use jindiao.Assignments.Plan.{
  CheckAssignment, CheckAssignmentPlan, AssignmentReceipt, AssignmentBoard, enabled_checks, task_of,
}
use jindiao.Assignments.Submit.{
  Texts-discrete, agent_of_role, assigned_checks, assigned_tasks, assignment_of, by_id,
  check_assignment, check_definition, expected_ids, submit_plan, validate_plan,
}
use jindiao.Assignments.Once.{plan_accepted}

or_key_error-eq-ok {ℓ} : {A : Type ℓ} (o : Option A) {a : A} → or_key_error o ≡ ok a → o ≡ some a
or_key_error-eq-ok none h = cc h
or_key_error-eq-ok (some x) h = cc h

pub for_each-All {ℓ κ} :
    {A : Type ℓ} (P : A → Type κ) (f : A → Checked) (xs : List A)
    → ((x : A) → f x ≡ ok tt → P x)
    → for_each f xs ≡ ok tt
    → All P xs
for_each-All P f [] k h = tt
for_each-All P f (x ∷ xs) k h =
    let (one, rest) = >>-eq-ok (f x) _ h in (k x one, for_each-All P f xs k rest)

module _ (b : AssignmentBoard) where
  -- The plan assigns the check to the agent of its role, with the scope of the catalog.
  abbrev pub IsAssigned : CheckAssignmentPlan → DueDiligenceCheckDefinition → Type 0
  IsAssigned p d =
      (owner : String) × (lookup String_discrete d.owner_role b.role_agent_ids ≡ some owner)
      × (lookup String_discrete d.check_id (by_id p.assignments) ≡ some (assignment_of d owner))

  check_assignment-eq :
      (d : DueDiligenceCheckDefinition) (a : CheckAssignment)
      → a.check_id ≡ d.check_id
      → check_assignment b d a ≡ ok tt
      → (owner : String) × (lookup String_discrete d.owner_role b.role_agent_ids ≡ some owner)
        × (a ≡ assignment_of d owner)
  unfolding check_assignment
  check_assignment-eq d a same h =
      let (owner, role, h1) = >>=-eq-ok (agent_of_role b d.owner_role) _ h in
      let (agent, h2) = >>-eq-ok (raise_if (not (a.assigned_agent_id == owner)) _) _ h1 in
      let (task, scope) = >>-eq-ok (raise_if (not (a.task_id == task_of d.check_id)) _) _ h2 in
      let (required, optional, template, schema) =
        all_true (is_yes (Texts-discrete a.required_submodule_ids d.required_submodule_ids))
          (is_yes (Texts-discrete a.optional_submodule_ids d.optional_submodule_ids))
          (a.prompt_template_id == d.prompt_template_id)
          (a.output_schema_version == d.output_schema_version) (raise_if-eq-ok _ _ scope) in
      let e_task =
        ==→eq _ _ (not-false _ (raise_if-eq-ok (not (a.task_id == task_of d.check_id)) _ task)) in
      let e_agent =
        ==→eq _ _ (not-false _ (raise_if-eq-ok (not (a.assigned_agent_id == owner)) _ agent)) in
      let e_required = (same_iff Texts-discrete _ _).0 required in
      let e_optional = (same_iff Texts-discrete _ _).0 optional in
      let e_template = ==→eq _ _ template in
      let e_schema = ==→eq _ _ schema in (owner, or_key_error-eq-ok _ role, cc)
    where
      all_true :
          (p q r s : Bool)
          → (not p || not q || not r || not s) ≡ false
          → (p ≡ true) × (q ≡ true) × (r ≡ true) × (s ≡ true)
      all_true true true true true e = (refl, refl, refl, refl)
      all_true false q r s e = cc e
      all_true true false r s e = cc e
      all_true true true false s e = cc e
      all_true true true true false e = cc e

  abbrev IsKeyed : String × CheckAssignment → Type 0
  IsKeyed e = e.1.check_id ≡ e.0

  update-IsKeyed :
      (assignments : List CheckAssignment) (d : Dict String CheckAssignment)
      → All IsKeyed d
      → All IsKeyed
          (update String_discrete d (map (λ (a : CheckAssignment). (a.check_id, a)) assignments))
  unfolding update
  update-IsKeyed [] d h = h
  update-IsKeyed (a ∷ rest) d h =
      update-IsKeyed rest (put String_discrete a.check_id a d)
        (put-All String_discrete IsKeyed a.check_id a d refl h)

  check_definition-IsAssigned :
      (p : CheckAssignmentPlan) (d : DueDiligenceCheckDefinition)
      → check_definition b (by_id p.assignments) d ≡ ok tt
      → IsAssigned p d
  check_definition-IsAssigned p d h =
      let (a, found, checked) =
        >>=-eq-ok (or_key_error (lookup String_discrete d.check_id (by_id p.assignments))) _ h in
      let held = or_key_error-eq-ok _ found in
      let same =
        lookup-All String_discrete IsKeyed d.check_id a (by_id p.assignments)
          (update-IsKeyed p.assignments [] tt) held in
      let (owner, role, e) = check_assignment-eq d a same checked in
      (owner, role, held ∙ ap (λ (x : CheckAssignment). some x) e)

  -- A plan that the board accepts assigns every enabled check to the agent of its role, with the
  -- task, the scope, the prompt and the schema of the catalog; no check and no task is assigned
  -- twice, and no other check is assigned.
  pub submit_plan-IsAssigned :
      (sha256 : CheckAssignmentPlan → String) (p : CheckAssignmentPlan) (leader : String) (now : ℕ)
      (out : AssignmentReceipt × AssignmentBoard)
      → submit_plan sha256 b p leader now ≡ ok out
      → All (IsAssigned p) (enabled_checks b.check_catalog)
        × (unique (assigned_checks p) ≡ true)
        × (unique (assigned_tasks p) ≡ true)
        × (subset (assigned_checks p) (expected_ids b) ≡ true)
  unfolding validate_plan
  submit_plan-IsAssigned sha256 p leader now out h =
      let (fields, valid, stored) = plan_accepted sha256 b p leader now out h in
      let (identity, h1) = >>-eq-ok (raise_if _ _) _ valid in
      let (version, h2) =
        >>-eq-ok (raise_if (not (p.check_catalog_version == b.check_catalog.catalog_version)) _) _
          h1 in
      let (once, h3) =
        >>-eq-ok (raise_if (not (unique (assigned_checks p)) || not (unique (assigned_tasks p))) _)
          _ h2 in
      let (covered, h4) = >>-eq-ok (raise_if (is_other p) _) _ h3 in
      let (checks, tasks) = both_unique _ _ (raise_if-eq-ok _ _ once) in
      (
        for_each-All (IsAssigned p) (check_definition b (by_id p.assignments))
            (enabled_checks b.check_catalog) (check_definition-IsAssigned p) h4,
        checks,
        tasks,
        included (raise_if-eq-ok (is_other p) _ covered),
      )
    where
      is_other : CheckAssignmentPlan → Bool
      is_other q =
          not (subset (assigned_checks q) (expected_ids b))
          || not (subset (expected_ids b) (assigned_checks q))

      both_unique : (x y : Bool) → (not x || not y) ≡ false → (x ≡ true) × (y ≡ true)
      both_unique true true e = (refl, refl)
      both_unique true false e = cc e
      both_unique false y e = cc e

      included : is_other p ≡ false → subset (assigned_checks p) (expected_ids b) ≡ true
      included e = ground arith
