-- ===== src/Assignments/Once.antt =====
-- The assignment plan that a board holds is never replaced.
use jindiao.Prelude.{
  not-false, ℕ, ◌≡◌, refl, sym, ap, ◌∙◌, subst, String, Bool, true, false, not, Option, none, some,
  ◌==◌, if◌then◌else◌, is_yes, same_iff,
}
use jindiao.Errors.{
  Error, Result, Checked, ok, err, ◌>>=◌, ◌>>◌, >>-eq-ok, >>=-eq-ok, raise_if, raise_if-eq-ok,
  ok-injective, is_validation_error,
}
use jindiao.Budget.Ledger.{BudgetLedger, Outcome}
use jindiao.Budget.Claims.{claim_tool_call, claim_schema_retry}
use jindiao.Assignments.Plan.{
  CheckAssignmentPlan, Plan-discrete, AssignmentReceipt, AssignmentBoard, validate_plan_fields,
}
use jindiao.Assignments.Submit.{
  AssignmentTools, ToolOutcome, assignment_receipt, canonical_plan, charge, go_on, keep_board,
  model_validate_plan, raise_after, store_plan, submit_canonical_assignments,
  submit_check_assignments, submit_parsed, submit_plan, validate_plan,
}

module _ (sha256 : CheckAssignmentPlan → String) where
  -- What an accepted plan has passed, and the step that returned.
  pub plan_accepted :
      (b : AssignmentBoard) (p : CheckAssignmentPlan) (leader : String) (now : ℕ)
      (out : AssignmentReceipt × AssignmentBoard)
      → submit_plan sha256 b p leader now ≡ ok out
      → (validate_plan_fields p ≡ ok tt)
        × (validate_plan b p ≡ ok tt)
        × (store_plan sha256 b p now b.plan ≡ ok out)
  unfolding submit_plan
  plan_accepted b p leader now out h =
      let (_, h1) = >>-eq-ok (raise_if (not (leader == b.leader_agent_id)) _) _ h in
      let (v, model, h2) = >>=-eq-ok (model_validate_plan p) _ h1 in
      let (fields, same) = >>-eq-ok (validate_plan_fields p) _ model in
      let h2' =
        subst
          (λ (x : CheckAssignmentPlan).
            (validate_plan b x >> store_plan sha256 b x now b.plan) ≡ ok out)
          (sym (ok-injective same)) h2 in
      let (valid, stored) = >>-eq-ok (validate_plan b p) _ h2' in (fields, valid, stored)

  store_plan-some :
      (b : AssignmentBoard) (p q : CheckAssignmentPlan) (now : ℕ)
      (held : Option CheckAssignmentPlan) (out : AssignmentReceipt × AssignmentBoard)
      → held ≡ some p
      → store_plan sha256 b q now held ≡ ok out
      → (q ≡ p) × (out ≡ (assignment_receipt sha256 b p true now, b))
  unfolding store_plan
  store_plan-some b p q now none out e h = cc e
  store_plan-some b p q now (some held) out e h =
      let (equal, done) = >>-eq-ok (raise_if (not (is_yes (Plan-discrete held q))) _) _ h in
      let same =
        sym (
          (same_iff Plan-discrete held q).0
            (not-false _ (raise_if-eq-ok (not (is_yes (Plan-discrete held q))) _ equal)))
        ∙ some_held e in
      (
        same,
        subst (λ (x : CheckAssignmentPlan). out ≡ (assignment_receipt sha256 b x true now, b)) same
            (sym (ok-injective done)),
      )
    where
      some_held : some held ≡ some p → held ≡ p
      some_held x = cc x

  -- what the board holds, `some p`, whatever the call of `submit` returns
  keep_board-plan :
      (p : CheckAssignmentPlan) (s : AssignmentTools)
      (returned : Result (AssignmentReceipt × AssignmentBoard))
      → s.board.plan ≡ some p
      → ((out : AssignmentReceipt × AssignmentBoard) → returned ≡ ok out → out.1 ≡ s.board)
      → (keep_board s returned).1.board.plan ≡ some p
  keep_board-plan p s (ok out) e same = ap (λ (x : AssignmentBoard). x.plan) (same out refl) ∙ e
  keep_board-plan p s (err raised) e same = e

  submitted-board :
      (b : AssignmentBoard) (p q : CheckAssignmentPlan) (leader : String) (now : ℕ)
      (out : AssignmentReceipt × AssignmentBoard)
      → b.plan ≡ some p
      → submit_plan sha256 b q leader now ≡ ok out
      → out.1 ≡ b
  submitted-board b p q leader now out e h =
      ap (λ (o : AssignmentReceipt × AssignmentBoard). o.1)
        ((store_plan-some b p q now b.plan out e ((plan_accepted b q leader now out h).2)).1)

  charge-board :
      (claim : ℕ → BudgetLedger → Outcome (Unit {0})) (now : ℕ) (s : AssignmentTools)
      (l : Option BudgetLedger)
      → (charge claim now s l).1.board ≡ s.board
  charge-board claim now s none = refl
  charge-board claim now s (some l) = refl

  raise_after-board :
      (e : Error) (c : Checked × AssignmentTools) → (raise_after e c).1.board ≡ c.1.board
  raise_after-board e (ok done, s) = refl
  raise_after-board e (err raised, s) = refl

  submit_parsed-plan :
      (p : CheckAssignmentPlan) (leader : String) (now : ℕ) (s : AssignmentTools)
      (parsed : Result CheckAssignmentPlan)
      → s.board.plan ≡ some p
      → (submit_parsed sha256 leader now s parsed).1.board.plan ≡ some p
  unfolding submit_parsed
  submit_parsed-plan p leader now s (ok q) e =
      keep_board-plan p s _ e (λ out h. submitted-board s.board p q leader now out e h)
  submit_parsed-plan p leader now s (err raised) e =
      ap (λ (x : AssignmentBoard). x.plan) (raise_after-board raised _)
      ∙ charged (is_validation_error raised)
    where
      charged :
          (c : Bool)
          → (if c then charge claim_schema_retry now s s.ledger else (ok tt, s)).1.board.plan
            ≡ some p
      charged true =
          ap (λ (x : AssignmentBoard). x.plan) (charge-board claim_schema_retry now s s.ledger) ∙ e
      charged false = e

  go_on-plan :
      (p : CheckAssignmentPlan) (c : Checked × AssignmentTools)
      (next : AssignmentTools → ToolOutcome)
      → c.1.board.plan ≡ some p
      → ((s : AssignmentTools) → s.board.plan ≡ some p → (next s).1.board.plan ≡ some p)
      → (go_on c next).1.board.plan ≡ some p
  go_on-plan p (ok done, s) next e k = k s e
  go_on-plan p (err raised, s) next e k = e

  -- The calls of the two tools, by any agents, in any order, accepted or not.
  pub data Calls (start : AssignmentTools) : AssignmentTools → Type 0 where
    here : Calls start start
    submitted :
        {s : AssignmentTools} (leader : String) (plan : CheckAssignmentPlan) (now : ℕ)
        → Calls start s
        → Calls start (submit_check_assignments sha256 leader plan now s).1
    canonical :
        {s : AssignmentTools} (leader prompt_version : String) (now : ℕ)
        → Calls start s
        → Calls start (submit_canonical_assignments sha256 leader prompt_version now s).1

  -- A plan that the board holds at some moment of a Run stays the plan of the board, whatever the
  -- tools are called with, and however those calls end.
  pub Calls-plan :
      (start s : AssignmentTools) (p : CheckAssignmentPlan)
      → Calls start s
      → start.board.plan ≡ some p
      → s.board.plan ≡ some p
  unfolding submit_check_assignments submit_canonical_assignments
  Calls-plan start s p here e = e
  Calls-plan start s p (submitted {s = before} leader plan now c) e =
      go_on-plan p (charge claim_tool_call now before before.ledger) _
        (ap (λ (x : AssignmentBoard). x.plan)
            (charge-board claim_tool_call now before before.ledger)
          ∙ Calls-plan start before p c e)
        (λ t k. submit_parsed-plan p leader now t (model_validate_plan plan) k)
  Calls-plan start s p (canonical {s = before} leader prompt_version now c) e =
      go_on-plan p (charge claim_tool_call now before before.ledger) _
        (ap (λ (x : AssignmentBoard). x.plan)
            (charge-board claim_tool_call now before before.ledger)
          ∙ Calls-plan start before p c e)
        (λ t k.
          keep_board-plan p t
            (canonical_plan t.board prompt_version >>= λ plan.
              submit_plan sha256 t.board plan leader now)
            k
            (λ out h.
              let (q, made, h1) =
                >>=-eq-ok (canonical_plan t.board prompt_version)
                  (λ plan. submit_plan sha256 t.board plan leader now) h in
              submitted-board t.board p q leader now out k h1))
