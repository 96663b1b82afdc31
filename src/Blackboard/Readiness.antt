-- ===== src/Blackboard/Readiness.antt =====
-- `submit_investigation_results`: that a draft which binds and passes the checks is ready to be
-- committed.
use jindiao.Prelude.{
  ◌≡◌, refl, sym, ap, ◌∙◌, subst, String, Option, none, some, Dict, inl, inr, if-cases,
}
use jindiao.Errors.{ok, >>=-eq-ok, >>-eq-ok, ok-injective}
use jindiao.Contracts.Check.{CheckResult, model_validate}
use jindiao.Contracts.Catalog.{get}
use jindiao.Validation.{downgrade_unsupported_check_conclusion, validate_check_result_scope}
use jindiao.Blackboard.State.{Board}
use jindiao.Blackboard.Submit.{
  key_of, next_version, latest_result, validate_result_scope, validate_evidence_gate,
}
use jindiao.Blackboard.Bind.{
  BoundCheckResultDraft, candidate, granted_task, or_latest, bind_check_result,
}
use jindiao.Blackboard.Batch.{bind_checked}
use jindiao.Blackboard.Invariant.{IsValid, IsNext, submission}
use jindiao.Blackboard.Accepted.{model_validate_self, scope-granted}
use jindiao.Blackboard.Binding.{downgrade-model}
use jindiao.Blackboard.Bound.{downgrade-identity, unused-next}
use jindiao.Blackboard.Sequence.{IsReady}

module _ (b : Board) (agent prompt_version : String) (aliases : Dict String String) where
  -- a bound result, before the checks on its scope and its gate
  record IsBound (id : String) (r : CheckResult) : Type 0 where
    bound_model : model_validate r ≡ ok r
    bound_id : r.check_id ≡ id
    bound_current : submission b (key_of agent r) ≡ some r → latest_result b r.check_id ≡ some r

  next-IsBound :
      (id : String) (r : CheckResult)
      → IsValid b
      → model_validate r ≡ ok r
      → r.check_id ≡ id
      → IsNext b agent r
      → IsBound id r
  next-IsBound id r v m i n = record {
    bound_model = m;
    bound_id = i;
    bound_current = λ stored. absurd (cc (unused-next b agent r v n, stored));
  }

  latest-IsBound :
      (id : String) (l : CheckResult) → IsValid b → latest_result b id ≡ some l → IsBound id l
  latest-IsBound id l v e =
      let (same, gated) = v.gated id l e in
      record {
        bound_model = gated.0;
        bound_id = same;
        bound_current = λ stored. subst (λ i. latest_result b i ≡ some l) (sym same) e;
      }

  or_latest-IsBound :
      (id : String) (checked r : CheckResult) (held : Option CheckResult)
      → IsValid b
      → latest_result b id ≡ held
      → model_validate checked ≡ ok checked
      → checked.check_id ≡ id
      → IsNext b agent checked
      → or_latest held checked ≡ r
      → IsBound id r
  or_latest-IsBound id checked r none v e m i n h =
      subst (IsBound id) h (next-IsBound id checked v m i n)
  or_latest-IsBound id checked r (some l) v e m i n h = elim (if-cases _ l checked h) [
    | inl p ↦ subst (IsBound id) p (latest-IsBound id l v e)
    | inr p ↦ subst (IsBound id) p (next-IsBound id checked v m i n)
  ]

  bind_check_result-IsBound :
      (draft : BoundCheckResultDraft) (r : CheckResult)
      → IsValid b
      → bind_check_result b agent prompt_version draft ≡ ok r
      → IsBound draft.check_id r
  unfolding bind_check_result
  bind_check_result-IsBound draft r v h =
      let (task, granted, h1) = >>=-eq-ok (granted_task agent _) _ h in
      let (d, found, h2) = >>=-eq-ok (get b.catalog draft.check_id) _ h1 in
      let made = candidate b task d prompt_version draft in
      let (m, model, h3) = >>=-eq-ok (model_validate made) _ h2 in
      let (same, valid) = model_validate_self made m model in
      let (scope, h4) = >>-eq-ok (validate_check_result_scope b.snapshot b.catalog m) _ h3 in
      let (checked, down, h5) =
        >>=-eq-ok (downgrade_unsupported_check_conclusion b.snapshot b.catalog m) _ h4 in
      let (id_same, task_same, version_same) = downgrade-identity b m checked down in
      let id = id_same ∙ ap (λ (x : CheckResult). x.check_id) same in
      or_latest-IsBound draft.check_id checked r (latest_result b draft.check_id) v refl
        (downgrade-model b.snapshot b.catalog m checked down
          (subst (λ (x : CheckResult). model_validate x ≡ ok m) (sym same) model))
        id
        (version_same
          ∙ ap (λ (x : CheckResult). x.submission_version) same
          ∙ ap (λ i. next_version (latest_result b i)) (sym id))
        (ok-injective h5)

  -- What the inner `try` returns is ready to be committed, and is about the check of its draft.
  pub bind_checked-IsReady :
      (draft : BoundCheckResultDraft) (r : CheckResult)
      → IsValid b
      → bind_checked b agent prompt_version aliases draft ≡ ok r
      → IsReady b agent r × (r.check_id ≡ draft.check_id)
  unfolding bind_checked
  bind_checked-IsReady draft r v h =
      let (x, bound, h1) = >>=-eq-ok (bind_check_result b agent prompt_version draft) _ h in
      let (scope, h2) = >>-eq-ok (validate_result_scope b agent x) _ h1 in
      let (gate, h3) = >>-eq-ok (validate_evidence_gate b x) _ h2 in
      let (in_scope, owner) = scope-granted b agent x scope in
      let is_bound = bind_check_result-IsBound draft x v bound in
      subst (λ (y : CheckResult). IsReady b agent y × (y.check_id ≡ draft.check_id))
        (ok-injective h3)
        (
          record {
            admissible = record {
              is_model = is_bound.bound_model;
              in_scope = in_scope;
              granted = owner;
              supported = gate;
            };
            current = is_bound.bound_current;
          },
          is_bound.bound_id,
        )
