-- ===== src/Blackboard/Accepted.antt =====
-- What an accepted `submit_check_result` has checked and done.
use jindiao.Prelude.{
  not-false, ℕ, ◌≡◌, sym, subst, String, String_discrete, true, false, Option, none, some, lookup,
  ==_iff, arith, inl, inr, ◌⊎◌, same_iff,
}
use jindiao.Errors.{ok, ◌>>◌, >>=-eq-ok, >>-eq-ok, raise_if-eq-ok, ok-injective}
use jindiao.Contracts.Check.{
  CheckResult, CheckResult-discrete, model_validate, validate_fields, validate_check_result,
}
use jindiao.Validation.{validate_check_result_scope, validate_check_result_evidence_gate}
use jindiao.Blackboard.State.{Board, Owner, CheckSubmissionReceipt}
use jindiao.Blackboard.Submit.{
  key_of, next_version, latest_result, commit, owns, check_receipt, store, submit_check_result,
  validate_result_scope, validate_evidence_gate,
}
use jindiao.Blackboard.Invariant.{submission}

-- validation returns the model that it was given
pub model_validate_self :
    (r v : CheckResult) → model_validate r ≡ ok v → (v ≡ r) × (validate_check_result r ≡ ok tt)
unfolding model_validate
model_validate_self r v h =
    let (fields, h1) = >>-eq-ok (validate_fields r) _ h in
    let (valid, h2) = >>-eq-ok (validate_check_result r) _ h1 in (sym (ok-injective h2), valid)

owns-owner :
    (agent task : String) (o : Option Owner) → owns agent task o ≡ true → o ≡ some (agent, task)
owns-owner agent task none h = cc
owns-owner agent task (some (a, t)) h = ground (arith, ==_iff a agent, ==_iff t task)

-- the checks that an accepted result has passed, before the lock is taken
pub record IsAdmissible (b : Board) (agent : String) (r : CheckResult) : Type 0 where
  pub is_model : model_validate r ≡ ok r
  pub in_scope : validate_check_result_scope b.snapshot b.catalog r ≡ ok tt
  pub granted : lookup String_discrete r.check_id b.grant_by_check ≡ some (agent, r.task_id)
  pub supported : validate_check_result_evidence_gate b.snapshot b.catalog r ≡ ok tt

pub scope-granted :
    (b : Board) (agent : String) (r : CheckResult)
    → validate_result_scope b agent r ≡ ok tt
    → (validate_check_result_scope b.snapshot b.catalog r ≡ ok tt)
      × (lookup String_discrete r.check_id b.grant_by_check ≡ some (agent, r.task_id))
unfolding validate_result_scope
scope-granted b agent r h =
    let (scope, owner) = >>-eq-ok (validate_check_result_scope b.snapshot b.catalog r) _ h in
    (scope, owns-owner agent r.task_id _ (not-false _ (raise_if-eq-ok _ _ owner)))

module _ (sha256 : CheckResult → String) where
  abbrev Outcome : Type 0
  Outcome = CheckSubmissionReceipt × Board

  -- an accepted submission has passed the checks, and is what the step under the lock returns
  pub submitted :
      (b : Board) (agent : String) (r : CheckResult) (now : ℕ) (out : Outcome)
      → submit_check_result sha256 b agent r now ≡ ok out
      → IsAdmissible b agent r
        × (store sha256 b agent r now (submission b (key_of agent r)) ≡ ok out)
  unfolding submit_check_result
  submitted b agent r now out h =
      let (v, model, h1) = >>=-eq-ok (model_validate r) _ h in
      let (same, valid) = model_validate_self r v model in
      let h1' =
        subst
          (λ (x : CheckResult).
            (validate_result_scope b agent x
              >> (validate_evidence_gate b x
                  >> store sha256 b agent x now (submission b (key_of agent x))))
            ≡ ok out)
          same h1 in
      let (scope, h2) = >>-eq-ok (validate_result_scope b agent r) _ h1' in
      let (gate, h3) = >>-eq-ok (validate_evidence_gate b r) _ h2 in
      let (in_scope, owner) = scope-granted b agent r scope in
      (
        record {
          is_model = subst (λ (x : CheckResult). model_validate r ≡ ok x) same model;
          in_scope = in_scope;
          granted = owner;
          supported = gate;
        },
        h3,
      )

  -- A replay finds the very same result and changes nothing; anything else is the next version.
  abbrev pub Stored : Board → String → CheckResult → ℕ → Outcome → Type 0
  Stored b agent r now out =
      ((submission b (key_of agent r) ≡ some r)
        × (out ≡ (check_receipt sha256 b agent r true now, b)))
      ⊎ ((submission b (key_of agent r) ≡ none)
          × (r.submission_version ≡ next_version (latest_result b r.check_id))
          × (out ≡ (check_receipt sha256 b agent r false now, commit b agent r)))

  pub store-Stored :
      (b : Board) (agent : String) (r : CheckResult) (now : ℕ) (out : Outcome)
      (held : Option CheckResult)
      → submission b (key_of agent r) ≡ held
      → store sha256 b agent r now held ≡ ok out
      → Stored b agent r now out
  unfolding store
  store-Stored b agent r now out none e h =
      let (version, done) = >>-eq-ok _ _ h in
      inr (e, ground (arith, raise_if-eq-ok _ _ version), sym (ok-injective done))
  store-Stored b agent r now out (some x) e h =
      let (equal, done) = >>-eq-ok _ _ h in
      let same = (same_iff CheckResult-discrete x r).0 (not-false _ (raise_if-eq-ok _ _ equal)) in
      inl (
        subst (λ (y : CheckResult). submission b (key_of agent r) ≡ some y) same e,
        sym (ok-injective done),
      )
