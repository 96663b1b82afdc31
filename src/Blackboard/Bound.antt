-- ===== src/Blackboard/Bound.antt =====
-- `_bind_check_result` followed by `submit_check_result`: what is bound is accepted.
use jindiao.Prelude.{
  ℕ, ◌+◌, ◌≤◌, ◌≡◌, ◌⊎◌, refl, sym, ap, ◌∙◌, subst, String, String_discrete, true, false, Option,
  none, some, lookup, inl, inr, arith, ==_iff, ==_refl, Bool-cases, Option-cases, if-cases,
  nonempty,
}
use jindiao.Errors.{ok, ◌>>=◌, ◌>>◌, >>=-eq-ok, >>-eq-ok, ok-injective}
use jindiao.Contracts.Check.{CheckStatus, CheckResult, model_validate, is_inconclusive}
use jindiao.Contracts.Catalog.{DueDiligenceCheckDefinition, get}
use jindiao.Validation.{downgrade_unsupported_check_conclusion, validate_check_result_scope}
use jindiao.Blackboard.State.{Board, Owner, CheckSubmissionReceipt}
use jindiao.Blackboard.Submit.{
  key_of, next_version, latest_result, commit, check_receipt, store, submit_check_result,
  validate_result_scope,
}
use jindiao.Blackboard.Bind.{
  BoundCheckResultDraft, declared_gap, candidate, granted_task, or_latest, bind_check_result,
}
use jindiao.Blackboard.Invariant.{IsValid, IsNext, submission}
use jindiao.Blackboard.Accepted.{IsAdmissible, model_validate_self}
use jindiao.Blackboard.Versions.{replayed}
use jindiao.Blackboard.Binding.{downgrade-model, downgrade-scope, candidate-gate}
use jindiao.Validation.Downgrade.{downgrade-IsWithdrawn}

pub granted_task-owner :
    (agent task : String) (o : Option Owner)
    → granted_task agent o ≡ ok task
    → o ≡ some (agent, task)
granted_task-owner agent task none h = cc
granted_task-owner agent task (some (a, t)) h = ground (arith, ==_iff a agent)

-- what the downgrade keeps of the identity of a result
pub downgrade-identity :
    (b : Board) (r r' : CheckResult)
    → downgrade_unsupported_check_conclusion b.snapshot b.catalog r ≡ ok r'
    → (r'.check_id ≡ r.check_id)
      × (r'.task_id ≡ r.task_id)
      × (r'.submission_version ≡ r.submission_version)
downgrade-identity b r r' h = elim (downgrade-IsWithdrawn b.snapshot b.catalog r r' h) [
  | inl p ↦ (
    ap (λ (x : CheckResult). x.check_id) p,
    ap (λ (x : CheckResult). x.task_id) p,
    ap (λ (x : CheckResult). x.submission_version) p,
  )
  | inr (missing, found, gap, p) ↦ (
    ap (λ (x : CheckResult). x.check_id) p,
    ap (λ (x : CheckResult). x.task_id) p,
    ap (λ (x : CheckResult). x.submission_version) p,
  )
]

candidate-gap :
    (b : Board) (task : String) (d : DueDiligenceCheckDefinition) (pv : String)
    (draft : BoundCheckResultDraft)
    → is_inconclusive draft.status ≡ false
    → (is_inconclusive (candidate b task d pv draft).status ≡ false)
      ⊎ (((candidate b task d pv draft).status ≡ CheckStatus.inconclusive)
          × (nonempty draft.missing_evidence ≡ true))
candidate-gap b task d pv draft c = elim (Bool-cases (declared_gap draft)) [
  | inl g ↦ inr (rw g, gap-missing g)
  | inr g ↦ inl (rw (g, c))
]
  where
    gap-missing : declared_gap draft ≡ true → nonempty draft.missing_evidence ≡ true
    gap-missing g = ground arith

-- No stored version is the next one.
pub unused-next :
    (b : Board) (agent : String) (r : CheckResult)
    → IsValid b
    → IsNext b agent r
    → submission b (key_of agent r) ≡ none
unused-next b agent r v n = elim (Option-cases (submission b (key_of agent r))) [
  | inl p ↦ p
  | inr (x, p) ↦
      let (l, e, m) = v.bounded (key_of agent r) x p in
      absurd (ahead l.submission_version (n ∙ ap next_version e) m)
]
  where
    ahead : (k : ℕ) → r.submission_version ≡ k + 1 → r.submission_version ≤ k → ⊥
    ahead k e m = omega arith

module _ (sha256 : CheckResult → String) (b : Board) (agent : String) (now : ℕ) where
  abbrev IsAccepted : CheckResult → Type 0
  IsAccepted r =
      (out : CheckSubmissionReceipt × Board) × (submit_check_result sha256 b agent r now ≡ ok out)

  -- An admissible result at the next version, whose key is unused, is committed.
  pub stored_next :
      (r : CheckResult)
      → IsAdmissible b agent r
      → IsNext b agent r
      → submission b (key_of agent r) ≡ none
      → submit_check_result sha256 b agent r now
        ≡ ok (check_receipt sha256 b agent r false now, commit b agent r)
  unfolding submit_check_result store validate_result_scope
  stored_next r a n e =
      rw (a.is_model, a.in_scope, a.granted, ==_refl agent, ==_refl r.task_id, a.supported, e)
        (ground arith)

  latest-IsAccepted :
      (id task : String) (l : CheckResult)
      → IsValid b
      → lookup String_discrete id b.grant_by_check ≡ some (agent, task)
      → latest_result b id ≡ some l
      → IsAccepted l
  latest-IsAccepted id task l v g e =
      let (same, gated) = v.gated id l e in
      let (task_same, _) = v.history id agent task l g e in
      (
        (check_receipt sha256 b agent l true now, b),
        replayed sha256 b agent l now
            (record {
              is_model = gated.0;
              in_scope = gated.1;
              granted =
                  subst (λ t. lookup String_discrete l.check_id b.grant_by_check ≡ some (agent, t))
                    (sym task_same)
                    (subst (λ i. lookup String_discrete i b.grant_by_check ≡ some (agent, task))
                      (sym same) g);
              supported = gated.2;
            })
            (v.held id agent task l g e),
      )

  next-IsAccepted :
      (r : CheckResult) → IsValid b → IsAdmissible b agent r → IsNext b agent r → IsAccepted r
  next-IsAccepted r v a n = (_, stored_next r a n (unused-next b agent r v n))

  or_latest-IsAccepted :
      (id task : String) (checked r : CheckResult) (held : Option CheckResult)
      → IsValid b
      → lookup String_discrete id b.grant_by_check ≡ some (agent, task)
      → latest_result b id ≡ held
      → IsAdmissible b agent checked
      → IsNext b agent checked
      → or_latest held checked ≡ r
      → IsAccepted r
  or_latest-IsAccepted id task checked r none v g e a n h =
      subst IsAccepted h (next-IsAccepted checked v a n)
  or_latest-IsAccepted id task checked r (some l) v g e a n h = elim (if-cases _ l checked h) [
    | inl p ↦ subst IsAccepted p (latest-IsAccepted id task l v g e)
    | inr p ↦ subst IsAccepted p (next-IsAccepted checked v a n)
  ]

  -- A draft with a risk or no_risk conclusion that binds on a valid board is accepted, whatever it
  -- cites: binding has moved an unsupported conclusion to an inconclusive one that the gate accepts,
  -- and has chosen the version that `submit_check_result` expects.
  pub submit_check_result-bind_check_result :
      (prompt_version : String) (draft : BoundCheckResultDraft) (r : CheckResult)
      → IsValid b
      → is_inconclusive draft.status ≡ false
      → bind_check_result b agent prompt_version draft ≡ ok r
      → (out : CheckSubmissionReceipt × Board) × (submit_check_result sha256 b agent r now ≡ ok out)
  unfolding bind_check_result
  submit_check_result-bind_check_result pv draft r v c h =
      let (task, granted, h1) = >>=-eq-ok (granted_task agent _) _ h in
      let (d, found, h2) = >>=-eq-ok (get b.catalog draft.check_id) _ h1 in
      let made = candidate b task d pv draft in
      let (m, model, h3) = >>=-eq-ok (model_validate made) _ h2 in
      let (same, valid) = model_validate_self made m model in
      let model' = subst (λ (x : CheckResult). model_validate made ≡ ok x) same model in
      let h3' =
        subst
          (λ (x : CheckResult).
            (validate_check_result_scope b.snapshot b.catalog x
              >> (downgrade_unsupported_check_conclusion b.snapshot b.catalog x >>= λ checked.
                  ok (or_latest (latest_result b draft.check_id) checked)))
            ≡ ok r)
          same h3 in
      let (scope, h4) = >>-eq-ok (validate_check_result_scope b.snapshot b.catalog made) _ h3' in
      let (checked, down, h5) =
        >>=-eq-ok (downgrade_unsupported_check_conclusion b.snapshot b.catalog made) _ h4 in
      let (id_same, task_same, version_same) = downgrade-identity b made checked down in
      let owner = granted_task-owner agent task _ granted in
      or_latest-IsAccepted draft.check_id task checked r (latest_result b draft.check_id) v owner
        refl
        (record {
          is_model = downgrade-model b.snapshot b.catalog made checked down model';
          in_scope = downgrade-scope b.snapshot b.catalog made checked down scope;
          granted =
              subst (λ i. lookup String_discrete i b.grant_by_check ≡ some (agent, checked.task_id))
                (sym id_same)
                (subst
                  (λ t. lookup String_discrete draft.check_id b.grant_by_check ≡ some (agent, t))
                  (sym task_same) owner);
          supported =
              candidate-gate b.snapshot b.catalog made checked (candidate-gap b task d pv draft c)
                scope down;
        })
        (subst (λ i. checked.submission_version ≡ next_version (latest_result b i)) (sym id_same)
          version_same)
        (ok-injective h5)
