-- ===== src/Blackboard/Runs.antt =====
-- A Run's board over time: its creation, and any interleaving of the agents' submissions.
use jindiao.Prelude.{
  ℕ, ◌≡◌, refl, ap, subst, String, String_discrete, not, none, some, List, [], map, lookup, ◌==◌,
  unique,
}
use jindiao.Errors.{Reason, ok, >>=-eq-ok, >>-eq-ok, raise_if, ok-injective, value_error}
use jindiao.Contracts.Check.{CheckResult, model_validate}
use jindiao.Contracts.Catalog.{DueDiligenceCheckCatalog}
use jindiao.Contracts.Snapshot.{EnterpriseContextSnapshot}
use jindiao.Validation.{validate_check_result_evidence_gate, validate_check_result_scope}
use jindiao.Blackboard.State.{
  Board, SubmissionGrant, SubmissionKey, Key-discrete, CheckSubmissionReceipt, add_grants, create,
  strips_to_nothing, owner_of_grant, unique_owners,
}
use jindiao.Blackboard.Submit.{latest_result, submit_check_result}
use jindiao.Blackboard.Invariant.{IsValid, submission}
use jindiao.Blackboard.Versions.{submission-submit_check_result, submit_check_result-IsValid}

-- nothing is submitted on the board yet
abbrev pub IsFresh : Board → Type 0
IsFresh b = (b.submissions ≡ []) × (b.latest_by_check ≡ [])

create-IsFresh :
    (run_id : String) (s : EnterpriseContextSnapshot) (catalog : DueDiligenceCheckCatalog)
    (grants : List SubmissionGrant) (reviewers : List String) (b : Board)
    → create run_id s catalog grants reviewers ≡ ok b
    → IsFresh b
unfolding create
create-IsFresh run_id s catalog grants reviewers b h =
    let (_, h1) =
      >>-eq-ok (raise_if (strips_to_nothing run_id) (value_error Reason.blank_run_id)) _ h in
    let (_, h2) =
      >>-eq-ok
        (raise_if (not (catalog.acquisition_catalog_version == s.acquisition_catalog_version))
          (value_error Reason.catalog_mismatch))
        _ h1 in
    let (_, h3) =
      >>-eq-ok
        (raise_if (not (unique_owners (map owner_of_grant grants)))
          (value_error Reason.grants_not_unique))
        _ h2 in
    let (owners, _, h4) = >>=-eq-ok (add_grants catalog grants []) _ h3 in
    let (_, h5) =
      >>-eq-ok (raise_if (not (unique reviewers)) (value_error Reason.reviewers_not_unique)) _ h4 in
    subst IsFresh (ok-injective h5) (refl, refl)

none-latest : (b : Board) (id : String) → IsFresh b → latest_result b id ≡ none
unfolding lookup
none-latest b id f = ap (lookup String_discrete id) (f.1)

none-submission : (b : Board) (key : SubmissionKey) → IsFresh b → submission b key ≡ none
unfolding lookup
none-submission b key f = ap (lookup Key-discrete key) (f.0)

pub IsFresh-IsValid : (b : Board) → IsFresh b → IsValid b
IsFresh-IsValid b f = record {
  gated = λ id r e. absurd (cc (e, none-latest b id f));
  history = λ id agent task r o e. absurd (cc (e, none-latest b id f));
  held = λ id agent task r o e. absurd (cc (e, none-latest b id f));
  bounded = λ key x e. absurd (cc (e, none-submission b key f));
}

module _ (sha256 : CheckResult → String) where
  -- The boards that a Run can come to: submissions by any agents, in any order, accepted or not.
  pub data Reach (start : Board) : Board → Type 0 where
    here : Reach start start
    accepted :
        {b : Board} (agent : String) (r : CheckResult) (now : ℕ)
        (out : CheckSubmissionReceipt × Board)
        → Reach start b
        → submit_check_result sha256 b agent r now ≡ ok out
        → Reach start out.1

  Reach-IsValid : {start b : Board} → IsValid start → Reach start b → IsValid b
  Reach-IsValid v here = v
  Reach-IsValid v (accepted {b = b} agent r now out p h) =
      submit_check_result-IsValid sha256 b agent r now out (Reach-IsValid v p) h

  -- However the agents' submissions interleave on a board that was just created, the latest result
  -- of every check is a valid model of that check, in the scope of the Run, and past the evidence
  -- gate.
  pub Reach-IsGated :
      (run_id : String) (s : EnterpriseContextSnapshot) (catalog : DueDiligenceCheckCatalog)
      (grants : List SubmissionGrant) (reviewers : List String) (start b : Board) (id : String)
      (r : CheckResult)
      → create run_id s catalog grants reviewers ≡ ok start
      → Reach start b
      → latest_result b id ≡ some r
      → (r.check_id ≡ id)
        × ((model_validate r ≡ ok r)
            × (validate_check_result_scope b.snapshot b.catalog r ≡ ok tt)
            × (validate_check_result_evidence_gate b.snapshot b.catalog r ≡ ok tt))
  Reach-IsGated run_id s catalog grants reviewers start b id r made p e =
      (Reach-IsValid
          (IsFresh-IsValid start (create-IsFresh run_id s catalog grants reviewers start made))
          p).gated
        id r e

  -- A submission that is stored at some moment of a Run is there, unchanged, at every later one.
  pub Reach-submission :
      (start b : Board) (key : SubmissionKey) (x : CheckResult)
      → Reach start b
      → submission start key ≡ some x
      → submission b key ≡ some x
  Reach-submission start b key x here e = e
  Reach-submission start b key x (accepted {b = c} agent r now out p h) e =
      submission-submit_check_result sha256 c agent r now out key x h
        (Reach-submission start c key x p e)
