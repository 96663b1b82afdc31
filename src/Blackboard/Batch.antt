-- ===== src/Blackboard/Batch.antt =====
-- investigation/blackboard.py: `submit_investigation_results`, the atomic batch of an agent's drafts,
-- and the checks on the aliases of its tool.
use jindiao.Prelude.{
  ℕ, List, [], ◌∷◌, ◌++◌, map, String, String_discrete, Bool, true, false, not, ◌||◌, ◌==◌, keep,
  gather, nonempty, subset, unique, distinct, sorted, Option, none, some, eqb, is_yes,
  if◌then◌else◌, Dict, lookup, put, update,
}
use jindiao.Errors.{
  Reason, Error, Result, Checked, ok, err, ◌>>=◌, ◌>>◌, raise_if, traverse, value_error,
  is_value_error,
}
use jindiao.Contracts.Check.{CheckResult, CheckResult-discrete}
use jindiao.Contracts.Catalog.{get, scope_ids}
use jindiao.Contracts.Snapshot.{SubmoduleContext, submodule, known_evidence}
use jindiao.Validation.{context_evidence_ids}
use jindiao.Blackboard.State.{
  Board, Owner, SubmissionKey, Key-discrete, CheckSubmissionReceipt, strips_to_nothing,
}
use jindiao.Blackboard.Submit.{
  key_of, next_version, latest_result, check_receipt, validate_result_scope, validate_evidence_gate,
}
use jindiao.Blackboard.Bind.{BoundCheckResultDraft, bind_check_result, resolve_aliases, identity_of}

-- `expected`: the checks that are granted to the agent
abbrev pub expected_checks : String → Dict String Owner → List String
expected_checks agent owners = map (λ e. e.0) (keep (λ e. e.1.0 == agent) owners)

abbrev pub alias_texts : Dict String String → List String
alias_texts aliases = map (λ (e : String × String). e.1) aliases

-- `{alias: identity for identity, alias in aliases.items()}`
abbrev pub identities_of : Dict String String → Dict String String
identities_of aliases =
    update String_discrete [] (map (λ (e : String × String). (e.1, e.0)) aliases)

-- The guards of `build_submit_bound_check_results_tool`.
unfoldable pub check_batch_tool : Board → String → String → Dict String String → Checked
check_batch_tool b agent prompt_version aliases = do
  raise_if
      (not (nonempty (expected_checks agent b.grant_by_check)) || strips_to_nothing prompt_version)
      (value_error Reason.blank_prompt_version)
  raise_if
      (not (unique (alias_texts aliases))
        || not (subset (map (λ (e : String × String). e.0) aliases) (known_evidence b.snapshot)))
      (value_error Reason.aliases_not_unique)

-- What the message of a failure is made of.
pub record Failure : Type 0 where
  pub check_id : String
  pub error : Error
  pub allowed_evidence_ids : List String

-- The results bound so far, and the failures: `parsed` and `failures`.
pub record Collected : Type 0 where
  pub parsed : List CheckResult
  pub failures : List Failure

abbrev pub draft_ids : List BoundCheckResultDraft → List String
draft_ids drafts = map (λ (d : BoundCheckResultDraft). d.check_id) drafts

module _ (b : Board) (agent prompt_version : String) (aliases : Dict String String) where
  -- The calls of the inner `try`.
  unfoldable pub bind_checked : BoundCheckResultDraft → Result CheckResult
  bind_checked draft = do
    result ← bind_check_result b agent prompt_version draft
    validate_result_scope b agent result
    validate_evidence_gate b result
    ok result

  -- The Evidence that the message of a failure offers, by alias where there is one.
  abbrev pub allowed_ids : List SubmoduleContext → List String
  allowed_ids contexts =
      sorted (distinct (map (identity_of aliases) (gather context_evidence_ids contexts)))

  -- The `except ValueError` clause, which may raise a `KeyError` of its own.
  unfoldable pub describe_failure : BoundCheckResultDraft → Error → Result Failure
  describe_failure draft error = do
    definition ← get b.catalog draft.check_id
    contexts ← traverse (submodule b.snapshot) (scope_ids definition)
    ok (record {
      check_id = draft.check_id;
      error = error;
      allowed_evidence_ids = allowed_ids contexts;
    })

  unfoldable pub collect_draft :
      BoundCheckResultDraft → Result CheckResult → Collected → Result Collected
  unfolding describe_failure
  collect_draft draft (ok result) c = ok (record c { parsed = c.parsed ++ result ∷ [] })
  collect_draft draft (err error) c =
      let described = describe_failure draft error in
      if is_value_error error
      then (described >>= λ failure. ok (record c { failures = c.failures ++ failure ∷ [] }))
      else err error

  -- The loop over the drafts.
  unfoldable pub collect : List BoundCheckResultDraft → Collected → Result Collected
  unfolding bind_checked collect_draft
  collect [] c = ok c
  collect (draft ∷ drafts) c = collect_draft draft (bind_checked draft) c >>= collect drafts

-- `pending` of the loop over the bound results
abbrev pub Pending : Type 0
Pending = Dict SubmissionKey CheckResult

module _ (b : Board) (agent : String) where
  -- Its body, by what the key of the result already holds.
  unfoldable pub plan_result : CheckResult → Option CheckResult → Pending → Result Pending
  plan_result r (some existing) pending = do
    raise_if (not (is_yes (CheckResult-discrete existing r))) (value_error Reason.version_collision)
    ok pending
  plan_result r none pending = do
    raise_if (not (eqb r.submission_version (next_version (latest_result b r.check_id))))
        (value_error Reason.version_must_advance)
    ok (put Key-discrete (key_of agent r) r pending)

  unfoldable pub plan : List CheckResult → Pending → Result Pending
  unfolding plan_result
  plan [] pending = ok pending
  plan (r ∷ rs) pending =
      plan_result r (lookup Key-discrete (key_of agent r) b.submissions) pending >>= plan rs

-- `self._latest_by_check.update({item.check_id: item for item in parsed})`
unfoldable pub update_latest : Dict String CheckResult → List CheckResult → Dict String CheckResult
update_latest latest [] = latest
update_latest latest (r ∷ rs) = update_latest (put String_discrete r.check_id r latest) rs

abbrev pub is_replay : Option CheckResult → Bool
is_replay none = false
is_replay (some r) = true

abbrev pub commit_batch : Board → List CheckResult → Pending → Board
commit_batch b parsed pending = record b {
  submissions = update Key-discrete b.submissions pending;
  latest_by_check = update_latest b.latest_by_check parsed;
}

module _ (sha256 : CheckResult → String) where
  abbrev pub batch_receipts : Board → String → ℕ → List CheckResult → List CheckSubmissionReceipt
  batch_receipts b agent now parsed =
      map
        (λ (r : CheckResult).
          check_receipt sha256 b agent r
            (is_replay (lookup Key-discrete (key_of agent r) b.submissions)) now)
        parsed

  unfoldable pub commit_collected :
      Board → String → ℕ → Collected → Result (List CheckSubmissionReceipt × Board)
  unfolding plan update_latest
  commit_collected b agent now collected = do
    raise_if (nonempty collected.failures) (value_error Reason.batch_failures)
    pending ← plan b agent collected.parsed []
    ok (batch_receipts b agent now collected.parsed, commit_batch b collected.parsed pending)

  -- The `try` of `submit_investigation_results`.
  unfoldable pub submit_batch :
      Board
      → String
      → String
      → Dict String String
      → List BoundCheckResultDraft
      → ℕ
      → Result (List CheckSubmissionReceipt × Board)
  unfolding collect commit_collected resolve_aliases
  submit_batch b agent prompt_version aliases drafts now = do
    let resolved = map (resolve_aliases (identities_of aliases)) drafts
    raise_if
        (not (unique (draft_ids resolved))
          || not (subset (draft_ids resolved) (expected_checks agent b.grant_by_check))
          || not (subset (expected_checks agent b.grant_by_check) (draft_ids resolved)))
        (value_error Reason.batch_incomplete)
    collected ←
        collect b agent prompt_version aliases resolved (record { parsed = []; failures = [] })
    commit_collected b agent now collected
