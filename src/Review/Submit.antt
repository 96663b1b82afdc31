-- ===== src/Review/Submit.antt =====
-- investigation/blackboard.py: `submit_review`, `_validate_review`, `_bind_review`, `_review_receipt`.
-- The digest of a review is the parameter `sha256`.
use jindiao.Prelude.{
  ℕ, ◌+◌, List, [], ◌∷◌, String, String_discrete, ℕ_discrete, Bool, true, false, not, ◌&&◌, any,
  nonempty, subset, contains, ◌==◌, eqb, Option, none, some, is_yes, if◌then◌else◌, Dict, lookup,
  put, max, keep,
}
use jindiao.Errors.{
  Reason, Result, Checked, ok, err, ◌>>=◌, ◌>>◌, raise_if, for_each, traverse, or_key_error,
  value_error,
}
use jindiao.Contracts.Catalog.{check_ids}
use jindiao.Contracts.Snapshot.{known_evidence}
use jindiao.Blackboard.State.{Board}
use jindiao.Budget.Ledger.{BudgetLedger}
use jindiao.Budget.Claims.{claim_repair_round}
use jindiao.Review.Model.{
  ReviewIssue, RepairTask, ReviewSubmission, ReviewSubmissionReceipt, Review-discrete,
  model_validate_review,
}

-- The board with its reviews, by version, and the ledger that it charges, if it has one. The
-- submissions of checks touch neither.
pub record ReviewBoard : Type 0 where
  pub board : Board
  pub reviews : Dict ℕ ReviewSubmission
  pub ledger : Option BudgetLedger

-- `{item.issue_id: item for item in review.issues}`
unfoldable pub issue_by_id : List ReviewIssue → Dict String ReviewIssue → Dict String ReviewIssue
issue_by_id [] built = built
issue_by_id (i ∷ is) built = issue_by_id is (put String_discrete i.issue_id i built)

abbrev pub targets_unknown : Board → Option String → Bool
targets_unknown b none = false
targets_unknown b (some agent) = not (contains b.agent_ids agent)

-- The clauses on an issue.
unfoldable pub check_issue : Board → ReviewIssue → Checked
check_issue b issue = do
  raise_if (not (nonempty issue.check_ids)) (value_error Reason.issue_without_check)
  raise_if (not (subset issue.check_ids (check_ids b.catalog))) (value_error Reason.unknown_check)
  raise_if (not (subset issue.evidence_ids (known_evidence b.snapshot)))
      (value_error Reason.unknown_evidence)
  raise_if (targets_unknown b issue.target_agent) (value_error Reason.review_targets_unknown_agent)

abbrev pub is_other_target : RepairTask → ReviewIssue → Bool
is_other_target repair issue = elim issue.target_agent [
  | none ↦ false
  | some agent ↦ not (agent == repair.target_agent)
]

-- `issue_by_id[issue_id] for issue_id in repair.issue_ids`
abbrev pub issues_of_repair : ReviewSubmission → RepairTask → Result (List ReviewIssue)
issues_of_repair review repair =
    traverse (λ id. or_key_error (lookup String_discrete id (issue_by_id review.issues [])))
      repair.issue_ids

-- The clauses on a repair task.
unfoldable pub check_repair : Board → ReviewSubmission → RepairTask → Checked
unfolding issue_by_id
check_repair b review repair = do
  issues ← issues_of_repair review repair
  raise_if (any (is_other_target repair) issues) (value_error Reason.repair_target_mismatch)
  raise_if (not (contains b.agent_ids repair.target_agent))
      (value_error Reason.review_targets_unknown_agent)

-- `_validate_review`
unfoldable pub validate_review : Board → String → ReviewSubmission → Checked
unfolding check_issue check_repair
validate_review b reviewer review = do
  raise_if (not (contains b.reviewer_agent_ids reviewer)) (value_error Reason.not_a_reviewer)
  raise_if (not (review.snapshot_id == b.snapshot.snapshot_id))
      (value_error Reason.another_snapshot)
  raise_if (not (review.snapshot_sha256 == b.snapshot.snapshot_sha256))
      (value_error Reason.snapshot_hash_mismatch)
  raise_if (not (review.subject_id == b.snapshot.subject_id)) (value_error Reason.another_subject)
  raise_if (not (review.check_catalog_version == b.catalog.catalog_version))
      (value_error Reason.another_catalog_version)
  for_each (check_issue b) review.issues
  for_each (check_repair b review) review.repair_tasks

-- `max(self._reviews, default=0)`
unfoldable pub latest_version : Dict ℕ ReviewSubmission → ℕ
latest_version [] = 0
latest_version ((n, r) ∷ reviews) = max n (latest_version reviews)

-- What an operation returns, and the board it leaves, also when it raises.
abbrev pub Outcome : Type 0
Outcome = Result ReviewSubmissionReceipt × ReviewBoard

abbrev pub is_charged : Bool → ReviewSubmission → Bool
is_charged charge review = charge && nonempty review.repair_tasks

-- The charge before the commit: what the ledger answers, and the ledger after it.
unfoldable pub charge_round : Bool → ℕ → Option BudgetLedger → Checked × Option BudgetLedger
charge_round charged at none = (ok tt, none)
charge_round false at (some l) = (ok tt, some l)
charge_round true at (some l) = let c = claim_repair_round at l in (c.0, some c.1)

module _ (sha256 : ReviewSubmission → String) where
  -- `_review_receipt`
  abbrev pub review_receipt : Board → String → ReviewSubmission → Bool → ℕ → ReviewSubmissionReceipt
  review_receipt b reviewer review replay now = record {
    run_id = b.run_id;
    snapshot_id = b.snapshot.snapshot_id;
    reviewer_agent_id = reviewer;
    review_version = review.review_version;
    review_sha256 = sha256 review;
    accepted = true;
    idempotent_replay = replay;
    accepted_at = now;
  }

  abbrev pub commit_review :
      ReviewBoard → String → ReviewSubmission → ℕ → Checked × Option BudgetLedger → Outcome
  commit_review s reviewer review now (err e, ledger) = (err e, record s { ledger = ledger })
  commit_review s reviewer review now (ok u, ledger) = (
    ok (review_receipt s.board reviewer review false now),
    record s { reviews = put ℕ_discrete review.review_version review s.reviews; ledger = ledger },
  )

  -- The part under the lock, by what the version already holds. `at` is the time of the ledger.
  unfoldable pub store_review :
      ReviewBoard → String → ReviewSubmission → Bool → ℕ → ℕ → Option ReviewSubmission → Outcome
  unfolding latest_version
  store_review s reviewer review charge now at (some existing) =
      if is_yes (Review-discrete existing review)
      then (ok (review_receipt s.board reviewer review true now), s)
      else (err (value_error Reason.version_collision), s)
  store_review s reviewer review charge now at none =
      if eqb review.review_version (latest_version s.reviews + 1)
      then commit_review s reviewer review now (charge_round (is_charged charge review) at s.ledger)
      else (err (value_error Reason.version_must_advance), s)

  abbrev pub refuse_or : ReviewBoard → Checked → Outcome → Outcome
  refuse_or s (err e) o = (err e, s)
  refuse_or s (ok u) o = o

  unfoldable pub submit_review : ReviewBoard → String → ReviewSubmission → Bool → ℕ → ℕ → Outcome
  unfolding store_review validate_review
  submit_review s reviewer review charge now at =
      refuse_or s (model_validate_review review >>= validate_review s.board reviewer) (
        store_review s reviewer review charge now at
          (lookup ℕ_discrete review.review_version s.reviews))

-- `latest_review`
abbrev pub latest_review : Dict ℕ ReviewSubmission → Option ReviewSubmission
latest_review reviews = lookup ℕ_discrete (latest_version reviews) reviews

-- The part of a review that an agent writes. Its length limits are checked before it is bound.
pub record BoundReviewDraft : Type 0 where
  pub issues : List ReviewIssue
  pub repair_tasks : List RepairTask

-- `1 if latest is None else latest.review_version + 1`
abbrev pub next_review_version : Option ReviewSubmission → ℕ
next_review_version none = 1
next_review_version (some latest) = latest.review_version + 1

-- The review of a draft: repair tasks that need Evidence outside the snapshot are left out.
abbrev pub review_candidate : ReviewBoard → String → BoundReviewDraft → ReviewSubmission
review_candidate s prompt_version draft = record {
  snapshot_id = s.board.snapshot.snapshot_id;
  snapshot_sha256 = s.board.snapshot.snapshot_sha256;
  subject_id = s.board.snapshot.subject_id;
  check_catalog_version = s.board.catalog.catalog_version;
  prompt_version = prompt_version;
  review_version = next_review_version (latest_review s.reviews);
  issues = draft.issues;
  repair_tasks =
      keep (λ (t : RepairTask). subset t.required_evidence (known_evidence s.board.snapshot))
        draft.repair_tasks;
}

abbrev pub or_latest_review : Option ReviewSubmission → ReviewSubmission → ReviewSubmission
or_latest_review none r = r
or_latest_review (some latest) r =
    if is_yes (Review-discrete (record r { review_version = latest.review_version }) latest)
    then latest
    else r

-- `_bind_review`
unfoldable pub bind_review : ReviewBoard → String → BoundReviewDraft → Result ReviewSubmission
unfolding latest_version
bind_review s prompt_version draft = do
  made ← model_validate_review (review_candidate s prompt_version draft)
  ok (or_latest_review (latest_review s.reviews) made)
