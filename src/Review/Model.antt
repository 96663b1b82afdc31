-- ===== src/Review/Model.antt =====
-- investigation/blackboard.py: `ReviewSubmission`, and contracts/investigation.py: `ReviewIssue` and
-- `RepairTask`, with their validators.
use jindiao.Prelude.{
  ℕ, List, [], ◌∷◌, map, String, String_discrete, ℕ_discrete, Bool, not, ◌||◌, any, nonempty,
  subset, unique, ltb, eqb, Option,
}
use jindiao.Errors.{Reason, Result, Checked, ok, ◌>>◌, raise_if, for_each, validation_error}
use jindiao.Contracts.Check.{is_blank, is_sha256}

pub record ReviewIssue : Type 0 where
  pub issue_id : String
  pub issue_type : String
  pub message : String
  pub finding_ids : List String
  pub check_ids : List String
  pub submission_refs : List String
  pub evidence_ids : List String
  pub target_agent : Option String
  pub resolved : Bool

pub record RepairTask : Type 0 where
  pub repair_id : String
  pub issue_ids : List String
  pub target_agent : String
  pub requested_fields : List String
  pub required_evidence : List String
  pub attempt : ℕ
  pub max_attempts : ℕ

pub record ReviewSubmission : Type 0 where
  pub snapshot_id : String
  pub snapshot_sha256 : String
  pub subject_id : String
  pub check_catalog_version : String
  pub prompt_version : String
  pub review_version : ℕ
  pub issues : List ReviewIssue
  pub repair_tasks : List RepairTask

-- `==` on two models
unfoldable pub Review-discrete : Discrete ReviewSubmission
Review-discrete = hlevel (String_discrete, ℕ_discrete)

pub record ReviewSubmissionReceipt : Type 0 where
  pub run_id : String
  pub snapshot_id : String
  pub reviewer_agent_id : String
  pub review_version : ℕ
  pub review_sha256 : String
  pub accepted : Bool
  pub idempotent_replay : Bool
  pub accepted_at : ℕ

-- The declared fields of an issue.
abbrev pub validate_issue_fields : ReviewIssue → Checked
validate_issue_fields i =
    raise_if (any is_blank (i.issue_id ∷ i.issue_type ∷ i.message ∷ []))
      (validation_error Reason.blank_field)

-- The declared fields of a repair task, and `enforce_attempt_budget`.
unfoldable pub validate_repair_task : RepairTask → Checked
validate_repair_task r = do
  raise_if (any is_blank (r.repair_id ∷ r.target_agent ∷ [])) (validation_error Reason.blank_field)
  raise_if
      (not (nonempty r.issue_ids)
        || not (nonempty r.requested_fields)
        || not (nonempty r.required_evidence))
      (validation_error Reason.blank_field)
  raise_if (eqb r.attempt 0 || eqb r.max_attempts 0) (validation_error Reason.out_of_range)
  raise_if (ltb r.max_attempts r.attempt) (validation_error Reason.repair_attempt_exceeds_max)

abbrev pub issue_ids_of : ReviewSubmission → List String
issue_ids_of r = map (λ (i : ReviewIssue). i.issue_id) r.issues

-- The declared fields of a review, those of its parts included.
unfoldable pub validate_review_fields : ReviewSubmission → Checked
unfolding validate_repair_task
validate_review_fields r = do
  raise_if
      (any is_blank
        (r.snapshot_id ∷ r.subject_id ∷ r.check_catalog_version ∷ r.prompt_version ∷ []))
      (validation_error Reason.blank_field)
  raise_if (not (is_sha256 r.snapshot_sha256)) (validation_error Reason.not_a_sha256)
  raise_if (eqb r.review_version 0) (validation_error Reason.out_of_range)
  for_each validate_issue_fields r.issues
  for_each validate_repair_task r.repair_tasks

-- `validate_unique_items`
unfoldable pub validate_unique_items : ReviewSubmission → Checked
validate_unique_items r = do
  raise_if (not (unique (issue_ids_of r))) (validation_error Reason.review_ids_not_unique)
  raise_if (not (unique (map (λ (t : RepairTask). t.repair_id) r.repair_tasks)))
      (validation_error Reason.repair_ids_not_unique)
  for_each
      (λ (t : RepairTask).
        raise_if (not (subset t.issue_ids (issue_ids_of r)))
          (validation_error Reason.repair_of_unknown_issue))
      r.repair_tasks

-- `ReviewSubmission.model_validate(...)`
unfoldable pub model_validate_review : ReviewSubmission → Result ReviewSubmission
unfolding validate_review_fields validate_unique_items
model_validate_review r = do validate_review_fields r; validate_unique_items r; ok r
