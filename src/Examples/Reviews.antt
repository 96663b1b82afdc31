-- ===== src/Examples/Reviews.antt =====
-- investigation/blackboard.py: a review with a repair task, on the board of one check.
use jindiao.Prelude.{
  ◌≡◌, refl, String, some, [], ◌∷◌, lookup, put, true, false, contains, subset, unique, ◌==◌,
  String_discrete,
}
use jindiao.Errors.{ok, ◌>>=◌}
use jindiao.Contracts.Check.{is_blank, is_sha256}
use jindiao.Budget.Ledger.{open_ledger}
use jindiao.Budget.Claims.{claim_repair_round}
use jindiao.Review.Model.{
  ReviewIssue, RepairTask, ReviewSubmission, ReviewSubmissionReceipt, model_validate_review,
  validate_review_fields, validate_unique_items, validate_repair_task,
}
use jindiao.Review.Submit.{
  BoundReviewDraft, bind_review, validate_review, check_issue, check_repair, issue_by_id,
  ReviewBoard, submit_review, latest_version, charge_round,
}
use jindiao.Review.Binding.{submit_review-bind_review}
use jindiao.Review.Outcomes.{
  IsHistoryFrom, Submitted, submit_review-Submitted, submit_review-IsHistoryFrom,
}
use jindiao.Examples.Boards.{digest, board}
use jindiao.Examples.Budgets.{budget}

abbrev issue : ReviewIssue
issue = record {
  issue_id = "issue";
  issue_type = "missing_evidence";
  message = "cite the register";
  finding_ids = [];
  check_ids = "registration_status" ∷ [];
  submission_refs = [];
  evidence_ids = [];
  target_agent = some "agent";
  resolved = false;
}

abbrev repair : RepairTask
repair = record {
  repair_id = "repair";
  issue_ids = "issue" ∷ [];
  target_agent = "agent";
  requested_fields = "fact_evidence_refs" ∷ [];
  required_evidence = "e1" ∷ [];
  attempt = 1;
  max_attempts = 1;
}

abbrev review : ReviewSubmission
review = record {
  snapshot_id = "snapshot";
  snapshot_sha256 = digest;
  subject_id = "subject";
  check_catalog_version = "checks-1";
  prompt_version = "1";
  review_version = 1;
  issues = issue ∷ [];
  repair_tasks = repair ∷ [];
}

abbrev reviewed : ReviewBoard
reviewed = record { board = board; reviews = []; ledger = some (open_ledger budget 0) }

abbrev sha256 : ReviewSubmission → String
sha256 r = digest

submit_review-Submitted_example :
    Submitted sha256 reviewed "leader" review true 5
      (submit_review sha256 reviewed "leader" review true 5 5)
submit_review-Submitted_example = submit_review-Submitted sha256 reviewed "leader" review true 5 5

submit_review-IsHistoryFrom_example :
    IsHistoryFrom 1 (submit_review sha256 reviewed "leader" review true 5 5).1.reviews
submit_review-IsHistoryFrom_example =
    submit_review-IsHistoryFrom sha256 reviewed "leader" review true 5 5 tt

abbrev draft : BoundReviewDraft
draft = record { issues = issue ∷ []; repair_tasks = repair ∷ [] }

bound : bind_review reviewed "1" draft ≡ ok review
unfolding bind_review model_validate_review validate_review_fields validate_unique_items
    validate_repair_task latest_version is_blank is_sha256 contains subset unique lookup ◌==◌
bound = refl

valid : (model_validate_review review >>= validate_review board "leader") ≡ ok tt
unfolding model_validate_review validate_review_fields validate_unique_items validate_repair_task
    validate_review check_issue check_repair issue_by_id is_blank is_sha256 contains subset unique
    lookup put String_discrete ◌==◌
valid = refl

charged : (charge_round true 5 (some (open_ledger budget 0))).0 ≡ ok tt
unfolding charge_round claim_repair_round open_ledger
charged = refl

submit_review-bind_review_example :
    (receipt : ReviewSubmissionReceipt) × ((submit_review sha256 reviewed "leader" review true 5
        5).0
      ≡ ok receipt)
submit_review-bind_review_example =
    submit_review-bind_review sha256 reviewed "leader" "1" draft review true 5 5 tt bound valid
      charged
