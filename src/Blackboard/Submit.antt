-- ===== src/Blackboard/Submit.antt =====
-- investigation/blackboard.py: `submit_check_result`, its checks and its receipt.
-- `sha256`, the digest of a model's canonical JSON by the standard library, is a parameter.
use jindiao.Prelude.{
  ℕ, ◌+◌, String, String_discrete, Bool, true, false, not, Option, none, some, eqb, is_yes, ◌==◌,
  ◌&&◌, lookup, put,
}
use jindiao.Errors.{Reason, Result, Checked, ok, ◌>>=◌, ◌>>◌, raise_if, value_error}
use jindiao.Contracts.Check.{CheckResult, CheckResult-discrete, model_validate}
use jindiao.Validation.{validate_check_result_scope, validate_check_result_evidence_gate}
use jindiao.Blackboard.State.{Board, Owner, SubmissionKey, Key-discrete, CheckSubmissionReceipt}

abbrev pub owns : String → String → Option Owner → Bool
owns agent task none = false
owns agent task (some (a, t)) = a == agent && t == task

-- `_validate_result_scope`
unfoldable pub validate_result_scope : Board → String → CheckResult → Checked
validate_result_scope b agent r = do
  validate_check_result_scope b.snapshot b.catalog r
  raise_if (not (owns agent r.task_id (lookup String_discrete r.check_id b.grant_by_check)))
      (value_error Reason.grant_mismatch)

-- `_validate_evidence_gate`
abbrev pub validate_evidence_gate : Board → CheckResult → Checked
validate_evidence_gate b r = validate_check_result_evidence_gate b.snapshot b.catalog r

abbrev pub key_of : String → CheckResult → SubmissionKey
key_of agent r = record {
  agent_id = agent;
  task_id = r.task_id;
  check_id = r.check_id;
  submission_version = r.submission_version;
}

-- `1 if previous is None else previous.submission_version + 1`
abbrev pub next_version : Option CheckResult → ℕ
next_version none = 1
next_version (some previous) = previous.submission_version + 1

-- `latest_result`
abbrev pub latest_result : Board → String → Option CheckResult
latest_result b id = lookup String_discrete id b.latest_by_check

abbrev pub commit : Board → String → CheckResult → Board
commit b agent r = record b {
  submissions = put Key-discrete (key_of agent r) r b.submissions;
  latest_by_check = put String_discrete r.check_id r b.latest_by_check;
}

module _ (sha256 : CheckResult → String) where
  -- `_check_receipt`
  abbrev pub check_receipt : Board → String → CheckResult → Bool → ℕ → CheckSubmissionReceipt
  check_receipt b agent r replay now = record {
    run_id = b.run_id;
    snapshot_id = b.snapshot.snapshot_id;
    agent_id = agent;
    task_id = r.task_id;
    check_id = r.check_id;
    submission_version = r.submission_version;
    submission_sha256 = sha256 r;
    accepted = true;
    idempotent_replay = replay;
    accepted_at = now;
  }

  -- The part under the lock, by what the key already holds.
  unfoldable pub store :
      Board
      → String
      → CheckResult
      → ℕ
      → Option CheckResult
      → Result (CheckSubmissionReceipt × Board)
  store b agent r now (some existing) = do
    raise_if (not (is_yes (CheckResult-discrete existing r))) (value_error Reason.version_collision)
    ok (check_receipt b agent r true now, b)
  store b agent r now none = do
    raise_if (not (eqb r.submission_version (next_version (latest_result b r.check_id))))
        (value_error Reason.version_must_advance)
    ok (check_receipt b agent r false now, commit b agent r)

  unfoldable pub submit_check_result :
      Board → String → CheckResult → ℕ → Result (CheckSubmissionReceipt × Board)
  unfolding store validate_result_scope
  submit_check_result b agent result now = do
    validated ← model_validate result
    validate_result_scope b agent validated
    validate_evidence_gate b validated
    store b agent validated now (lookup Key-discrete (key_of agent validated) b.submissions)
