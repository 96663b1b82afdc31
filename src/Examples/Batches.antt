-- ===== src/Examples/Batches.antt =====
-- The batch of an agent, and the last gate over all agents, at the Run with one check.
use jindiao.Prelude.{
  ◌≡◌, refl, String, String_discrete, ℕ_discrete, true, false, List, [], ◌∷◌, Dict, lookup, put,
  update, ◌==◌, contains, subset, intersects, distinct, unique, sorted, All, has_key, some,
}
use jindiao.Errors.{ok}
use jindiao.Contracts.Check.{
  CheckResult, model_validate, validate_fields, validate_check_result, is_blank, is_sha256,
}
use jindiao.Contracts.Catalog.{get}
use jindiao.Contracts.Snapshot.{submodule}
use jindiao.Validation.{
  validate_check_result_scope, same_identity, cites_known, cites_authorized, public_web_only, scan,
  downgrade_in, downgrade_unsupported_check_conclusion, validate_check_result_evidence_gate,
}
use jindiao.Blackboard.State.{Board, Key-discrete, CheckSubmissionReceipt}
use jindiao.Blackboard.Submit.{check_receipt, commit, latest_result, validate_result_scope}
use jindiao.Blackboard.Bind.{
  BoundCheckResultDraft, bind_check_result, first_refs, identity_of, resolve_aliases,
}
use jindiao.Blackboard.Batch.{
  bind_checked, collect, collect_draft, commit_collected, describe_failure, expected_checks, plan,
  plan_result, submit_batch, update_latest,
}
use jindiao.Blackboard.Invariant.{IsValid}
use jindiao.Blackboard.Sequence.{result_ids, submit_all}
use jindiao.Blackboard.Collected.{submit_batch-submit_all}
use jindiao.Blackboard.Complete.{submit_batch-IsAnswered}
use jindiao.Acceptance.Results.{
  AgentInvestigationResult, AgentResultPhase, AgentStatus, claim_risks, check_accepted,
  accept_check, accept_checks, accept_phase, accept_agents, in_order, finish,
  validate_accepted_investigation_results,
}
use jindiao.Acceptance.Order.{validate_accepted_investigation_results-IsSound, ids_of}
use jindiao.Examples.Boards.{
  board, catalog, snapshot, supported, draft, sha256, withdrawn, board-IsValid,
}

abbrev aliases : Dict String String
aliases = ("e1", "S1") ∷ ("e2", "S2") ∷ []

-- the draft of the board, with its citation by alias
abbrev by_alias : BoundCheckResultDraft
by_alias = record draft {
  fact_evidence_refs = record { evidence_id = "S2"; fact_path = "status"; summary = "active" } ∷ [];
}

abbrev batched : List CheckSubmissionReceipt × Board
batched =
    (check_receipt sha256 board "agent" withdrawn false 7 ∷ [], commit board "agent" withdrawn)

batch_accepted : submit_batch sha256 board "agent" "1" aliases (by_alias ∷ []) 7 ≡ ok batched
unfolding submit_batch commit_collected collect collect_draft bind_checked describe_failure plan
    plan_result update_latest resolve_aliases identity_of bind_check_result first_refs
    validate_result_scope model_validate validate_fields validate_check_result
    validate_check_result_scope same_identity cites_known cites_authorized
    downgrade_unsupported_check_conclusion downgrade_in scan public_web_only
    validate_check_result_evidence_gate get submodule is_blank is_sha256 contains subset intersects
    distinct sorted unique lookup put update String_discrete Key-discrete ℕ_discrete ◌==◌
batch_accepted = refl

submit_batch-submit_all_example :
    (rs : List CheckResult) × (result_ids rs ≡ "registration_status" ∷ [])
    × (submit_all sha256 board "agent" rs 7 ≡ ok batched)
submit_batch-submit_all_example =
    submit_batch-submit_all board "agent" "1" aliases sha256 (by_alias ∷ []) 7 batched board-IsValid
      batch_accepted

submit_batch-IsAnswered_example :
    IsValid (commit board "agent" withdrawn)
    × ((id : String)
        → contains (expected_checks "agent" board.grant_by_check) id ≡ true
        → (l : CheckResult) × (latest_result (commit board "agent" withdrawn) id ≡ some l))
submit_batch-IsAnswered_example =
    submit_batch-IsAnswered sha256 board "agent" "1" aliases (by_alias ∷ []) 7 batched board-IsValid
      batch_accepted

abbrev investigator : AgentInvestigationResult
investigator = record {
  agent_id = "agent";
  role = "registration_agent";
  phase = AgentResultPhase.investigation;
  status = AgentStatus.completed;
  task_ids = "task" ∷ [];
  check_results = supported ∷ [];
  risk_items = [];
  fact_evidence_refs = supported.fact_evidence_refs;
  prompt_version = "1";
}

investigation_accepted :
    validate_accepted_investigation_results snapshot catalog (investigator ∷ []) false
    ≡ ok (supported ∷ [])
unfolding validate_accepted_investigation_results finish in_order accept_agents accept_phase
    accept_checks accept_check check_accepted claim_risks validate_check_result_scope same_identity
    cites_known cites_authorized public_web_only validate_check_result_evidence_gate get submodule
    contains subset intersects distinct has_key lookup put String_discrete ◌==◌
investigation_accepted = refl

validate_accepted_investigation_results-IsSound_example :
    All
      (λ (r : CheckResult).
        (validate_check_result_scope snapshot catalog r ≡ ok tt)
        × (validate_check_result_evidence_gate snapshot catalog r ≡ ok tt))
      (supported ∷ [])
    × (false ≡ false → ids_of (supported ∷ []) ≡ "registration_status" ∷ [])
validate_accepted_investigation_results-IsSound_example =
    validate_accepted_investigation_results-IsSound snapshot catalog (investigator ∷ []) false
      (supported ∷ []) investigation_accepted
