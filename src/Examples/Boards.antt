-- ===== src/Examples/Boards.antt =====
-- investigation/blackboard.py and investigation/validation.py at a Run with one check.
use jindiao.Prelude.{
  decimal, ◌≡◌, ◌⊎◌, ◌↔◌, refl, String, String_discrete, ℕ_discrete, true, false, some, List, [],
  ◌∷◌, lookup, has_key, put, ◌==◌, contains, subset, intersects, distinct, unique, sorted,
}
use jindiao.Errors.{ok}
use jindiao.Contracts.Check.{
  CheckStatus, CheckResult, model_validate, validate_fields, validate_check_result, is_blank,
  is_sha256,
}
use jindiao.Contracts.Catalog.{DueDiligenceCheckDefinition, DueDiligenceCheckCatalog, get}
use jindiao.Contracts.Snapshot.{
  SourceType, SubmoduleAvailability, EnterpriseContextSnapshot, submodule,
}
use jindiao.Validation.{
  validate_check_result_scope, same_identity, cites_known, cites_authorized, public_web_only, scan,
  downgrade_in, downgrade_unsupported_check_conclusion, validate_check_result_evidence_gate,
  downgraded,
}
use jindiao.Validation.Gate.{IsWithdrawn}
use jindiao.Validation.Downgrade.{downgrade-passes_gate, downgrade-eq-self_iff}
use jindiao.Blackboard.State.{
  Board, SubmissionGrant, Key-discrete, CheckSubmissionReceipt, add_checks, add_grants, create,
  strips_to_nothing,
}
use jindiao.Blackboard.Submit.{
  check_receipt, commit, key_of, latest_result, next_version, store, submit_check_result,
  validate_result_scope,
}
use jindiao.Blackboard.Bind.{BoundCheckResultDraft, bind_check_result, first_refs}
use jindiao.Blackboard.Invariant.{IsValid, submission}
use jindiao.Blackboard.Versions.{submit_check_result-IsValid, submit_check_result-advances}
use jindiao.Blackboard.Bound.{submit_check_result-bind_check_result}
use jindiao.Blackboard.Runs.{Reach, Reach-IsGated, Reach-submission, IsFresh-IsValid}

abbrev pub digest : String
digest = "00112233445566778899aabbccddeeff00112233445566778899aabbccddeeff"

abbrev pub definition : DueDiligenceCheckDefinition
definition = record {
  check_id = "registration_status";
  owner_role = "registration_agent";
  required_submodule_ids = "registration" ∷ [];
  optional_submodule_ids = "news" ∷ [];
  prompt_template_id = "registration";
  evidence_requirements = record {
    minimum_evidence_count = 1;
    require_all_required_submodules = true;
    allow_public_web_only_for_no_risk = false;
  };
  report_section_ids = "registration" ∷ [];
  output_schema_version = "1";
  enabled = true;
  order = 1;
}

abbrev pub catalog : DueDiligenceCheckCatalog
catalog = record {
  catalog_version = "checks-1";
  acquisition_catalog_version = "acquisition-1";
  checks = definition ∷ [];
}

abbrev pub snapshot : EnterpriseContextSnapshot
snapshot = record {
  snapshot_id = "snapshot";
  snapshot_sha256 = digest;
  subject_id = "subject";
  acquisition_catalog_version = "acquisition-1";
  planned_submodule_ids = "registration" ∷ "news" ∷ [];
  submodules =
      record {
        submodule_id = "registration";
        availability = SubmoduleAvailability.available;
        evidence_ids = "e1" ∷ [];
        supplemental_evidence_ids = [];
        provenance_ids = [];
        conflict_evidence_ids = [];
      }
      ∷ record {
        submodule_id = "news";
        availability = SubmoduleAvailability.available;
        evidence_ids = "e2" ∷ [];
        supplemental_evidence_ids = [];
        provenance_ids = [];
        conflict_evidence_ids = [];
      }
      ∷ [];
  evidence =
      record { evidence_id = "e1"; subject_id = "subject"; source_type = SourceType.tianyancha }
      ∷ record { evidence_id = "e2"; subject_id = "subject"; source_type = SourceType.public_web }
      ∷ [];
}

abbrev pub grants : List SubmissionGrant
grants =
    record { agent_id = "agent"; task_id = "task"; granted_ids = "registration_status" ∷ [] } ∷ []

abbrev pub board : Board
board = record {
  run_id = "run";
  snapshot = snapshot;
  catalog = catalog;
  grant_by_check = ("registration_status", ("agent", "task")) ∷ [];
  agent_ids = "agent" ∷ [];
  reviewer_agent_ids = "leader" ∷ [];
  submissions = [];
  latest_by_check = [];
}

board_made : create "run" snapshot catalog grants ("leader" ∷ []) ≡ ok board
unfolding create add_grants add_checks strips_to_nothing contains unique lookup has_key put
    String_discrete ◌==◌
board_made = refl

-- A result of the check that cites one Evidence id.
abbrev result_of : CheckStatus → String → CheckResult
result_of status evidence_id = record {
  snapshot_id = "snapshot";
  snapshot_sha256 = digest;
  subject_id = "subject";
  check_catalog_version = "checks-1";
  output_schema_version = "1";
  task_id = "task";
  check_id = "registration_status";
  status = status;
  decision_summary = "active";
  risk_items = [];
  fact_evidence_refs =
      record { evidence_id = evidence_id; fact_path = "status"; summary = "active" } ∷ [];
  missing_evidence = [];
  conflicts = [];
  confidence = 900000;
  prompt_version = "1";
  submission_version = 1;
}

abbrev pub supported : CheckResult
supported = result_of CheckStatus.no_risk "e1"

-- its only source is the public Web, and the required submodule is not cited
abbrev unsupported : CheckResult
unsupported = result_of CheckStatus.no_risk "e2"

abbrev pub sha256 : CheckResult → String
sha256 r = digest

abbrev after : Board
after = commit board "agent" supported

abbrev outcome : CheckSubmissionReceipt × Board
outcome = (check_receipt sha256 board "agent" supported false 5, after)

accepted : submit_check_result sha256 board "agent" supported 5 ≡ ok outcome
unfolding submit_check_result store validate_result_scope model_validate validate_fields
    validate_check_result validate_check_result_scope same_identity cites_known cites_authorized
    validate_check_result_evidence_gate public_web_only get submodule is_blank is_sha256 contains
    subset intersects distinct unique lookup put String_discrete ℕ_discrete Key-discrete ◌==◌
accepted = refl

later : Reach sha256 board after
later = Reach.accepted "agent" supported 5 outcome Reach.here accepted

after-latest : latest_result after "registration_status" ≡ some supported
unfolding lookup put String_discrete ◌==◌
after-latest = refl

after-held : submission after (key_of "agent" supported) ≡ some supported
unfolding lookup put Key-discrete String_discrete ℕ_discrete ◌==◌
after-held = refl

pub board-IsValid : IsValid board
board-IsValid = IsFresh-IsValid board (refl, refl)

Reach-IsGated_example :
    (supported.check_id ≡ "registration_status")
    × ((model_validate supported ≡ ok supported)
        × (validate_check_result_scope snapshot catalog supported ≡ ok tt)
        × (validate_check_result_evidence_gate snapshot catalog supported ≡ ok tt))
Reach-IsGated_example =
    Reach-IsGated sha256 "run" snapshot catalog grants ("leader" ∷ []) board after
      "registration_status" supported board_made later after-latest

Reach-submission_example : submission after (key_of "agent" supported) ≡ some supported
Reach-submission_example =
    Reach-submission sha256 after after (key_of "agent" supported) supported Reach.here after-held

submit_check_result-IsValid_example : IsValid after
submit_check_result-IsValid_example =
    submit_check_result-IsValid sha256 board "agent" supported 5 outcome board-IsValid accepted

-- the second version of the result, accepted in between
abbrev revised : CheckResult
revised = record supported { submission_version = 2 }

abbrev revised_outcome : CheckSubmissionReceipt × Board
revised_outcome = (check_receipt sha256 after "agent" revised false 7, commit after "agent" revised)

submit_check_result-advances_example :
    (1 ≡ next_version (latest_result board "registration_status"))
    × (latest_result after "registration_status" ≡ some supported)
submit_check_result-advances_example =
    submit_check_result-advances sha256 board "agent" supported 5 outcome accepted refl

-- the downgrade of the unsupported result, for what the gate misses
abbrev pub withdrawn : CheckResult
withdrawn =
    downgraded unsupported
      ("required:registration:missing_evidence" ∷ "authoritative_evidence_required" ∷ []) []

unsupported_downgraded :
    downgrade_unsupported_check_conclusion snapshot catalog unsupported ≡ ok withdrawn
unfolding downgrade_unsupported_check_conclusion downgrade_in scan public_web_only get submodule
    contains intersects distinct sorted ◌==◌
unsupported_downgraded = refl

downgrade-passes_gate_example :
    (validate_check_result_evidence_gate snapshot catalog withdrawn ≡ ok tt)
    × ((withdrawn ≡ unsupported) ⊎ IsWithdrawn unsupported withdrawn)
downgrade-passes_gate_example =
    downgrade-passes_gate snapshot catalog unsupported withdrawn refl unsupported_downgraded

supported_in_scope : validate_check_result_scope snapshot catalog supported ≡ ok tt
unfolding validate_check_result_scope same_identity cites_known cites_authorized get submodule
    contains subset distinct ◌==◌
supported_in_scope = refl

downgrade-eq-self_iff_example :
    (downgrade_unsupported_check_conclusion snapshot catalog supported ≡ ok supported)
    ↔ (validate_check_result_evidence_gate snapshot catalog supported ≡ ok tt)
downgrade-eq-self_iff_example =
    downgrade-eq-self_iff snapshot catalog supported refl supported_in_scope

abbrev pub draft : BoundCheckResultDraft
draft = record {
  check_id = "registration_status";
  status = CheckStatus.no_risk;
  decision_summary = "active";
  risk_items = [];
  fact_evidence_refs = record { evidence_id = "e2"; fact_path = "status"; summary = "active" } ∷ [];
  missing_evidence = [];
  conflicts = [];
  confidence = 900000;
}

draft_bound : bind_check_result board "agent" "1" draft ≡ ok withdrawn
unfolding bind_check_result first_refs model_validate validate_fields validate_check_result
    validate_check_result_scope same_identity cites_known cites_authorized
    downgrade_unsupported_check_conclusion downgrade_in scan public_web_only get submodule is_blank
    is_sha256 contains subset intersects distinct sorted unique lookup String_discrete ◌==◌
draft_bound = refl

submit_check_result-bind_check_result_example :
    (out : CheckSubmissionReceipt × Board) × (submit_check_result sha256 board "agent" withdrawn 7
      ≡ ok out)
submit_check_result-bind_check_result_example =
    submit_check_result-bind_check_result sha256 board "agent" 7 "1" draft withdrawn board-IsValid
      refl draft_bound

decimal_written : decimal 120 ≡ "120"
unfolding decimal
decimal_written = refl
