-- ===== src/Blackboard/Bind.antt =====
-- investigation/blackboard.py: drafts, the citation aliases, and `_bind_check_result`, which adds
-- the Run's identity to a draft.
use jindiao.Prelude.{
  ℕ, List, [], ◌∷◌, map, String, String_discrete, Bool, not, ◌&&◌, ◌==◌, nonempty, Option, none,
  some, is_yes, if◌then◌else◌, Dict, lookup,
}
use jindiao.Errors.{Reason, Result, ok, err, ◌>>=◌, ◌>>◌, value_error}
use jindiao.Contracts.Check.{
  CheckStatus, RiskClass, Severity, FactEvidenceRef, RiskItem, CheckResult, CheckResult-discrete,
  model_validate, is_inconclusive,
}
use jindiao.Contracts.Catalog.{DueDiligenceCheckDefinition, get}
use jindiao.Validation.{
  evidence_gate_inconclusive_summary, validate_check_result_scope,
  downgrade_unsupported_check_conclusion,
}
use jindiao.Blackboard.State.{Board, Owner}
use jindiao.Blackboard.Submit.{next_version, latest_result}

pub record BoundRiskItemDraft : Type 0 where
  pub risk_id : String
  pub title : String
  pub risk_class : RiskClass
  pub severity : Severity
  pub conclusion : String
  pub evidence_ids : List String
  pub confidence : ℕ

pub record BoundCheckResultDraft : Type 0 where
  pub check_id : String
  pub status : CheckStatus
  pub decision_summary : String
  pub risk_items : List BoundRiskItemDraft
  pub fact_evidence_refs : List FactEvidenceRef
  pub missing_evidence : List String
  pub conflicts : List String
  pub confidence : ℕ

-- `identities.get(ref, ref)`
unfoldable pub identity_of : Dict String String → String → String
identity_of identities ref = elim (lookup String_discrete ref identities) [
  | none ↦ ref
  | some id ↦ id
]

-- The draft with its citations by alias replaced by Evidence ids.
unfoldable pub resolve_aliases : Dict String String → BoundCheckResultDraft → BoundCheckResultDraft
unfolding identity_of
resolve_aliases identities d = record d {
  fact_evidence_refs =
      map (λ (f : FactEvidenceRef). record f { evidence_id = identity_of identities f.evidence_id })
        d.fact_evidence_refs;
  risk_items =
      map
        (λ (r : BoundRiskItemDraft). record r {
          evidence_ids = map (identity_of identities) r.evidence_ids;
        })
        d.risk_items;
  conflicts = map (identity_of identities) d.conflicts;
}

abbrev pub without_ref : String → List FactEvidenceRef → List FactEvidenceRef
without_ref id [] = []
without_ref id (f ∷ fs) =
    let rest = without_ref id fs in if id == f.evidence_id then rest else f ∷ rest

-- `setdefault` over the references: the first of each Evidence id stays
unfoldable pub first_refs : List FactEvidenceRef → List FactEvidenceRef
first_refs [] = []
first_refs (f ∷ fs) = f ∷ without_ref f.evidence_id (first_refs fs)

abbrev pub risk_of_draft : String → BoundRiskItemDraft → RiskItem
risk_of_draft check_id item = record {
  risk_id = item.risk_id;
  check_id = check_id;
  title = item.title;
  status = CheckStatus.risk;
  risk_class = item.risk_class;
  severity = item.severity;
  conclusion = item.conclusion;
  evidence_ids = item.evidence_ids;
  confidence = item.confidence;
}

-- A risk or no_risk draft that names missing evidence.
abbrev pub declared_gap : BoundCheckResultDraft → Bool
declared_gap draft = nonempty draft.missing_evidence && not (is_inconclusive draft.status)

abbrev pub candidate :
    Board → String → DueDiligenceCheckDefinition → String → BoundCheckResultDraft → CheckResult
candidate b task definition prompt_version draft =
    let gap = declared_gap draft in
    record {
      snapshot_id = b.snapshot.snapshot_id;
      snapshot_sha256 = b.snapshot.snapshot_sha256;
      subject_id = b.snapshot.subject_id;
      check_catalog_version = b.catalog.catalog_version;
      output_schema_version = definition.output_schema_version;
      task_id = task;
      check_id = draft.check_id;
      status = if gap then CheckStatus.inconclusive else draft.status;
      decision_summary = if gap then evidence_gate_inconclusive_summary else draft.decision_summary;
      risk_items = if gap then [] else map (risk_of_draft draft.check_id) draft.risk_items;
      fact_evidence_refs = first_refs draft.fact_evidence_refs;
      missing_evidence = draft.missing_evidence;
      conflicts = draft.conflicts;
      confidence = draft.confidence;
      prompt_version = prompt_version;
      submission_version = next_version (latest_result b draft.check_id);
    }

-- the task of the check, if it is granted to the agent
abbrev pub granted_task : String → Option Owner → Result String
granted_task agent none = err (value_error Reason.grant_mismatch)
granted_task agent (some (a, task)) =
    if a == agent then ok task else err (value_error Reason.grant_mismatch)

-- The latest result itself, where the candidate says nothing new.
abbrev pub or_latest : Option CheckResult → CheckResult → CheckResult
or_latest none r = r
or_latest (some latest) r =
    if is_yes
      (CheckResult-discrete (record r { submission_version = latest.submission_version }) latest)
    then latest
    else r

-- `_bind_check_result`
unfoldable pub bind_check_result :
    Board → String → String → BoundCheckResultDraft → Result CheckResult
unfolding first_refs
bind_check_result b agent prompt_version draft = do
  task ← granted_task agent (lookup String_discrete draft.check_id b.grant_by_check)
  definition ← get b.catalog draft.check_id
  made ← model_validate (candidate b task definition prompt_version draft)
  validate_check_result_scope b.snapshot b.catalog made
  checked ← downgrade_unsupported_check_conclusion b.snapshot b.catalog made
  ok (or_latest (latest_result b draft.check_id) checked)
