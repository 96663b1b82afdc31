-- ===== src/Contracts/Check.antt =====
-- contracts/investigation.py: check results, risk items and their validators.
-- A confidence, a float in [0, 1] in the source, is a number of millionths: the modelled code only
-- carries and compares it.
use Prim.Native.Char.{code}
use jindiao.Prelude.{
  arith, ◌≡◌, ℕ, List, [], ◌∷◌, map, String, String_discrete, ℕ_discrete, Bool, true, false, not,
  ◌&&◌, ◌||◌, ◌==◌, eqb, ltb, leb, any, nonempty, subset, unique,
}
use jindiao.Errors.{
  >>-eq-ok, Checked, Reason, Result, ok, ◌>>◌, raise_if, for_each, validation_error,
}

pub data RiskClass : Type 0 where
  admission attention non_risk : RiskClass

pub data Severity : Type 0 where
  info low medium high critical : Severity

pub data CheckStatus : Type 0 where
  risk no_risk inconclusive : CheckStatus

abbrev pub is_risk : CheckStatus → Bool
is_risk CheckStatus.risk = true
is_risk _ = false

abbrev pub is_no_risk : CheckStatus → Bool
is_no_risk CheckStatus.no_risk = true
is_no_risk _ = false

abbrev pub is_inconclusive : CheckStatus → Bool
is_inconclusive CheckStatus.inconclusive = true
is_inconclusive _ = false

pub record FactEvidenceRef : Type 0 where
  pub evidence_id : String
  pub fact_path : String
  pub summary : String

pub record RiskItem : Type 0 where
  pub risk_id : String
  pub check_id : String
  pub title : String
  pub status : CheckStatus
  pub risk_class : RiskClass
  pub severity : Severity
  pub conclusion : String
  pub evidence_ids : List String
  pub confidence : ℕ

pub record CheckResult : Type 0 where
  pub snapshot_id : String
  pub snapshot_sha256 : String
  pub subject_id : String
  pub check_catalog_version : String
  pub output_schema_version : String
  pub task_id : String
  pub check_id : String
  pub status : CheckStatus
  pub decision_summary : String
  pub risk_items : List RiskItem
  pub fact_evidence_refs : List FactEvidenceRef
  pub missing_evidence : List String
  pub conflicts : List String
  pub confidence : ℕ
  pub prompt_version : String
  pub submission_version : ℕ

-- `==` on two models
unfoldable pub CheckResult-discrete : Discrete CheckResult
CheckResult-discrete = hlevel (String_discrete, ℕ_discrete)

abbrev pub max_confidence : ℕ
max_confidence = 1000000

-- `Field(min_length=1)`
unfoldable pub is_blank : String → Bool
is_blank s = s == ""

abbrev digits_sha256 : String → Bool
digits_sha256 String.[] = true
digits_sha256 (String.◌∷◌ c s) =
    let rest = digits_sha256 s in
    ((leb b'0' (code c) && leb (code c) b'9') || (leb b'a' (code c) && leb (code c) b'f')) && rest

abbrev text_length : String → ℕ
text_length String.[] = 0
text_length (String.◌∷◌ c s) = ℕ.suc (text_length s)

-- `Field(pattern=r"^[0-9a-f]{64}$")`
unfoldable pub is_sha256 : String → Bool
is_sha256 s = eqb (text_length s) 64 && digits_sha256 s

-- The declared fields and `validate_risk`.
unfoldable pub validate_risk : RiskItem → Checked
unfolding is_blank
validate_risk r = do
  raise_if (any is_blank (r.risk_id ∷ r.check_id ∷ r.title ∷ r.conclusion ∷ []))
      (validation_error Reason.blank_field)
  raise_if (not (nonempty r.evidence_ids)) (validation_error Reason.blank_field)
  raise_if (ltb max_confidence r.confidence) (validation_error Reason.out_of_range)
  raise_if (not (is_risk r.status)) (validation_error Reason.risk_item_status_not_risk)
  raise_if (not (unique r.evidence_ids)) (validation_error Reason.risk_evidence_not_unique)

abbrev pub cited_ids : CheckResult → List String
cited_ids r = map (λ f. f.evidence_id) r.fact_evidence_refs

-- The declared fields of a check result, those of its parts included.
unfoldable pub validate_fields : CheckResult → Checked
unfolding is_blank is_sha256 validate_risk
validate_fields r = do
  raise_if
      (any is_blank (
        r.snapshot_id ∷ r.subject_id ∷ r.check_catalog_version ∷ r.output_schema_version ∷ r.task_id
        ∷ r.check_id ∷ r.decision_summary ∷ r.prompt_version ∷ []))
      (validation_error Reason.blank_field)
  raise_if (not (is_sha256 r.snapshot_sha256)) (validation_error Reason.not_a_sha256)
  for_each validate_risk r.risk_items
  raise_if
      (any (λ f. is_blank f.evidence_id || is_blank f.fact_path || is_blank f.summary)
        r.fact_evidence_refs)
      (validation_error Reason.blank_field)
  raise_if (ltb max_confidence r.confidence) (validation_error Reason.out_of_range)
  raise_if (eqb r.submission_version 0) (validation_error Reason.out_of_range)

-- `validate_check_result`, the validator that runs after the fields.
unfoldable pub validate_check_result : CheckResult → Checked
validate_check_result r = do
  raise_if (any (λ item. not (item.check_id == r.check_id)) r.risk_items)
      (validation_error Reason.risk_item_of_other_check)
  raise_if (not (unique (map (λ item. item.risk_id) r.risk_items)))
      (validation_error Reason.risk_ids_not_unique)
  raise_if (not (unique (cited_ids r))) (validation_error Reason.evidence_refs_not_unique)
  raise_if (is_risk r.status && not (nonempty r.risk_items))
      (validation_error Reason.risk_without_items)
  raise_if (not (is_risk r.status) && nonempty r.risk_items)
      (validation_error Reason.items_without_risk)
  raise_if (is_no_risk r.status && nonempty r.missing_evidence)
      (validation_error Reason.no_risk_with_missing)
  for_each
      (λ item.
        raise_if (not (subset item.evidence_ids (cited_ids r)))
          (validation_error Reason.risk_cites_unknown_fact))
      r.risk_items

-- `CheckResult.model_validate(...)`
unfoldable pub model_validate : CheckResult → Result CheckResult
unfolding validate_fields validate_check_result
model_validate r = do validate_fields r; validate_check_result r; ok r

-- A result with its conclusion withdrawn, for the gaps given.
abbrev pub cleared : CheckResult → String → List String → List String → CheckResult
cleared r summary missing found = record r {
  status = CheckStatus.inconclusive;
  decision_summary = summary;
  risk_items = [];
  missing_evidence = missing;
  conflicts = found;
}

fields-cleared :
    (r : CheckResult) (summary : String) (missing found : List String)
    → is_blank summary ≡ false
    → validate_fields r ≡ ok tt
    → validate_fields (cleared r summary missing found) ≡ ok tt
unfolding validate_fields
fields-cleared r summary missing found s h = ground arith

check_result-cleared :
    (r : CheckResult) (summary : String) (missing found : List String)
    → validate_check_result r ≡ ok tt
    → validate_check_result (cleared r summary missing found) ≡ ok tt
unfolding validate_check_result unique
check_result-cleared r summary missing found h = ground arith

pub model_validate-cleared :
    (r : CheckResult) (summary : String) (missing found : List String)
    → is_blank summary ≡ false
    → model_validate r ≡ ok r
    → model_validate (cleared r summary missing found) ≡ ok (cleared r summary missing found)
unfolding model_validate
model_validate-cleared r summary missing found s h =
    let (fields, h1) = >>-eq-ok (validate_fields r) _ h in
    let (valid, h2) = >>-eq-ok (validate_check_result r) _ h1 in
    rw (
      fields-cleared r summary missing found s fields,
      check_result-cleared r summary missing found valid,
    )
