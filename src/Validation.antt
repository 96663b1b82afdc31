-- ===== src/Validation.antt =====
-- investigation/validation.py: the deterministic gates for submitted check results.
pub mod Scan
pub mod Gate
pub mod Downgrade
use Prim.Native.String.{◌++◌ as concat}
use jindiao.Prelude.{
  decimal, ℕ, ltb, List, [], ◌∷◌, ◌++◌, map, String, Bool, true, false, not, ◌&&◌, ◌||◌, ◌==◌, any,
  all, gather, nonempty, keep, length, contains, subset, unique, intersects, distinct, sorted,
  Option, none, some, if◌then◌else◌,
}
use jindiao.Errors.{
  Reason, Error, Result, Checked, ok, err, ◌>>=◌, ◌>>◌, raise_if, or_key_error, traverse,
  value_error,
}
use jindiao.Contracts.Check.{
  CheckStatus, CheckResult, cited_ids, is_risk, is_no_risk, is_inconclusive,
}
use jindiao.Contracts.Catalog.{
  DueDiligenceCheckCatalog, DueDiligenceCheckDefinition, get, scope_ids,
}
use jindiao.Contracts.Snapshot.{
  EnterpriseContextSnapshot, SubmoduleContext, SubmoduleAvailability, Evidence, submodule,
  known_evidence, is_available, is_public_web, availability_value,
}

abbrev pub evidence_gate_inconclusive_summary : String
evidence_gate_inconclusive_summary = "证据门禁未通过。无法支持 risk/no_risk 结论。"

-- `_context_evidence_ids`, of a context that is found
abbrev pub context_evidence_ids : SubmoduleContext → List String
context_evidence_ids c = c.evidence_ids ++ c.supplemental_evidence_ids

-- `{item.evidence_id for item in result.fact_evidence_refs}`
abbrev pub cited : CheckResult → List String
cited r = distinct (cited_ids r)

abbrev pub as_unknown_check :
    Result DueDiligenceCheckDefinition → Result DueDiligenceCheckDefinition
as_unknown_check (ok d) = ok d
as_unknown_check (err e) = err (value_error Reason.unknown_check)

-- The clauses on the identity of the Run.
unfoldable pub same_identity :
    EnterpriseContextSnapshot → DueDiligenceCheckCatalog → CheckResult → Checked
same_identity snapshot catalog r = do
  raise_if (not (r.snapshot_id == snapshot.snapshot_id)) (value_error Reason.another_snapshot)
  raise_if (not (r.snapshot_sha256 == snapshot.snapshot_sha256))
      (value_error Reason.snapshot_hash_mismatch)
  raise_if (not (r.subject_id == snapshot.subject_id)) (value_error Reason.another_subject)
  raise_if (not (r.check_catalog_version == catalog.catalog_version))
      (value_error Reason.another_catalog_version)

-- The clauses on the schema version and on Evidence that the snapshot does not hold.
unfoldable pub cites_known :
    EnterpriseContextSnapshot → CheckResult → DueDiligenceCheckDefinition → Checked
cites_known snapshot r definition = do
  raise_if (not (r.output_schema_version == definition.output_schema_version))
      (value_error Reason.output_schema_mismatch)
  raise_if (not (subset (cited r) (known_evidence snapshot))) (value_error Reason.unknown_evidence)

-- The clause on Evidence of a submodule that the check may not read.
unfoldable pub cites_authorized : CheckResult → List SubmoduleContext → Checked
cites_authorized r contexts =
    raise_if (not (subset (cited r) (gather context_evidence_ids contexts)))
      (value_error Reason.evidence_outside_scope)

abbrev pub scope_of_check :
    EnterpriseContextSnapshot → CheckResult → DueDiligenceCheckDefinition → Checked
scope_of_check snapshot r definition = do
  cites_known snapshot r definition
  contexts ← traverse (submodule snapshot) (scope_ids definition)
  cites_authorized r contexts

unfoldable pub validate_check_result_scope :
    EnterpriseContextSnapshot → DueDiligenceCheckCatalog → CheckResult → Checked
unfolding same_identity cites_known cites_authorized
validate_check_result_scope snapshot catalog r = do
  same_identity snapshot catalog r
  definition ← as_unknown_check (get catalog r.check_id)
  scope_of_check snapshot r definition

abbrev pub is_unavailable : SubmoduleAvailability → Bool
is_unavailable SubmoduleAvailability.capability_absent = true
is_unavailable SubmoduleAvailability.source_error = true
is_unavailable SubmoduleAvailability.not_requested = true
is_unavailable _ = false

-- The submodule has Evidence, and the result cites none of it.
abbrev pub is_uncited : List String → SubmoduleContext → Bool
is_uncited ids c = is_available c.availability && not (intersects (context_evidence_ids c) ids)

-- `evidence_by_id[evidence_id]`: in a dict comprehension the last item of a key stays
abbrev pub evidence_by_id : List Evidence → String → Option Evidence
evidence_by_id [] id = none
evidence_by_id (e ∷ es) id = elim (evidence_by_id es id) [
  | some found ↦ some found
  | none ↦ if e.evidence_id == id then some e else none
]

-- `all(evidence_by_id[id].source_type is PUBLIC_WEB for id in ids)`, which stops at the first miss
unfoldable pub public_web_only : List Evidence → List String → Result Bool
public_web_only evidence [] = ok true
public_web_only evidence (id ∷ ids) =
    let rest = public_web_only evidence ids in
    or_key_error (evidence_by_id evidence id) >>= λ e.
    if is_public_web e.source_type then rest else ok false

-- The variables `blocked` and `missing_evidence` of the downgrade.
pub record Progress : Type 0 where
  pub blocked : Bool
  pub missing_evidence : List String

abbrev pub block : String → Progress → Progress
block item p = record { blocked = true; missing_evidence = p.missing_evidence ++ item ∷ [] }

abbrev pub required_item : SubmoduleContext → String → String
required_item c reason = concat "required:" (concat c.submodule_id (concat ":" reason))

-- The body of the loop over the required contexts.
abbrev pub scan_context : Bool → List String → Progress → SubmoduleContext → Progress
scan_context require_all ids p c =
    if is_unavailable c.availability
    then block (required_item c (availability_value c.availability)) p
    else if require_all && is_uncited ids c
    then block (required_item c "missing_evidence") p
    else p

unfoldable pub scan : Bool → List String → Progress → List SubmoduleContext → Progress
scan require_all ids p [] = p
scan require_all ids p (c ∷ cs) = scan require_all ids (scan_context require_all ids p c) cs

abbrev pub block_if : Bool → String → Progress → Progress
block_if true item p = block item p
block_if false item p = p

abbrev pub sources_item : String
sources_item = "authoritative_evidence_required"

-- The no_risk clause: Evidence from the public Web alone does not do.
abbrev pub scan_sources :
    EnterpriseContextSnapshot → Bool → CheckResult → Progress → Result Progress
scan_sources snapshot allow r p =
    if is_no_risk r.status && nonempty (cited r)
    then (do
      only ← public_web_only snapshot.evidence (cited r)
      ok (block_if (only && not allow) sources_item p))
    else ok p

-- `sorted({... conflict_evidence_ids})` over the contexts in scope
abbrev pub snapshot_conflicts : List SubmoduleContext → List String
snapshot_conflicts contexts = sorted (distinct (gather (λ c. c.conflict_evidence_ids) contexts))

-- The message of the count clause.
abbrev pub minimum_item : ℕ → String
minimum_item minimum = concat "minimum_evidence_count:" (decimal minimum)

-- The downgraded result.
abbrev pub downgraded : CheckResult → List String → List String → CheckResult
downgraded r missing found = record r {
  status = CheckStatus.inconclusive;
  decision_summary = evidence_gate_inconclusive_summary;
  risk_items = [];
  missing_evidence = distinct missing;
  conflicts = found;
}

-- What the loop and the clauses after it make of a definition and the contexts in its scope.
unfoldable pub downgrade_in :
    EnterpriseContextSnapshot
    → DueDiligenceCheckDefinition
    → CheckResult
    → List SubmoduleContext
    → List SubmoduleContext
    → Result CheckResult
unfolding scan
downgrade_in snapshot definition r required contexts =
    let requirements = definition.evidence_requirements in
    let start : Progress = record { blocked = false; missing_evidence = r.missing_evidence } in
    let scanned = scan requirements.require_all_required_submodules (cited r) start required in
    let short = ltb (length (cited r)) requirements.minimum_evidence_count in
    let counted = block_if short (minimum_item requirements.minimum_evidence_count) scanned in
    let found = distinct (r.conflicts ++ snapshot_conflicts contexts) in
    let marked : Progress = record counted { blocked = counted.blocked || nonempty found } in
    scan_sources snapshot requirements.allow_public_web_only_for_no_risk r marked >>= λ checked.
    if checked.blocked then ok (downgraded r checked.missing_evidence found) else ok r

unfoldable pub downgrade_unsupported_check_conclusion :
    EnterpriseContextSnapshot → DueDiligenceCheckCatalog → CheckResult → Result CheckResult
unfolding downgrade_in
downgrade_unsupported_check_conclusion snapshot catalog r =
    if is_inconclusive r.status then ok r else do
      definition ← get catalog r.check_id
      required ← traverse (submodule snapshot) definition.required_submodule_ids
      contexts ← traverse (submodule snapshot) (scope_ids definition)
      downgrade_in snapshot definition r required contexts

-- The clause on a risk or no_risk conclusion.
abbrev pub gate_conclusion :
    DueDiligenceCheckDefinition
    → CheckResult
    → List SubmoduleContext
    → List SubmoduleContext
    → Checked
gate_conclusion definition r required contexts = do
  let requirements = definition.evidence_requirements
  raise_if (any (λ c. is_unavailable c.availability) required)
      (value_error Reason.source_status_blocks)
  raise_if (nonempty (gather (λ c. c.conflict_evidence_ids) contexts) || nonempty r.conflicts)
      (value_error Reason.conflict_blocks)
  raise_if (ltb (length (cited r)) requirements.minimum_evidence_count)
      (value_error Reason.minimum_evidence_missing)
  raise_if
      (requirements.require_all_required_submodules
        && nonempty (keep (is_uncited (cited r)) required))
      (value_error Reason.submodule_evidence_missing)

abbrev pub gate_sources : EnterpriseContextSnapshot → Bool → CheckResult → Checked
gate_sources snapshot allow r =
    if nonempty (cited r) && not allow
    then (do
      only ← public_web_only snapshot.evidence (cited r)
      raise_if only (value_error Reason.public_web_only))
    else ok tt

-- The clause on an inconclusive result: it has to name a gap.
abbrev pub gate_gap :
    DueDiligenceCheckDefinition
    → CheckResult
    → List SubmoduleContext
    → List SubmoduleContext
    → Checked
gate_gap definition r required contexts =
    raise_if
      (not (
        any (λ c. is_unavailable c.availability) required
        || nonempty (gather (λ c. c.conflict_evidence_ids) contexts)
        || nonempty r.missing_evidence
        || nonempty r.conflicts
        || ltb (length (cited r)) definition.evidence_requirements.minimum_evidence_count))
      (value_error Reason.no_evidence_gap)

abbrev pub gate_status :
    EnterpriseContextSnapshot
    → DueDiligenceCheckDefinition
    → CheckResult
    → List SubmoduleContext
    → List SubmoduleContext
    → CheckStatus
    → Checked
gate_status snapshot d r required contexts CheckStatus.risk = gate_conclusion d r required contexts
gate_status snapshot d r required contexts CheckStatus.no_risk = do
  gate_conclusion d r required contexts
  gate_sources snapshot d.evidence_requirements.allow_public_web_only_for_no_risk r
gate_status snapshot d r required contexts CheckStatus.inconclusive = gate_gap d r required contexts

unfoldable pub validate_check_result_evidence_gate :
    EnterpriseContextSnapshot → DueDiligenceCheckCatalog → CheckResult → Checked
validate_check_result_evidence_gate snapshot catalog r = do
  definition ← get catalog r.check_id
  required ← traverse (submodule snapshot) definition.required_submodule_ids
  contexts ← traverse (submodule snapshot) (scope_ids definition)
  gate_status snapshot definition r required contexts r.status
