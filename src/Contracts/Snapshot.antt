-- ===== src/Contracts/Snapshot.antt =====
-- contracts/acquisition.py and contracts/evidence.py: the frozen context snapshot.
-- An Evidence is cut to the fields that the modelled code reads; its claim, its value and its
-- provenance are carried by the source and read by nothing here. So for a submodule's facts.
use jindiao.Prelude.{
  List, [], ◌∷◌, ◌++◌, map, gather, any, String, Bool, true, false, not, ◌&&◌, ◌==◌, nonempty, find,
  subset, unique,
}
use jindiao.Errors.{Checked, Reason, Result, ◌>>◌, raise_if, or_key_error, validation_error}

pub data SourceType : Type 0 where
  tianyancha public_web mock derived user_input : SourceType

abbrev pub is_public_web : SourceType → Bool
is_public_web SourceType.public_web = true
is_public_web _ = false

pub data SubmoduleAvailability : Type 0 where
  available verified_empty capability_absent source_error not_requested : SubmoduleAvailability

abbrev pub is_available : SubmoduleAvailability → Bool
is_available SubmoduleAvailability.available = true
is_available _ = false

abbrev pub is_verified_empty : SubmoduleAvailability → Bool
is_verified_empty SubmoduleAvailability.verified_empty = true
is_verified_empty _ = false

-- `availability.value`
abbrev pub availability_value : SubmoduleAvailability → String
availability_value SubmoduleAvailability.available = "available"
availability_value SubmoduleAvailability.verified_empty = "verified_empty"
availability_value SubmoduleAvailability.capability_absent = "capability_absent"
availability_value SubmoduleAvailability.source_error = "source_error"
availability_value SubmoduleAvailability.not_requested = "not_requested"

pub record Evidence : Type 0 where
  pub evidence_id : String
  pub subject_id : String
  pub source_type : SourceType

pub record SubmoduleContext : Type 0 where
  pub submodule_id : String
  pub availability : SubmoduleAvailability
  pub evidence_ids : List String
  pub supplemental_evidence_ids : List String
  pub provenance_ids : List String
  pub conflict_evidence_ids : List String

pub record EnterpriseContextSnapshot : Type 0 where
  pub snapshot_id : String
  pub snapshot_sha256 : String
  pub subject_id : String
  pub acquisition_catalog_version : String
  pub planned_submodule_ids : List String
  pub submodules : List SubmoduleContext
  pub evidence : List Evidence

-- `EnterpriseContextSnapshot.submodule`: the first of that id, else `KeyError`
unfoldable pub submodule : EnterpriseContextSnapshot → String → Result SubmoduleContext
submodule snapshot id = or_key_error (find (λ item. item.submodule_id == id) snapshot.submodules)

abbrev pub known_evidence : EnterpriseContextSnapshot → List String
known_evidence snapshot = map (λ item. item.evidence_id) snapshot.evidence

-- `SubmoduleContext.validate_availability`
unfoldable pub validate_availability : SubmoduleContext → Checked
validate_availability c = do
  raise_if (is_available c.availability && not (nonempty c.evidence_ids))
      (validation_error Reason.available_without_evidence)
  raise_if (is_verified_empty c.availability && nonempty c.evidence_ids)
      (validation_error Reason.verified_empty_with_evidence)
  raise_if (not (unique c.provenance_ids)) (validation_error Reason.submodule_evidence_not_unique)
  raise_if (not (subset c.provenance_ids (c.evidence_ids ++ c.supplemental_evidence_ids)))
      (validation_error Reason.unknown_evidence)
  raise_if (not (unique (c.evidence_ids ++ c.supplemental_evidence_ids)))
      (validation_error Reason.submodule_evidence_not_unique)

abbrev pub referenced_evidence : SubmoduleContext → List String
referenced_evidence c = c.evidence_ids ++ c.supplemental_evidence_ids ++ c.conflict_evidence_ids

abbrev same_texts : List String → List String → Bool
same_texts [] [] = true
same_texts (x ∷ xs) (y ∷ ys) = x == y && same_texts xs ys
same_texts _ _ = false

-- `validate_snapshot_references`, as far as it is about submodules and Evidence: the clauses on the
-- supplement tasks and the agents' contributions to the acquisition are left out.
unfoldable pub validate_snapshot_references : EnterpriseContextSnapshot → Checked
validate_snapshot_references s = do
  let ids = map (λ (c : SubmoduleContext). c.submodule_id) s.submodules
  raise_if (not (unique ids)) (validation_error Reason.submodule_ids_not_unique)
  raise_if (not (same_texts ids s.planned_submodule_ids))
      (validation_error Reason.snapshot_submodules_not_planned)
  raise_if (not (unique s.planned_submodule_ids)) (validation_error Reason.submodule_ids_not_unique)
  raise_if (not (unique (known_evidence s))) (validation_error Reason.snapshot_evidence_not_unique)
  raise_if (not (subset (gather referenced_evidence s.submodules) (known_evidence s)))
      (validation_error Reason.snapshot_unknown_evidence)
  raise_if (any (λ (e : Evidence). not (e.subject_id == s.subject_id)) s.evidence)
      (validation_error Reason.snapshot_other_subject)
