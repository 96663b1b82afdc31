-- ===== src/Contracts/Catalog.antt =====
-- contracts/investigation.py: the check definitions and the catalog of checks.
use jindiao.Prelude.{
  ℕ, List, [], ◌∷◌, ◌++◌, map, String, Bool, true, not, ◌&&◌, ◌||◌, ◌==◌, eqb, any, find, unique,
  intersects,
}
use jindiao.Errors.{Checked, Reason, Result, ◌>>◌, raise_if, or_key_error, validation_error}

pub record CheckEvidenceRequirements : Type 0 where
  pub minimum_evidence_count : ℕ
  pub require_all_required_submodules : Bool
  pub allow_public_web_only_for_no_risk : Bool

-- `time_window`, `missing_data_policy`, `title` and `description` are read by nothing modelled.
pub record DueDiligenceCheckDefinition : Type 0 where
  pub check_id : String
  pub owner_role : String
  pub required_submodule_ids : List String
  pub optional_submodule_ids : List String
  pub prompt_template_id : String
  pub evidence_requirements : CheckEvidenceRequirements
  pub report_section_ids : List String
  pub output_schema_version : String
  pub enabled : Bool
  pub order : ℕ

pub record DueDiligenceCheckCatalog : Type 0 where
  pub catalog_version : String
  pub acquisition_catalog_version : String
  pub checks : List DueDiligenceCheckDefinition

abbrev pub check_ids : DueDiligenceCheckCatalog → List String
check_ids catalog = map (λ check. check.check_id) catalog.checks

-- `DueDiligenceCheckCatalog.get`: the first check of that id, else `KeyError`
unfoldable pub get : DueDiligenceCheckCatalog → String → Result DueDiligenceCheckDefinition
get catalog check_id = or_key_error (find (λ check. check.check_id == check_id) catalog.checks)

-- The submodules that a check may read.
abbrev pub scope_ids : DueDiligenceCheckDefinition → List String
scope_ids definition = definition.required_submodule_ids ++ definition.optional_submodule_ids

-- `validate_submodule_sets`
unfoldable pub validate_submodule_sets : DueDiligenceCheckDefinition → Checked
validate_submodule_sets d = do
  raise_if (not (unique d.required_submodule_ids) || not (unique d.optional_submodule_ids))
      (validation_error Reason.submodule_ids_not_unique)
  raise_if (intersects d.required_submodule_ids d.optional_submodule_ids)
      (validation_error Reason.submodules_overlap)
  raise_if (not (unique d.report_section_ids)) (validation_error Reason.sections_not_unique)

abbrev unique_orders : List ℕ → Bool
unique_orders [] = true
unique_orders (n ∷ ns) = not (any (eqb n) ns) && unique_orders ns

-- `validate_check_identity`
unfoldable pub validate_check_identity : DueDiligenceCheckCatalog → Checked
validate_check_identity catalog = do
  raise_if (not (unique (check_ids catalog))) (validation_error Reason.check_ids_not_unique)
  raise_if (not (unique_orders (map (λ check. check.order) catalog.checks)))
      (validation_error Reason.check_orders_not_unique)
