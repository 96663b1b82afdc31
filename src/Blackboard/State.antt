-- ===== src/Blackboard/State.antt =====
-- investigation/blackboard.py: the grants, the state of the board, and its construction.
use Prim.Native.Char.{code}
use jindiao.Prelude.{
  ℕ, List, [], ◌∷◌, map, String, String_discrete, ℕ_discrete, Bool, true, not, ◌&&◌, ◌==◌, any,
  contains, unique, leb, Dict, has_key, put,
}
use jindiao.Errors.{
  Reason, Result, Checked, ok, ◌>>=◌, ◌>>◌, raise_if, value_error, validation_error,
}
use jindiao.Contracts.Check.{CheckResult}
use jindiao.Contracts.Catalog.{DueDiligenceCheckCatalog, check_ids}
use jindiao.Contracts.Snapshot.{EnterpriseContextSnapshot}

pub record SubmissionGrant : Type 0 where
  pub agent_id : String
  pub task_id : String
  pub granted_ids : List String

-- `check_ids_are_unique`
unfoldable pub validate_grant : SubmissionGrant → Checked
validate_grant g =
    raise_if (not (unique g.granted_ids)) (validation_error Reason.grant_checks_not_unique)

-- The key of `_submissions`.
pub record SubmissionKey : Type 0 where
  pub agent_id : String
  pub task_id : String
  pub check_id : String
  pub submission_version : ℕ

unfoldable pub Key-discrete : Discrete SubmissionKey
Key-discrete = hlevel (String_discrete, ℕ_discrete)

pub record CheckSubmissionReceipt : Type 0 where
  pub run_id : String
  pub snapshot_id : String
  pub agent_id : String
  pub task_id : String
  pub check_id : String
  pub submission_version : ℕ
  pub submission_sha256 : String
  pub accepted : Bool
  pub idempotent_replay : Bool
  pub accepted_at : ℕ

-- Who may submit a check: an agent and its task.
abbrev pub Owner : Type 0
Owner = String × String

-- The clock and the budget ledger are arguments of the operations.
pub record Board : Type 0 where
  pub run_id : String
  pub snapshot : EnterpriseContextSnapshot
  pub catalog : DueDiligenceCheckCatalog
  pub grant_by_check : Dict String Owner
  pub agent_ids : List String
  pub reviewer_agent_ids : List String
  pub submissions : Dict SubmissionKey CheckResult
  pub latest_by_check : Dict String CheckResult

abbrev is_space : ℕ → Bool
is_space c =
    any (λ (r : ℕ × ℕ). leb r.0 c && leb c r.1)
      ((9, 13)
        ∷ (28, 32)
        ∷ (133, 133)
        ∷ (160, 160)
        ∷ (5760, 5760)
        ∷ (8192, 8202)
        ∷ (8232, 8233)
        ∷ (8239, 8239)
        ∷ (8287, 8287)
        ∷ (12288, 12288)
        ∷ [])

-- `not text.strip()`
unfoldable pub strips_to_nothing : String → Bool
strips_to_nothing String.[] = true
strips_to_nothing (String.◌∷◌ c s) = let rest = strips_to_nothing s in is_space (code c) && rest

abbrev same_owner : Owner → Owner → Bool
same_owner a b = a.0 == b.0 && a.1 == b.1

abbrev pub unique_owners : List Owner → Bool
unique_owners [] = true
unique_owners (o ∷ os) = not (any (same_owner o) os) && unique_owners os

abbrev pub owner_of_grant : SubmissionGrant → Owner
owner_of_grant g = (g.agent_id, g.task_id)

-- the inner loop, over the checks of one grant
unfoldable pub add_checks :
    DueDiligenceCheckCatalog → Owner → List String → Dict String Owner → Result (Dict String Owner)
add_checks catalog owner [] owners = ok owners
add_checks catalog owner (id ∷ ids) owners =
    let rest = add_checks catalog owner ids (put String_discrete id owner owners) in
    raise_if (not (contains (check_ids catalog) id)) (value_error Reason.grant_of_unknown_check)
    >> raise_if (has_key String_discrete id owners) (value_error Reason.duplicate_owners)
    >> rest

-- the outer loop, over the grants
unfoldable pub add_grants :
    DueDiligenceCheckCatalog → List SubmissionGrant → Dict String Owner → Result (Dict String Owner)
unfolding add_checks
add_grants catalog [] owners = ok owners
add_grants catalog (g ∷ gs) owners =
    add_checks catalog (owner_of_grant g) g.granted_ids owners >>= add_grants catalog gs

-- `SubmissionBlackboard.__init__`
unfoldable pub create :
    String
    → EnterpriseContextSnapshot
    → DueDiligenceCheckCatalog
    → List SubmissionGrant
    → List String
    → Result Board
unfolding strips_to_nothing add_grants
create run_id snapshot catalog grants reviewers = do
  raise_if (strips_to_nothing run_id) (value_error Reason.blank_run_id)
  raise_if (not (catalog.acquisition_catalog_version == snapshot.acquisition_catalog_version))
      (value_error Reason.catalog_mismatch)
  raise_if (not (unique_owners (map owner_of_grant grants))) (value_error Reason.grants_not_unique)
  owners ← add_grants catalog grants []
  raise_if (not (unique reviewers)) (value_error Reason.reviewers_not_unique)
  ok (record {
    run_id = run_id;
    snapshot = snapshot;
    catalog = catalog;
    grant_by_check = owners;
    agent_ids = map (λ g. g.agent_id) grants;
    reviewer_agent_ids = reviewers;
    submissions = [];
    latest_by_check = [];
  })
