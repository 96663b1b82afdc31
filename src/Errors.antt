-- ===== src/Errors.antt =====
-- Exceptions as values: the classes that src/jindiao raises, the messages, and the calls that may
-- raise. The classes of application/errors.py are those that the modelled code raises.
use jindiao.Prelude.{◌≡◌, refl, Bool, true, false, Option, none, some, List, [], ◌∷◌}

-- The message of an exception, without the values that an f-string puts in.
pub data Reason : Type 0 where
  -- contracts/investigation.py
  blank_field not_a_sha256 out_of_range : Reason
  risk_item_status_not_risk risk_evidence_not_unique : Reason
  risk_item_of_other_check risk_ids_not_unique evidence_refs_not_unique : Reason
  risk_without_items items_without_risk no_risk_with_missing risk_cites_unknown_fact : Reason
  submodule_ids_not_unique submodules_overlap sections_not_unique : Reason
  check_ids_not_unique check_orders_not_unique repair_attempt_exceeds_max : Reason
  -- contracts/acquisition.py
  available_without_evidence verified_empty_with_evidence : Reason
  submodule_evidence_not_unique snapshot_submodules_not_planned : Reason
  snapshot_evidence_not_unique snapshot_unknown_evidence snapshot_other_subject : Reason
  -- investigation/validation.py
  another_snapshot snapshot_hash_mismatch another_subject another_catalog_version : Reason
  unknown_check output_schema_mismatch unknown_evidence evidence_outside_scope : Reason
  source_status_blocks conflict_blocks minimum_evidence_missing : Reason
  submodule_evidence_missing public_web_only no_evidence_gap : Reason
  catalog_mismatch agent_not_completed duplicate_terminal_check wrong_role : Reason
  duplicate_risk_id missing_terminal_checks disabled_check : Reason
  -- investigation/blackboard.py
  blank_run_id grant_checks_not_unique grants_not_unique grant_of_unknown_check : Reason
  duplicate_owners reviewers_not_unique grant_mismatch version_collision : Reason
  version_must_advance batch_incomplete batch_failures : Reason
  review_ids_not_unique repair_ids_not_unique repair_of_unknown_issue : Reason
  not_a_reviewer issue_without_check review_targets_unknown_agent : Reason
  repair_target_mismatch blank_prompt_version aliases_not_unique : Reason
  -- investigation/assignments.py
  empty_identity no_agent_for_role not_the_leader identity_mismatch : Reason
  duplicate_assignment coverage_mismatch owner_mismatch task_mismatch scope_mismatch : Reason
  assignment_scope_not_unique initial_version_not_one : Reason
  -- risk/rules.py and risk/engine.py
  boundaries_not_increasing rule_ids_not_unique negative_score : Reason
  finding_without_evidence finding_unknown_evidence accepted_without_evidence : Reason
  -- orchestration/base.py and contracts/execution.py
  deadline_exceeded tool_calls_exhausted snapshot_reads_exhausted llm_requests_exhausted : Reason
  tokens_exhausted_before_request tokens_exhausted schema_retries_exhausted : Reason
  repair_rounds_exhausted concurrency_exhausted no_claimed_request bad_reservation : Reason
  tokens_not_reconciled successes_exceed_requests usage_exceeds_successes : Reason
  token_limits_inconsistent : Reason
  -- observability/run_store.py and contracts/events.py
  second_terminal_event sequence_not_monotonic unexpected_sequence restore_backwards : Reason
  idempotency_hash_required idempotency_conflict unknown_event_type : Reason
  -- reporting/product_assembler.py
  missing_source_evidence : Reason

pub data Error : Type 0 where
  -- `ValueError`, and pydantic's `ValidationError`, which is a subclass of it
  value_error validation_error : Reason → Error
  key_error : Error
  -- `AgentExecutionError` and `RiskRuleError`, which are no `ValueError`
  execution_error rule_error : Reason → Error

-- What `except ValidationError` and `except ValueError` catch.
abbrev pub is_validation_error : Error → Bool
is_validation_error (validation_error r) = true
is_validation_error _ = false

abbrev pub is_value_error : Error → Bool
is_value_error (value_error r) = true
is_value_error (validation_error r) = true
is_value_error _ = false

pub data Result {ℓ} (A : Type ℓ) : Type ℓ where
  ok : A → Result A
  err : Error → Result A

-- A call that returns nothing, and may raise.
abbrev pub Checked : Type 0
Checked = Result (Unit {0})

infixl 5 ◌>>=◌
-- A call, and what is done with the value that it returns.
abbrev pub ◌>>=◌ {ℓ κ} : {A : Type ℓ} {B : Type κ} → Result A → (next : A → Result B) → Result B
err raised >>= next = err raised
ok value >>= next = next value

infixl 5 ◌>>◌
-- One statement after another.
abbrev pub ◌>>◌ {ℓ} : {B : Type ℓ} → Checked → Result B → Result B
(ok done) >> next = next
(err raised) >> next = err raised

-- `if c: raise e`
abbrev pub raise_if : Bool → Error → Result (Unit {0})
raise_if true e = err e
raise_if false e = ok tt

-- `d[k]`, where a missing key raises `KeyError`
abbrev pub or_key_error {ℓ} : {A : Type ℓ} → Option A → Result A
or_key_error none = err key_error
or_key_error (some a) = ok a

module _ {ℓ κ} {A : Type ℓ} {B : Type κ} where
  -- `tuple(f(x) for x in xs)`, where `f` may raise
  abbrev pub traverse : (A → Result B) → List A → Result (List B)
  traverse f [] = ok []
  traverse f (x ∷ xs) = let rest = traverse f xs in f x >>= λ y. rest >>= λ ys. ok (y ∷ ys)

-- `for x in xs: f(x)`, where `f` may raise
abbrev pub for_each {ℓ} : {A : Type ℓ} → (A → Result (Unit {0})) → List A → Result (Unit {0})
for_each f [] = ok tt
for_each f (x ∷ xs) = let rest = for_each f xs in f x >> rest

-- A call that succeeded, taken apart.
pub >>=-eq-ok {ℓ κ} :
    {A : Type ℓ} {B : Type κ} (call : Result A) (next : A → Result B) {returned : B}
    → (call >>= next) ≡ ok returned
    → (value : A) × (call ≡ ok value) × (next value ≡ ok returned)
>>=-eq-ok (ok value) next h = (value, refl, h)
>>=-eq-ok (err raised) next h = cc

pub >>-eq-ok {ℓ} :
    {B : Type ℓ} (m : Result (Unit {0})) (k : Result B) {b : B}
    → (m >> k) ≡ ok b
    → (m ≡ ok tt) × (k ≡ ok b)
>>-eq-ok (ok tt) k h = (refl, h)
>>-eq-ok (err e) k h = cc

-- A guard that let the call go on.
pub raise_if-eq-ok : (c : Bool) (e : Error) → raise_if c e ≡ ok tt → c ≡ false
raise_if-eq-ok true e h = cc
raise_if-eq-ok false e h = refl

pub ok-injective {ℓ} : {A : Type ℓ} {a b : A} → ok a ≡ ok b → a ≡ b
ok-injective h = cc
