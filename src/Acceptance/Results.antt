-- ===== src/Acceptance/Results.antt =====
-- contracts/results.py: `AgentInvestigationResult`, and investigation/validation.py:
-- `validate_accepted_investigation_results`.
use jindiao.Prelude.{
  List, [], ◌∷◌, map, String, String_discrete, Bool, true, false, not, ◌&&◌, ◌==◌, keep, subset,
  Option, none, some, Dict, lookup, has_key, put,
}
use jindiao.Errors.{Reason, Result, Checked, ok, ◌>>=◌, ◌>>◌, raise_if, value_error}
use jindiao.Contracts.Check.{CheckResult, RiskItem, FactEvidenceRef}
use jindiao.Contracts.Catalog.{DueDiligenceCheckCatalog, DueDiligenceCheckDefinition, get}
use jindiao.Contracts.Snapshot.{EnterpriseContextSnapshot}
use jindiao.Validation.{validate_check_result_scope, validate_check_result_evidence_gate}

pub data AgentResultPhase : Type 0 where
  acquisition investigation : AgentResultPhase

pub data AgentStatus : Type 0 where
  pending running completed failed cancelled : AgentStatus

abbrev pub is_investigation : AgentResultPhase → Bool
is_investigation AgentResultPhase.investigation = true
is_investigation _ = false

abbrev pub is_completed : AgentStatus → Bool
is_completed AgentStatus.completed = true
is_completed _ = false

pub record AgentInvestigationResult : Type 0 where
  pub agent_id : String
  pub role : String
  pub phase : AgentResultPhase
  pub status : AgentStatus
  pub task_ids : List String
  pub check_results : List CheckResult
  pub risk_items : List RiskItem
  pub fact_evidence_refs : List FactEvidenceRef
  pub prompt_version : String

-- The variables of the two loops: `by_check` and `risk_owners`.
pub record Accepted : Type 0 where
  pub by_check : Dict String CheckResult
  pub risk_owners : Dict String (String × String)

-- The loop over the risk items of a result.
unfoldable pub claim_risks :
    String
    → String
    → List RiskItem
    → Dict String (String × String)
    → Result (Dict String (String × String))
claim_risks agent check [] owners = ok owners
claim_risks agent check (risk ∷ risks) owners =
    let rest =
      claim_risks agent check risks (put String_discrete risk.risk_id (agent, check) owners) in
    raise_if (has_key String_discrete risk.risk_id owners) (value_error Reason.duplicate_risk_id)
    >> rest

abbrev pub is_wrong_role : AgentInvestigationResult → DueDiligenceCheckDefinition → Bool
is_wrong_role agent definition =
    not (agent.role == "single-investigator") && not (agent.role == definition.owner_role)

module _ (snapshot : EnterpriseContextSnapshot) (catalog : DueDiligenceCheckCatalog) where
  -- The validators of one result.
  unfoldable pub check_accepted : AgentInvestigationResult → CheckResult → Checked
  check_accepted agent r = do
    definition ← get catalog r.check_id
    raise_if (is_wrong_role agent definition) (value_error Reason.wrong_role)
    validate_check_result_scope snapshot catalog r
    validate_check_result_evidence_gate snapshot catalog r

  -- The body of the loop over the results of an agent.
  unfoldable pub accept_check : AgentInvestigationResult → CheckResult → Accepted → Result Accepted
  unfolding check_accepted claim_risks
  accept_check agent r state = do
    raise_if (has_key String_discrete r.check_id state.by_check)
        (value_error Reason.duplicate_terminal_check)
    check_accepted agent r
    owners ← claim_risks agent.agent_id r.check_id r.risk_items state.risk_owners
    ok (record { by_check = put String_discrete r.check_id r state.by_check; risk_owners = owners })

  unfoldable pub accept_checks :
      AgentInvestigationResult → List CheckResult → Accepted → Result Accepted
  accept_checks agent [] state = ok state
  accept_checks agent (r ∷ rs) state = accept_check agent r state >>= accept_checks agent rs

  -- The body of the loop over the agents, by the phase.
  unfoldable pub accept_phase :
      Bool → AgentInvestigationResult → AgentResultPhase → Accepted → Result Accepted
  unfolding accept_checks
  accept_phase allow_partial agent AgentResultPhase.acquisition state = ok state
  accept_phase allow_partial agent AgentResultPhase.investigation state = do
    raise_if (not (is_completed agent.status) && not allow_partial)
        (value_error Reason.agent_not_completed)
    accept_checks agent agent.check_results state

  unfoldable pub accept_agents : Bool → List AgentInvestigationResult → Accepted → Result Accepted
  unfolding accept_phase
  accept_agents allow_partial [] state = ok state
  accept_agents allow_partial (a ∷ agents) state =
      accept_phase allow_partial a a.phase state >>= accept_agents allow_partial agents

-- The ids of the enabled checks, in the order of the catalog.
abbrev pub enabled_ids : DueDiligenceCheckCatalog → List String
enabled_ids catalog = map (λ d. d.check_id) (keep (λ d. d.enabled) catalog.checks)

abbrev pub add_found : Option CheckResult → List CheckResult → List CheckResult
add_found none rs = rs
add_found (some r) rs = r ∷ rs

-- `tuple(by_check[check_id] for check_id in enabled if check_id in by_check)`
unfoldable pub in_order : List String → Dict String CheckResult → List CheckResult
in_order [] by_check = []
in_order (id ∷ ids) by_check =
    add_found (lookup String_discrete id by_check) (in_order ids by_check)

abbrev pub keys : Dict String CheckResult → List String
keys d = map (λ (e : String × CheckResult). e.0) d

-- The clauses on missing and disabled checks.
unfoldable pub finish :
    DueDiligenceCheckCatalog → Bool → Dict String CheckResult → Result (List CheckResult)
unfolding in_order
finish catalog allow_partial by_check = do
  raise_if (not (subset (enabled_ids catalog) (keys by_check)) && not allow_partial)
      (value_error Reason.missing_terminal_checks)
  raise_if (not (subset (keys by_check) (enabled_ids catalog))) (value_error Reason.disabled_check)
  ok (in_order (enabled_ids catalog) by_check)

unfoldable pub validate_accepted_investigation_results :
    EnterpriseContextSnapshot
    → DueDiligenceCheckCatalog
    → List AgentInvestigationResult
    → Bool
    → Result (List CheckResult)
unfolding accept_agents finish
validate_accepted_investigation_results snapshot catalog agents allow_partial = do
  raise_if (not (catalog.acquisition_catalog_version == snapshot.acquisition_catalog_version))
      (value_error Reason.catalog_mismatch)
  accepted ←
      accept_agents snapshot catalog allow_partial agents
        (record { by_check = []; risk_owners = [] })
  finish catalog allow_partial accepted.by_check
