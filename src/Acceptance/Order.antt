-- ===== src/Acceptance/Order.antt =====
-- What the last gate returns: the enabled checks in the order of the catalog, each past the gates.
use jindiao.Prelude.{
  ◌≡◌, refl, sym, ap, ◌∙◌, subst, arith, List, [], ◌∷◌, map, String, String_discrete, Bool, true,
  false, not, ◌&&◌, ◌==◌, ==_iff, All, contains, subset, some, Dict, lookup, has_key, put-All,
  lookup-All, is_yes, Option-cases, inl, inr, if◌then◌else◌, &&-true,
}
use jindiao.Errors.{ok, raise_if, >>=-eq-ok, >>-eq-ok, raise_if-eq-ok, ok-injective}
use jindiao.Contracts.Check.{CheckResult}
use jindiao.Contracts.Catalog.{DueDiligenceCheckCatalog, get}
use jindiao.Contracts.Snapshot.{EnterpriseContextSnapshot}
use jindiao.Validation.{validate_check_result_scope, validate_check_result_evidence_gate}
use jindiao.Acceptance.Results.{
  AgentInvestigationResult, AgentResultPhase, Accepted, claim_risks, check_accepted, is_wrong_role,
  accept_check, accept_checks, accept_phase, add_found, accept_agents, enabled_ids, in_order, keys,
  finish, is_completed, validate_accepted_investigation_results,
}

abbrev pub ids_of : List CheckResult → List String
ids_of rs = map (λ (r : CheckResult). r.check_id) rs

module _ (s : EnterpriseContextSnapshot) (catalog : DueDiligenceCheckCatalog) where
  -- A result under its check, in scope and past the evidence gate.
  abbrev pub IsSound : String × CheckResult → Type 0
  IsSound e =
      (e.1.check_id ≡ e.0)
      × (validate_check_result_scope s catalog e.1 ≡ ok tt)
      × (validate_check_result_evidence_gate s catalog e.1 ≡ ok tt)

  abbrev pub IsGated : CheckResult → Type 0
  IsGated r =
      (validate_check_result_scope s catalog r ≡ ok tt)
      × (validate_check_result_evidence_gate s catalog r ≡ ok tt)

  accepted-IsSound :
      (agent : AgentInvestigationResult) (r : CheckResult)
      → check_accepted s catalog agent r ≡ ok tt
      → IsSound (r.check_id, r)
  unfolding check_accepted
  accepted-IsSound agent r h =
      let (d, found, h1) = >>=-eq-ok (get catalog r.check_id) _ h in
      let (role, h2) = >>-eq-ok (raise_if (is_wrong_role agent d) _) _ h1 in
      let (scope, gate) = >>-eq-ok (validate_check_result_scope s catalog r) _ h2 in
      (refl, scope, gate)

  accept_check-All :
      (agent : AgentInvestigationResult) (r : CheckResult) (state after : Accepted)
      → All IsSound state.by_check
      → accept_check s catalog agent r state ≡ ok after
      → All IsSound after.by_check
  unfolding accept_check
  accept_check-All agent r state after a h =
      let (fresh, h1) =
        >>-eq-ok (raise_if (has_key String_discrete r.check_id state.by_check) _) _ h in
      let (valid, h2) = >>-eq-ok (check_accepted s catalog agent r) _ h1 in
      let (owners, e, h3) =
        >>=-eq-ok (claim_risks agent.agent_id r.check_id r.risk_items state.risk_owners) _ h2 in
      subst (λ (x : Accepted). All IsSound x.by_check) (ok-injective h3)
        (put-All String_discrete IsSound r.check_id r state.by_check
          (accepted-IsSound agent r valid) a)

  accept_checks-All :
      (agent : AgentInvestigationResult) (rs : List CheckResult) (state after : Accepted)
      → All IsSound state.by_check
      → accept_checks s catalog agent rs state ≡ ok after
      → All IsSound after.by_check
  unfolding accept_checks
  accept_checks-All agent [] state after a h =
      subst (λ (x : Accepted). All IsSound x.by_check) (ok-injective h) a
  accept_checks-All agent (r ∷ rs) state after a h =
      let (next, e, h1) = >>=-eq-ok (accept_check s catalog agent r state) _ h in
      accept_checks-All agent rs next after (accept_check-All agent r state next a e) h1

  accept_phase-All :
      (allow : Bool) (agent : AgentInvestigationResult) (phase : AgentResultPhase)
      (state after : Accepted)
      → All IsSound state.by_check
      → accept_phase s catalog allow agent phase state ≡ ok after
      → All IsSound after.by_check
  unfolding accept_phase
  accept_phase-All allow agent AgentResultPhase.acquisition state after a h =
      subst (λ (x : Accepted). All IsSound x.by_check) (ok-injective h) a
  accept_phase-All allow agent AgentResultPhase.investigation state after a h =
      let (status, h1) = >>-eq-ok (raise_if (not (is_completed agent.status) && not allow) _) _ h in
      accept_checks-All agent agent.check_results state after a h1

  accept_agents-All :
      (allow : Bool) (agents : List AgentInvestigationResult) (state after : Accepted)
      → All IsSound state.by_check
      → accept_agents s catalog allow agents state ≡ ok after
      → All IsSound after.by_check
  unfolding accept_agents
  accept_agents-All allow [] state after a h =
      subst (λ (x : Accepted). All IsSound x.by_check) (ok-injective h) a
  accept_agents-All allow (agent ∷ agents) state after a h =
      let (next, e, h1) = >>=-eq-ok (accept_phase s catalog allow agent agent.phase state) _ h in
      accept_agents-All allow agents next after
        (accept_phase-All allow agent agent.phase state next a e) h1

  in_order-All :
      (ids : List String) (d : Dict String CheckResult)
      → All IsSound d
      → All (λ (r : CheckResult). IsGated r) (in_order ids d)
  unfolding in_order
  in_order-All [] d a = tt
  in_order-All (id ∷ ids) d a = elim (Option-cases (lookup String_discrete id d)) [
    | inl n ↦ subst (λ o. All IsGated (add_found o (in_order ids d))) (sym n) (in_order-All ids d a)
    | inr (r, e) ↦
        let sound = lookup-All String_discrete IsSound id r d a e in
        subst (λ o. All IsGated (add_found o (in_order ids d))) (sym e)
          ((sound.1, sound.2), in_order-All ids d a)
  ]

  contains-keys :
      (id : String) (d : Dict String CheckResult)
      → contains (keys d) id ≡ true
      → (r : CheckResult) × (lookup String_discrete id d ≡ some r)
  unfolding contains lookup
  contains-keys id [] h = absurd (cc h)
  contains-keys id ((k, r) ∷ d) h =
      elim (String_discrete k id)
        as (λ t.
          (x : CheckResult) × ((if is_yes t then some r else lookup String_discrete id d)
            ≡ some x)) [
              | yes p ↦ (r, refl)
              | no p ↦ contains-keys id d (ground (arith, ==_iff k id))
            ]

  in_order-ids :
      (ids : List String) (d : Dict String CheckResult)
      → All IsSound d
      → subset ids (keys d) ≡ true
      → ids_of (in_order ids d) ≡ ids
  unfolding in_order subset
  in_order-ids [] d a h = refl
  in_order-ids (id ∷ ids) d a h =
      let (here, there) = &&-true _ _ h in
      let (r, e) = contains-keys id d here in
      let sound = lookup-All String_discrete IsSound id r d a e in
      ap (λ o. ids_of (add_found o (in_order ids d))) e
      ∙ ap (λ t. t ∷ ids_of (in_order ids d)) sound.0
      ∙ ap (λ t. id ∷ t) (in_order-ids ids d a there)

  finish-in_order :
      (allow : Bool) (d : Dict String CheckResult) (out : List CheckResult)
      → finish catalog allow d ≡ ok out
      → (out ≡ in_order (enabled_ids catalog) d)
        × (allow ≡ false → subset (enabled_ids catalog) (keys d) ≡ true)
  unfolding finish
  finish-in_order allow d out h =
      let (missing, h1) =
        >>-eq-ok (raise_if (not (subset (enabled_ids catalog) (keys d)) && not allow) _) _ h in
      let (extra, h2) = >>-eq-ok (raise_if (not (subset (keys d) (enabled_ids catalog))) _) _ h1 in
      (sym (ok-injective h2), λ n. ground (arith, raise_if-eq-ok _ _ missing))

  -- What the last gate returns, with or without partial results, is in the scope of the Run and past
  -- the evidence gate, result by result. Where partial results are not allowed it is exactly one
  -- result for every enabled check, in the order of the catalog.
  pub validate_accepted_investigation_results-IsSound :
      (agents : List AgentInvestigationResult) (allow : Bool) (out : List CheckResult)
      → validate_accepted_investigation_results s catalog agents allow ≡ ok out
      → All
          (λ (r : CheckResult).
            (validate_check_result_scope s catalog r ≡ ok tt)
            × (validate_check_result_evidence_gate s catalog r ≡ ok tt))
          out
        × (allow ≡ false → ids_of out ≡ enabled_ids catalog)
  unfolding validate_accepted_investigation_results
  validate_accepted_investigation_results-IsSound agents allow out h =
      let (version, h1) =
        >>-eq-ok
          (raise_if (not (catalog.acquisition_catalog_version == s.acquisition_catalog_version)) _)
          _ h in
      let (accepted, e, h2) =
        >>=-eq-ok
          (accept_agents s catalog allow agents (record { by_check = []; risk_owners = [] })) _
          h1 in
      let a = accept_agents-All allow agents _ accepted tt e in
      let (p, covered) = finish-in_order allow accepted.by_check out h2 in
      (
        subst (All IsGated) (sym p) (in_order-All (enabled_ids catalog) accepted.by_check a),
        λ n. ap ids_of p ∙ in_order-ids (enabled_ids catalog) accepted.by_check a (covered n),
      )
