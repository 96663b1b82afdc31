-- ===== src/Validation/Downgrade.antt =====
-- What `downgrade_unsupported_check_conclusion` promises of validation.py's own gate.
use jindiao.Prelude.{
  ◌≡◌, ◌⊎◌, refl, ap, ◌↔◌, Bool, true, false, List, [], ◌∷◌, String, some, inl, inr, contains,
  subset, arith, Bool-cases, Option-cases, if-cases, sym, if◌then◌else◌, ◌==◌, &&-true, map,
}
use jindiao.Errors.{ok, >>=-eq-ok, ok-injective, traverse}
use jindiao.Contracts.Check.{CheckResult, is_inconclusive}
use jindiao.Contracts.Catalog.{
  DueDiligenceCheckCatalog, DueDiligenceCheckDefinition, get, scope_ids,
}
use jindiao.Contracts.Snapshot.{
  Evidence, EnterpriseContextSnapshot, SubmoduleContext, submodule, known_evidence, is_public_web,
}
use jindiao.Validation.{
  cited, downgrade_in, downgrade_unsupported_check_conclusion, evidence_by_id, public_web_only,
  scan_sources, validate_check_result_evidence_gate, validate_check_result_scope,
}
use jindiao.Validation.Gate.{
  IsWithdrawn, downgrade_in-IsWithdrawn, downgrade_in-gate, gate-downgrade_in,
}

evidence_by_id-of_contains :
    (es : List Evidence) (id : String)
    → contains (map (λ e. e.evidence_id) es) id ≡ true
    → (e : Evidence) × (evidence_by_id es id ≡ some e)
unfolding contains
evidence_by_id-of_contains [] id h = absurd (cc h)
evidence_by_id-of_contains (e ∷ es) id h = elim (Option-cases (evidence_by_id es id)) [
  | inr (found, p) ↦ (found, ground arith)
  | inl p ↦ elim (Bool-cases (e.evidence_id == id)) [
    | inl q ↦ (e, ground arith)
    | inr q ↦
        let (found, p') = evidence_by_id-of_contains es id (rw q at h) in (found, ground arith)
  ]
]

-- The lookups of the public-Web clause succeed on known Evidence.
public_web_only-of_subset :
    (es : List Evidence) (ids : List String)
    → subset ids (map (λ e. e.evidence_id) es) ≡ true
    → (only : Bool) × (public_web_only es ids ≡ ok only)
unfolding public_web_only subset
public_web_only-of_subset es [] h = (true, refl)
public_web_only-of_subset es (id ∷ ids) h =
    let (here, there) = &&-true _ _ h in
    let (e, p) = evidence_by_id-of_contains es id here in
    let (only, q) = public_web_only-of_subset es ids there in
    (if is_public_web e.source_type then only else false, ground arith)

downgrade_in-check_id :
    (s : EnterpriseContextSnapshot) (d : DueDiligenceCheckDefinition) (r r' : CheckResult)
    (required contexts : List SubmoduleContext)
    → downgrade_in s d r required contexts ≡ ok r'
    → r'.check_id ≡ r.check_id
unfolding downgrade_in
downgrade_in-check_id s d r r' required contexts h =
    let (p, e, k) = >>=-eq-ok (scan_sources s _ r _) _ h in
    elim (if-cases p.blocked _ _ k) [
      | inl q ↦ sym (ap (λ (x : CheckResult). x.check_id) (ok-injective q))
      | inr q ↦ sym (ap (λ (x : CheckResult). x.check_id) (ok-injective q))
    ]

-- the downgrade changes nothing, or withdraws the conclusion
pub downgrade-IsWithdrawn :
    (s : EnterpriseContextSnapshot) (catalog : DueDiligenceCheckCatalog) (r r' : CheckResult)
    → downgrade_unsupported_check_conclusion s catalog r ≡ ok r'
    → (r' ≡ r) ⊎ IsWithdrawn r r'
unfolding downgrade_unsupported_check_conclusion
downgrade-IsWithdrawn s catalog r r' h = elim (Bool-cases (is_inconclusive r.status)) [
  | inl c ↦ inl (sym (ok-injective (rw c at h)))
  | inr c ↦
      let (d, found, h1) = >>=-eq-ok (get catalog r.check_id) _ (rw c at h) in
      let (required, e, h2) = >>=-eq-ok (traverse (submodule s) d.required_submodule_ids) _ h1 in
      let (contexts, e', h3) = >>=-eq-ok (traverse (submodule s) (scope_ids d)) _ h2 in
      downgrade_in-IsWithdrawn s d r required contexts r' h3
]

pub downgraded-gate :
    (s : EnterpriseContextSnapshot) (catalog : DueDiligenceCheckCatalog) (r r' : CheckResult)
    → is_inconclusive r.status ≡ false
    → downgrade_unsupported_check_conclusion s catalog r ≡ ok r'
    → validate_check_result_evidence_gate s catalog r' ≡ ok tt
unfolding downgrade_unsupported_check_conclusion validate_check_result_evidence_gate
downgraded-gate s catalog r r' conclusive h =
    let (d, found, h1) = >>=-eq-ok (get catalog r.check_id) _ (rw conclusive at h) in
    let (required, e, h2) = >>=-eq-ok (traverse (submodule s) d.required_submodule_ids) _ h1 in
    let (contexts, e', h3) = >>=-eq-ok (traverse (submodule s) (scope_ids d)) _ h2 in
    rw (downgrade_in-check_id s d r r' required contexts h3, found, e, e')
      (downgrade_in-gate s d r required contexts r' conclusive h3)

-- A risk or no_risk conclusion that has been through the downgrade passes the gate, and either it is
-- unchanged, or it is withdrawn: it has become inconclusive with the summary of the gate and no risk
-- items, names at least one missing item or conflict, and is otherwise as it was.
pub downgrade-passes_gate :
    (s : EnterpriseContextSnapshot) (catalog : DueDiligenceCheckCatalog) (r r' : CheckResult)
    → is_inconclusive r.status ≡ false
    → downgrade_unsupported_check_conclusion s catalog r ≡ ok r'
    → (validate_check_result_evidence_gate s catalog r' ≡ ok tt) × ((r' ≡ r) ⊎ IsWithdrawn r r')
downgrade-passes_gate s catalog r r' conclusive h =
    (downgraded-gate s catalog r r' conclusive h, downgrade-IsWithdrawn s catalog r r' h)

scope-known :
    (s : EnterpriseContextSnapshot) (catalog : DueDiligenceCheckCatalog) (r : CheckResult)
    → validate_check_result_scope s catalog r ≡ ok tt
    → subset (cited r) (known_evidence s) ≡ true
unfolding validate_check_result_scope
scope-known s catalog r h = ground arith

gate-accepted :
    (s : EnterpriseContextSnapshot) (catalog : DueDiligenceCheckCatalog) (r : CheckResult)
    → is_inconclusive r.status ≡ false
    → validate_check_result_scope s catalog r ≡ ok tt
    → validate_check_result_evidence_gate s catalog r ≡ ok tt
    → downgrade_unsupported_check_conclusion s catalog r ≡ ok r
unfolding downgrade_unsupported_check_conclusion validate_check_result_evidence_gate
gate-accepted s catalog r conclusive scope h =
    let (only, w) =
      public_web_only-of_subset s.evidence (cited r) (scope-known s catalog r scope) in
    let (d, found, h1) = >>=-eq-ok (get catalog r.check_id) _ h in
    let (required, e, h2) = >>=-eq-ok (traverse (submodule s) d.required_submodule_ids) _ h1 in
    let (contexts, e', h3) = >>=-eq-ok (traverse (submodule s) (scope_ids d)) _ h2 in
    rw (conclusive, found, e, e') (gate-downgrade_in s d r required contexts only w conclusive h3)

-- A risk or no_risk conclusion whose citations are in scope is left unchanged by the downgrade
-- exactly when the gate accepts it.
pub downgrade-eq-self_iff :
    (s : EnterpriseContextSnapshot) (catalog : DueDiligenceCheckCatalog) (r : CheckResult)
    → is_inconclusive r.status ≡ false
    → validate_check_result_scope s catalog r ≡ ok tt
    → (downgrade_unsupported_check_conclusion s catalog r ≡ ok r)
      ↔ (validate_check_result_evidence_gate s catalog r ≡ ok tt)
downgrade-eq-self_iff s catalog r conclusive scope =
    (downgraded-gate s catalog r r conclusive, gate-accepted s catalog r conclusive scope)
