-- ===== src/Blackboard/Binding.antt =====
-- What `_bind_check_result` returns is accepted by `submit_check_result`.
use jindiao.Prelude.{
  ◌≡◌, ◌⊎◌, refl, sym, ap, subst, Bool, true, false, not, ◌||◌, List, [], ◌∷◌, ◌++◌, inl, inr,
  arith, nonempty, ◌==◌,
}
use jindiao.Errors.{Result, ok, err, >>=-eq-ok, >>-eq-ok, ok-injective, traverse}
use jindiao.Contracts.Check.{
  CheckStatus, CheckResult, model_validate, model_validate-cleared, is_blank, is_inconclusive,
}
use jindiao.Contracts.Catalog.{
  DueDiligenceCheckCatalog, DueDiligenceCheckDefinition, get, scope_ids,
}
use jindiao.Contracts.Snapshot.{EnterpriseContextSnapshot, SubmoduleContext, submodule}
use jindiao.Validation.{
  as_unknown_check, same_identity, cites_known, cites_authorized, scope_of_check,
  downgrade_unsupported_check_conclusion, validate_check_result_scope,
  validate_check_result_evidence_gate, evidence_gate_inconclusive_summary,
}
use jindiao.Validation.Downgrade.{downgraded-gate, downgrade-IsWithdrawn}

traverse-prefix {ℓ κ} :
    {A : Type ℓ} {B : Type κ} (f : A → Result B) (xs ys : List A) {zs : List B}
    → traverse f (xs ++ ys) ≡ ok zs
    → (prefix : List B) × (traverse f xs ≡ ok prefix)
traverse-prefix f [] ys h = ([], refl)
traverse-prefix f (x ∷ xs) ys h =
    let (y, e, h1) = >>=-eq-ok (f x) _ h in
    let (rest, e', h2) = >>=-eq-ok (traverse f (xs ++ ys)) _ h1 in
    let (prefix, p) = traverse-prefix f xs ys e' in (y ∷ prefix, rw (e, p))

gap_of_missing : (u c m f n : Bool) → m ≡ true → not (u || c || m || f || n) ≡ false
gap_of_missing u c m f n h = ground arith

downgrade-inconclusive :
    (s : EnterpriseContextSnapshot) (catalog : DueDiligenceCheckCatalog) (r r' : CheckResult)
    → r.status ≡ CheckStatus.inconclusive
    → downgrade_unsupported_check_conclusion s catalog r ≡ ok r'
    → r ≡ r'
unfolding downgrade_unsupported_check_conclusion
downgrade-inconclusive s catalog r r' st h = ok-injective (rw (ap is_inconclusive st) at h)

module _ (s : EnterpriseContextSnapshot) (catalog : DueDiligenceCheckCatalog) where
  summary-not_blank : is_blank evidence_gate_inconclusive_summary ≡ false
  unfolding is_blank ◌==◌
  summary-not_blank = refl

  pub downgrade-model :
      (r r' : CheckResult)
      → downgrade_unsupported_check_conclusion s catalog r ≡ ok r'
      → model_validate r ≡ ok r
      → model_validate r' ≡ ok r'
  downgrade-model r r' h m = elim (downgrade-IsWithdrawn s catalog r r' h) [
    | inl p ↦ subst (λ (x : CheckResult). model_validate x ≡ ok x) (sym p) m
    | inr (missing, found, gap, p) ↦
        subst (λ (x : CheckResult). model_validate x ≡ ok x) (sym p)
          (model_validate-cleared r evidence_gate_inconclusive_summary _ found summary-not_blank m)
  ]

  pub downgrade-scope :
      (r r' : CheckResult)
      → downgrade_unsupported_check_conclusion s catalog r ≡ ok r'
      → validate_check_result_scope s catalog r ≡ ok tt
      → validate_check_result_scope s catalog r' ≡ ok tt
  unfolding validate_check_result_scope
  downgrade-scope r r' h m = elim (downgrade-IsWithdrawn s catalog r r' h) [
    | inl p ↦ subst (λ (x : CheckResult). validate_check_result_scope s catalog x ≡ ok tt) (sym p) m
    | inr (missing, found, gap, p) ↦
        subst (λ (x : CheckResult). validate_check_result_scope s catalog x ≡ ok tt) (sym p) m
  ]

  known-check :
      (o : Result DueDiligenceCheckDefinition) {d : DueDiligenceCheckDefinition}
      → as_unknown_check o ≡ ok d
      → o ≡ ok d
  known-check (ok d) h = h
  known-check (err e) h = cc

  -- what a result in scope shows: its check is known and every submodule of it is in the snapshot
  scope-lookups :
      (r : CheckResult)
      → validate_check_result_scope s catalog r ≡ ok tt
      → (d : DueDiligenceCheckDefinition) × (get catalog r.check_id ≡ ok d)
        × ((contexts : List SubmoduleContext) × (traverse (submodule s) (scope_ids d)
              ≡ ok contexts))
  unfolding validate_check_result_scope
  scope-lookups r h =
      let (_, h1) = >>-eq-ok (same_identity s catalog r) _ h in
      let (d, known, h2) =
        >>=-eq-ok (as_unknown_check (get catalog r.check_id)) (scope_of_check s r) h1 in
      let (_, h3) = >>-eq-ok (cites_known s r d) _ h2 in
      let (contexts, e, _) =
        >>=-eq-ok (traverse (submodule s) (scope_ids d)) (cites_authorized r) h3 in
      (d, known-check _ known, (contexts, e))

  -- An inconclusive result in scope that names a missing item passes the gate.
  gap-passes_gate :
      (r : CheckResult)
      → r.status ≡ CheckStatus.inconclusive
      → nonempty r.missing_evidence ≡ true
      → validate_check_result_scope s catalog r ≡ ok tt
      → validate_check_result_evidence_gate s catalog r ≡ ok tt
  unfolding validate_check_result_evidence_gate
  gap-passes_gate r st m h =
      let (d, known, (contexts, e)) = scope-lookups r h in
      let (required, e') =
        traverse-prefix (submodule s) d.required_submodule_ids d.optional_submodule_ids e in
      rw (known, e', e, st, gap_of_missing _ _ _ _ _ m)

  -- A candidate that is conclusive or names a missing item passes the gate once downgraded.
  pub candidate-gate :
      (r r' : CheckResult)
      → (is_inconclusive r.status ≡ false)
        ⊎ ((r.status ≡ CheckStatus.inconclusive) × (nonempty r.missing_evidence ≡ true))
      → validate_check_result_scope s catalog r ≡ ok tt
      → downgrade_unsupported_check_conclusion s catalog r ≡ ok r'
      → validate_check_result_evidence_gate s catalog r' ≡ ok tt
  candidate-gate r r' (inl c) scope h = downgraded-gate s catalog r r' c h
  candidate-gate r r' (inr (st, m)) scope h =
      subst (λ (x : CheckResult). validate_check_result_evidence_gate s catalog x ≡ ok tt)
        (downgrade-inconclusive s catalog r r' st h) (gap-passes_gate r st m scope)
