-- ===== src/Validation/Gate.antt =====
-- The downgrade and the gate of validation.py agree on risk and no_risk conclusions.
use jindiao.Prelude.{
  ◌≡◌, ◌⊎◌, refl, sym, [], Bool, true, false, not, ◌||◌, List, ◌++◌, String, nonempty, arith,
  nonempty-distinct, Bool-cases, ||-false, if◌then◌else◌, ap, subst, inl, inr, ltb, length,
  distinct, false≢true,
}
use jindiao.Errors.{ok, >>=-eq-ok, >>-eq-ok, ok-injective}
use jindiao.Contracts.Check.{CheckStatus, CheckResult, is_inconclusive, is_no_risk}
use jindiao.Contracts.Catalog.{DueDiligenceCheckDefinition}
use jindiao.Contracts.Snapshot.{EnterpriseContextSnapshot, SubmoduleContext}
use jindiao.Validation.{
  Progress, scan, scan_sources, block_if, minimum_item, sources_item, downgraded, gate_gap,
  gate_sources, gate_conclusion, snapshot_conflicts, cited, downgrade_in, gate_status,
  public_web_only, evidence_gate_inconclusive_summary,
}
use jindiao.Validation.Scan.{
  blocked-scan, any-blocks, scan-IsRecorded, nonempty-append_one, nonempty-conflicts,
}

-- A conclusion that is withdrawn: the result is inconclusive, says so, lists no risk, and names a
-- missing item or a conflict; every other field is as it was.
abbrev pub IsWithdrawn : CheckResult → CheckResult → Type 0
IsWithdrawn r r' =
    (missing : List String) × (conflicting : List String) × ((nonempty missing
        || nonempty conflicting)
      ≡ true)
    × (r' ≡ record r {
      status = CheckStatus.inconclusive;
      decision_summary = evidence_gate_inconclusive_summary;
      risk_items = [];
      missing_evidence = missing;
      conflicts = conflicting;
    })

gap_named : (u c m f n : Bool) → (m || f) ≡ true → not (u || c || m || f || n) ≡ false
gap_named u c m f n h = ground arith

module _ (snapshot : EnterpriseContextSnapshot) (d : DueDiligenceCheckDefinition) (r : CheckResult)
    (required contexts : List SubmoduleContext) where
  abbrev start : Progress
  start = record { blocked = false; missing_evidence = r.missing_evidence }

  abbrev require_all : Bool
  require_all = d.evidence_requirements.require_all_required_submodules

  abbrev scanned : Progress
  scanned = scan require_all (cited r) start required

  abbrev counted : Progress
  counted =
      block_if (ltb (length (cited r)) d.evidence_requirements.minimum_evidence_count)
        (minimum_item d.evidence_requirements.minimum_evidence_count) scanned

  abbrev found : List String
  found = distinct (r.conflicts ++ snapshot_conflicts contexts)

  abbrev marked : Progress
  marked = record counted { blocked = counted.blocked || nonempty found }

  abbrev allow : Bool
  allow = d.evidence_requirements.allow_public_web_only_for_no_risk

  -- A block comes with a missing item or a conflict.
  abbrev HasGap : Progress → Type 0
  HasGap p = p.blocked ≡ true → (nonempty p.missing_evidence || nonempty found) ≡ true

  marked-HasGap : HasGap marked
  marked-HasGap h = ground (
    arith,
    scan-IsRecorded require_all (cited r) start required (λ e. absurd (false≢true e)),
    nonempty-append_one scanned.missing_evidence
        (minimum_item d.evidence_requirements.minimum_evidence_count),
  )

  scan_sources-HasGap :
      (p q : Progress) → HasGap p → scan_sources snapshot allow r p ≡ ok q → HasGap q
  scan_sources-HasGap p q h e = ground (arith, nonempty-append_one p.missing_evidence sources_item)

  downgraded-gate :
      (p : Progress)
      → p.blocked ≡ true
      → HasGap p
      → gate_gap d (downgraded r p.missing_evidence found) required contexts ≡ ok tt
  downgraded-gate p b h = rw (
    nonempty-distinct p.missing_evidence,
    gap_named _ _ (nonempty p.missing_evidence) (nonempty found) _ (h b),
  )

  -- A result that nothing blocks passes the clauses on its conclusion.
  unblocked-gate_conclusion :
      counted.blocked ≡ false
      → nonempty found ≡ false
      → gate_conclusion d r required contexts ≡ ok tt
  unblocked-gate_conclusion b f = ground (
    arith,
    blocked-scan require_all (cited r) start required,
    any-blocks require_all (cited r) required,
    nonempty-conflicts r.conflicts contexts,
  )

  marked-unblocked : marked.blocked ≡ false → gate_conclusion d r required contexts ≡ ok tt
  marked-unblocked h =
      let (b, f) = ||-false counted.blocked (nonempty found) h in unblocked-gate_conclusion b f

  scan_sources-unblocked :
      (p : Progress)
      → scan_sources snapshot allow r marked ≡ ok p
      → p.blocked ≡ false
      → marked.blocked ≡ false
  scan_sources-unblocked p e b = ground arith

  unblocked-gate_sources :
      (p : Progress)
      → is_no_risk r.status ≡ true
      → scan_sources snapshot allow r marked ≡ ok p
      → p.blocked ≡ false
      → gate_sources snapshot allow r ≡ ok tt
  unblocked-gate_sources p s e b = ground arith

  unblocked-gate :
      (p : Progress) (st : CheckStatus)
      → r.status ≡ st
      → is_inconclusive st ≡ false
      → scan_sources snapshot allow r marked ≡ ok p
      → p.blocked ≡ false
      → gate_status snapshot d r required contexts st ≡ ok tt
  unblocked-gate p CheckStatus.risk s c e b = marked-unblocked (scan_sources-unblocked p e b)
  unblocked-gate p CheckStatus.no_risk s c e b =
      rw (marked-unblocked (scan_sources-unblocked p e b))
        (unblocked-gate_sources p (ap is_no_risk s) e b)
  unblocked-gate p CheckStatus.inconclusive s c e b = cc

  -- what the last step of the downgrade returns passes the gate
  finished-gate :
      (p : Progress) (r' : CheckResult)
      → is_inconclusive r.status ≡ false
      → scan_sources snapshot allow r marked ≡ ok p
      → (if p.blocked then ok (downgraded r p.missing_evidence found) else ok r) ≡ ok r'
      → gate_status snapshot d r' required contexts r'.status ≡ ok tt
  finished-gate p r' c e h = elim (Bool-cases p.blocked) [
    | inl b ↦
        subst (λ (x : CheckResult). gate_status snapshot d x required contexts x.status ≡ ok tt)
          (ok-injective (rw b at h))
          (downgraded-gate p b (scan_sources-HasGap marked p marked-HasGap e))
    | inr b ↦
        subst (λ (x : CheckResult). gate_status snapshot d x required contexts x.status ≡ ok tt)
          (ok-injective (rw b at h)) (unblocked-gate p r.status refl c e b)
  ]

  pub downgrade_in-gate :
      (r' : CheckResult)
      → is_inconclusive r.status ≡ false
      → downgrade_in snapshot d r required contexts ≡ ok r'
      → gate_status snapshot d r' required contexts r'.status ≡ ok tt
  unfolding downgrade_in
  downgrade_in-gate r' conclusive h =
      let (p, e, k) = >>=-eq-ok (scan_sources snapshot allow r marked) _ h in
      finished-gate p r' conclusive e k

  -- what the last step of the downgrade returns is the result itself, or names its gap
  finished-IsWithdrawn :
      (p : Progress) (r' : CheckResult)
      → scan_sources snapshot allow r marked ≡ ok p
      → (if p.blocked then ok (downgraded r p.missing_evidence found) else ok r) ≡ ok r'
      → (r' ≡ r) ⊎ IsWithdrawn r r'
  finished-IsWithdrawn p r' e h = elim (Bool-cases p.blocked) [
    | inl b ↦ inr (
      distinct p.missing_evidence,
      found,
      rw (nonempty-distinct p.missing_evidence) (scan_sources-HasGap marked p marked-HasGap e b),
      sym (ok-injective (rw b at h)),
    )
    | inr b ↦ inl (sym (ok-injective (rw b at h)))
  ]

  pub downgrade_in-IsWithdrawn :
      (r' : CheckResult)
      → downgrade_in snapshot d r required contexts ≡ ok r'
      → (r' ≡ r) ⊎ IsWithdrawn r r'
  unfolding downgrade_in
  downgrade_in-IsWithdrawn r' h =
      let (p, e, k) = >>=-eq-ok (scan_sources snapshot allow r marked) _ h in
      finished-IsWithdrawn p r' e k

  -- The converse: a conclusion that the gate accepts is left as it is.
  gate_conclusion-unblocked : gate_conclusion d r required contexts ≡ ok tt → marked.blocked ≡ false
  gate_conclusion-unblocked h = ground (
    arith,
    blocked-scan require_all (cited r) start required,
    any-blocks require_all (cited r) required,
    nonempty-conflicts r.conflicts contexts,
  )

  gate_sources-unblocked :
      (only : Bool)
      → public_web_only snapshot.evidence (cited r) ≡ ok only
      → is_no_risk r.status ≡ true
      → gate_sources snapshot allow r ≡ ok tt
      → marked.blocked ≡ false
      → scan_sources snapshot allow r marked ≡ ok marked
  gate_sources-unblocked only w n h b = ground arith

  gated-scan_sources :
      (only : Bool) (st : CheckStatus)
      → public_web_only snapshot.evidence (cited r) ≡ ok only
      → r.status ≡ st
      → is_inconclusive st ≡ false
      → gate_status snapshot d r required contexts st ≡ ok tt
      → (scan_sources snapshot allow r marked ≡ ok marked) × (marked.blocked ≡ false)
  gated-scan_sources only CheckStatus.risk w s c h = (ground arith, gate_conclusion-unblocked h)
  gated-scan_sources only CheckStatus.no_risk w s c h =
      let (conclusion, sources) = >>-eq-ok _ _ h in
      let b = gate_conclusion-unblocked conclusion in
      (gate_sources-unblocked only w (ap is_no_risk s) sources b, b)
  gated-scan_sources only CheckStatus.inconclusive w s c h = cc

  pub gate-downgrade_in :
      (only : Bool)
      → public_web_only snapshot.evidence (cited r) ≡ ok only
      → is_inconclusive r.status ≡ false
      → gate_status snapshot d r required contexts r.status ≡ ok tt
      → downgrade_in snapshot d r required contexts ≡ ok r
  unfolding downgrade_in
  gate-downgrade_in only w c h =
      let (e, b) = gated-scan_sources only r.status w refl c h in
      rw e (ap (λ t. if t then ok (downgraded r marked.missing_evidence found) else ok r) b)
