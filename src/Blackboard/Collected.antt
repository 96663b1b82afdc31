-- ===== src/Blackboard/Collected.antt =====
-- `submit_investigation_results`: what its loop over the drafts hands to the commit, and that an
-- accepted batch is what `submit_check_result` makes of its results, one after another.
use jindiao.Prelude.{
  ℕ, ◌≡◌, refl, sym, ap, ◌∙◌, subst, List, [], ◌∷◌, ◌++◌, map, String, Bool, true, false, not, Dict,
  All, unique, nonempty, inl, inr, if-cases, false≢true, nonempty-append, ◌||◌, subset, arith,
}
use mathlib.Core.List.{append-nil, append_assoc}
use jindiao.Errors.{
  Result, ok, err, >>=-eq-ok, >>-eq-ok, raise_if, raise_if-eq-ok, ok-injective, is_value_error,
}
use jindiao.Contracts.Check.{CheckResult}
use jindiao.Blackboard.State.{Board, CheckSubmissionReceipt}
use jindiao.Blackboard.Bind.{BoundCheckResultDraft, resolve_aliases}
use jindiao.Blackboard.Batch.{
  Collected, Failure, draft_ids, bind_checked, collect, collect_draft, describe_failure,
  submit_batch, commit_batch, expected_checks, commit_collected, batch_receipts, plan,
  identities_of,
}
use jindiao.Blackboard.Invariant.{IsValid}
use jindiao.Blackboard.Sequence.{IsReady, result_ids, submit_all, commit_batch-submit_all}
use jindiao.Blackboard.Readiness.{bind_checked-IsReady}

module _ (b : Board) (agent prompt_version : String) (aliases : Dict String String) where
  -- A loop that ends without a failure had none at any time.
  no_failures : (c : Collected) (f : Failure) → nonempty (c.failures ++ f ∷ []) ≡ false → ⊥
  no_failures c f h =
      false≢true (sym h ∙ nonempty-append c.failures (f ∷ []) ∙ true_right (nonempty c.failures))
    where
      true_right : (x : Bool) → (x || true) ≡ true
      true_right true = refl
      true_right false = refl

  collect_draft-ok :
      (draft : BoundCheckResultDraft) (bound : Result CheckResult) (c d : Collected)
      → collect_draft b agent prompt_version aliases draft bound c ≡ ok d
      → nonempty d.failures ≡ false
      → (r : CheckResult) × (bound ≡ ok r) × (d ≡ record c { parsed = c.parsed ++ r ∷ [] })
  unfolding collect_draft
  collect_draft-ok draft (ok r) c d h n = (r, refl, sym (ok-injective h))
  collect_draft-ok draft (err error) c d h n =
      absurd (elim (if-cases (is_value_error error) _ _ h) [
        | inl p ↦
            let (f, described, e) =
              >>=-eq-ok (describe_failure b agent prompt_version aliases draft error) _ p in
            no_failures c f
              (subst (λ (x : Collected). nonempty x.failures ≡ false) (sym (ok-injective e)) n)
        | inr p ↦ not_raised p
      ])
    where
      not_raised : err error ≡ ok d → ⊥
      not_raised p = cc

  abbrev IsCollected : List BoundCheckResultDraft → Collected → Collected → Type 0
  IsCollected drafts c d =
      (nonempty c.failures ≡ false)
      × (rs : List CheckResult) × (d.parsed ≡ c.parsed ++ rs)
      × All (IsReady b agent) rs
      × (result_ids rs ≡ draft_ids drafts)

  collect-IsCollected :
      (drafts : List BoundCheckResultDraft) (c d : Collected)
      → IsValid b
      → collect b agent prompt_version aliases drafts c ≡ ok d
      → nonempty d.failures ≡ false
      → IsCollected drafts c d
  unfolding collect
  collect-IsCollected [] c d v h n =
      let same = ok-injective h in
      (
        subst (λ (x : Collected). nonempty x.failures ≡ false) (sym same) n,
        [],
        ap (λ (x : Collected). x.parsed) (sym same) ∙ sym (append-nil c.parsed),
        tt,
        refl,
      )
  collect-IsCollected (draft ∷ drafts) c d v h n =
      let (m, one, h1) =
        >>=-eq-ok
          (collect_draft b agent prompt_version aliases draft
            (bind_checked b agent prompt_version aliases draft) c)
          _ h in
      let (clean, rs, parsed, ready, ids) = collect-IsCollected drafts m d v h1 n in
      let (r, bound, same) = collect_draft-ok draft _ c m one clean in
      let (is_ready, id) = bind_checked-IsReady b agent prompt_version aliases draft r v bound in
      (
        subst (λ (x : Collected). nonempty x.failures ≡ false) same clean,
        r ∷ rs,
        parsed ∙ ap (λ (x : Collected). x.parsed ++ rs) same ∙ append_assoc c.parsed (r ∷ []) rs,
        (is_ready, ready),
        cc (id, ids),
      )

  pub draft_ids-resolve_aliases :
      (identities : Dict String String) (drafts : List BoundCheckResultDraft)
      → draft_ids (map (resolve_aliases identities) drafts) ≡ draft_ids drafts
  unfolding resolve_aliases
  draft_ids-resolve_aliases identities [] = refl
  draft_ids-resolve_aliases identities (d ∷ ds) =
      ap (λ (ids : List String). d.check_id ∷ ids) (draft_ids-resolve_aliases identities ds)

  -- An accepted batch on a valid board is a run of `submit_check_result`: there are results for the
  -- checks of the drafts, in their order, which submitted one after another are all accepted, with
  -- the receipts of the batch, and leave the board of the batch.
  pub submit_batch-submit_all :
      (sha256 : CheckResult → String) (drafts : List BoundCheckResultDraft) (now : ℕ)
      (out : List CheckSubmissionReceipt × Board)
      → IsValid b
      → submit_batch sha256 b agent prompt_version aliases drafts now ≡ ok out
      → (rs : List CheckResult) × (result_ids rs ≡ draft_ids drafts)
        × (submit_all sha256 b agent rs now ≡ ok out)
  unfolding submit_batch commit_collected
  submit_batch-submit_all sha256 drafts now out v h =
      let resolved = map (resolve_aliases (identities_of aliases)) drafts in
      let (complete, h1) = >>-eq-ok (raise_if (is_incomplete resolved) _) _ h in
      let (c, collected, h2) =
        >>=-eq-ok
          (collect b agent prompt_version aliases resolved (record { parsed = []; failures = [] }))
          _ h1 in
      let (none_failed, h3) = >>-eq-ok (raise_if (nonempty c.failures) _) _ h2 in
      let (pending, planned, h4) = >>=-eq-ok (plan b agent c.parsed []) _ h3 in
      let (_, rs, parsed, ready, ids) =
        collect-IsCollected resolved (record { parsed = []; failures = [] }) c v collected
          (raise_if-eq-ok (nonempty c.failures) _ none_failed) in
      (
        rs,
        ids ∙ draft_ids-resolve_aliases (identities_of aliases) drafts,
        commit_batch-submit_all sha256 b agent now rs pending
              (subst (λ t. unique t ≡ true) (sym ids) (once resolved (raise_if-eq-ok _ _ complete)))
              ready
              (subst (λ (t : List CheckResult). plan b agent t [] ≡ ok pending) parsed planned)
            ∙ ap
                (λ (t : List CheckResult).
                  ok (batch_receipts sha256 b agent now t, commit_batch b t pending))
                (sym parsed)
            ∙ h4,
      )
    where
      is_incomplete : List BoundCheckResultDraft → Bool
      is_incomplete ds =
          not (unique (draft_ids ds))
          || not (subset (draft_ids ds) (expected_checks agent b.grant_by_check))
          || not (subset (expected_checks agent b.grant_by_check) (draft_ids ds))

      once :
          (ds : List BoundCheckResultDraft)
          → is_incomplete ds ≡ false
          → unique (draft_ids ds) ≡ true
      once ds e = ground arith
