-- ===== src/Review/Binding.antt =====
-- `_bind_review` followed by `submit_review`: the version that is bound is one that is accepted.
use jindiao.Prelude.{
  ℕ, suc, ◌+◌, ◌≤◌, ◌<◌, ◌≡◌, ◌⊎◌, inl, inr, refl, sym, ap, ◌∙◌, subst, arith, String, ℕ_discrete,
  Bool, true, false, Option, none, some, [], ◌∷◌, Dict, lookup, is_yes, same_iff, eqb, length,
  if◌then◌else◌, if-cases, some-eq,
}
use jindiao.Errors.{Checked, ok, err, ◌>>=◌, >>=-eq-ok, >>-eq-ok, ok-injective}
use jindiao.Budget.Ledger.{BudgetLedger}
use jindiao.Review.Model.{
  ReviewSubmission, ReviewSubmissionReceipt, Review-discrete, model_validate_review,
  validate_review_fields, validate_unique_items,
}
use jindiao.Review.Submit.{
  ReviewBoard, BoundReviewDraft, latest_version, latest_review, next_review_version,
  review_candidate, or_latest_review, bind_review, validate_review, charge_round, is_charged,
  commit_review, review_receipt, store_review, submit_review,
}
use jindiao.Review.Outcomes.{IsHistoryFrom, latest_version-history, latest_version-length}

-- the review of each version is there
lookup-history :
    (n i : ℕ) (reviews : Dict ℕ ReviewSubmission)
    → IsHistoryFrom n reviews
    → i < length reviews
    → (r : ReviewSubmission) × (lookup ℕ_discrete (n + i) reviews ≡ some r)
      × (r.review_version ≡ n + i)
unfolding lookup
lookup-history n i [] h p = absurd (omega (arith, p))
lookup-history n ℕ.zero ((k, r) ∷ reviews) h p =
    (r, ground (arith, h.0, same_iff ℕ_discrete k (n + 0)), omega (arith, h.1))
lookup-history n (suc i) ((k, r) ∷ reviews) h p =
    let (x, e, v) = lookup-history (suc n) i reviews h.2 (omega (arith, p)) in
    let shift : suc n + i ≡ n + suc i = omega arith in
    (
      x,
      ground (
        arith,
        h.0,
        same_iff ℕ_discrete k (n + suc i),
        subst (λ j. lookup ℕ_discrete j reviews ≡ some x) shift e,
      ),
      v ∙ shift,
    )

-- and none of a later version
lookup-beyond :
    (n i : ℕ) (reviews : Dict ℕ ReviewSubmission)
    → IsHistoryFrom n reviews
    → n + length reviews ≤ i
    → lookup ℕ_discrete i reviews ≡ none
unfolding lookup
lookup-beyond n i [] h p = refl
lookup-beyond n i ((k, r) ∷ reviews) h p =
    ground
      (arith, h.0, same_iff ℕ_discrete k i, lookup-beyond (suc n) i reviews h.2 (omega (arith, p)))

-- the latest review, if there is one, has the latest version
latest-history :
    (reviews : Dict ℕ ReviewSubmission)
    → IsHistoryFrom 1 reviews
    → next_review_version (latest_review reviews) ≡ latest_version reviews + 1
unfolding lookup latest_version
latest-history [] h = refl
latest-history ((k, r) ∷ reviews) h =
    let (x, e, v) = lookup-history 1 (length reviews) ((k, r) ∷ reviews) h (omega arith) in
    let last = latest_version-history 1 r k reviews h in
    ap next_review_version (ap (λ j. lookup ℕ_discrete j ((k, r) ∷ reviews)) last ∙ e)
    ∙ ap (λ j. j + 1) (v ∙ sym last)

-- A bound review is the latest one, or bears the next version.
abbrev pub IsSubmittable : ReviewBoard → ReviewSubmission → Type 0
IsSubmittable s r =
    (lookup ℕ_discrete r.review_version s.reviews ≡ some r)
    ⊎ ((lookup ℕ_discrete r.review_version s.reviews ≡ none)
        × (r.review_version ≡ latest_version s.reviews + 1))

lookup-keyed :
    (n k : ℕ) (reviews : Dict ℕ ReviewSubmission) (r : ReviewSubmission)
    → IsHistoryFrom n reviews
    → lookup ℕ_discrete k reviews ≡ some r
    → r.review_version ≡ k
unfolding lookup
lookup-keyed n k [] r h e = cc
lookup-keyed n k ((j, q) ∷ reviews) r h e =
    elim (ℕ_discrete j k)
        as (λ t.
          (if is_yes t then some q else lookup ℕ_discrete k reviews) ≡ some r
          → r.review_version ≡ k) [
            | yes p ↦ λ f.
                ap (λ (x : ReviewSubmission). x.review_version) (some-eq (sym f))
                ∙ h.1
                ∙ sym h.0
                ∙ p
            | no p ↦ λ f. lookup-keyed (suc n) k reviews r h.2 f
          ]
      e

made-next :
    (s : ReviewBoard) (r : ReviewSubmission)
    → IsHistoryFrom 1 s.reviews
    → r.review_version ≡ next_review_version (latest_review s.reviews)
    → IsSubmittable s r
made-next s r h v =
    let next = v ∙ latest-history s.reviews h in
    inr (
      lookup-beyond 1 r.review_version s.reviews h
          (omega (arith, next, latest_version-length s.reviews h)),
      next,
    )

or_latest-IsSubmittable :
    (s : ReviewBoard) (made r : ReviewSubmission) (held : Option ReviewSubmission)
    → IsHistoryFrom 1 s.reviews
    → latest_review s.reviews ≡ held
    → made.review_version ≡ next_review_version (latest_review s.reviews)
    → or_latest_review held made ≡ r
    → IsSubmittable s r
or_latest-IsSubmittable s made r none h e v p = subst (IsSubmittable s) p (made-next s made h v)
or_latest-IsSubmittable s made r (some l) h e v p = elim (if-cases _ l made p) [
  | inl q ↦
      subst (IsSubmittable s) q
        (inl (ap (λ k. lookup ℕ_discrete k s.reviews) (lookup-keyed 1 _ s.reviews l h e) ∙ e))
  | inr q ↦ subst (IsSubmittable s) q (made-next s made h v)
]

bound-IsSubmittable :
    (s : ReviewBoard) (prompt_version : String) (draft : BoundReviewDraft) (r : ReviewSubmission)
    → IsHistoryFrom 1 s.reviews
    → bind_review s prompt_version draft ≡ ok r
    → IsSubmittable s r
unfolding bind_review model_validate_review
bound-IsSubmittable s pv draft r h b =
    let made = review_candidate s pv draft in
    let (m, model, b1) = >>=-eq-ok (model_validate_review made) _ b in
    let (_, c) = >>-eq-ok (validate_review_fields made) _ model in
    let (_, d) = >>-eq-ok (validate_unique_items made) _ c in
    or_latest-IsSubmittable s m r (latest_review s.reviews) h refl
      (ap (λ (x : ReviewSubmission). x.review_version) (sym (ok-injective d))) (ok-injective b1)

module _ (sha256 : ReviewSubmission → String) where
  -- A review that `_bind_review` returns is accepted by `submit_review` when it passes the
  -- validators of the board and the budget grants its repair round: its version is never refused.
  pub submit_review-bind_review :
      (s : ReviewBoard) (reviewer prompt_version : String) (draft : BoundReviewDraft)
      (r : ReviewSubmission) (charge : Bool) (now at : ℕ)
      → IsHistoryFrom 1 s.reviews
      → bind_review s prompt_version draft ≡ ok r
      → (model_validate_review r >>= validate_review s.board reviewer) ≡ ok tt
      → (charge_round (is_charged charge r) at s.ledger).0 ≡ ok tt
      → (receipt : ReviewSubmissionReceipt) × ((submit_review sha256 s reviewer r charge now at).0
          ≡ ok receipt)
  unfolding submit_review store_review
  submit_review-bind_review s reviewer pv draft r charge now at h b valid granted =
      elim (bound-IsSubmittable s pv draft r h b) [
        | inl e ↦ (
          review_receipt sha256 s.board reviewer r true now,
          rw (valid, e, (same_iff Review-discrete r r).1 refl) refl,
        )
        | inr (e, n) ↦ (
          review_receipt sha256 s.board reviewer r false now,
          rw (valid, e, (eqb_eq n))
              (committed (charge_round (is_charged charge r) at s.ledger) granted),
        )
      ]
    where
      eqb_eq : {a b : ℕ} → a ≡ b → eqb a b ≡ true
      eqb_eq p = ground arith

      committed :
          (c : Checked × Option BudgetLedger)
          → c.0 ≡ ok tt
          → (commit_review sha256 s reviewer r now c).0
            ≡ ok (review_receipt sha256 s.board reviewer r false now)
      committed (ok u, l) p = refl
      committed (err e, l) p = cc
