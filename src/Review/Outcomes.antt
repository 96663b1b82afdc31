-- ===== src/Review/Outcomes.antt =====
-- What `submit_review` does to the reviews and to the ledger, also when it raises.
use jindiao.Prelude.{
  ℕ, suc, ◌+◌, ◌≡◌, ◌⊎◌, inl, inr, refl, sym, ap, ◌∙◌, subst, arith, String, ℕ_discrete, Bool, true,
  false, ◌&&◌, nonempty, Option, none, some, [], ◌∷◌, Dict, lookup, put, is_yes, same_iff, eqb,
  length, Bool-cases,
}
use jindiao.Errors.{Error, Checked, ok, err, ◌>>=◌}
use jindiao.Budget.Ledger.{BudgetLedger}
use jindiao.Review.Model.{ReviewSubmission, Review-discrete, model_validate_review}
use jindiao.Review.Charge.{IsCounted, IsRefused, IsCharge, same-IsRefused, charge_round-IsCharge}
use jindiao.Review.Submit.{
  ReviewBoard, Outcome, validate_review, latest_version, is_charged, charge_round, review_receipt,
  commit_review, store_review, refuse_or, submit_review,
}

-- The reviews bear the versions that follow one another from a first one.
abbrev pub IsHistoryFrom : ℕ → Dict ℕ ReviewSubmission → Type 0
IsHistoryFrom n [] = Unit
IsHistoryFrom n ((k, r) ∷ reviews) =
    (k ≡ n) × (r.review_version ≡ n) × IsHistoryFrom (suc n) reviews

pub latest_version-history :
    (n : ℕ) (r : ReviewSubmission) (k : ℕ) (reviews : Dict ℕ ReviewSubmission)
    → IsHistoryFrom n ((k, r) ∷ reviews)
    → latest_version ((k, r) ∷ reviews) ≡ n + length reviews
unfolding latest_version
latest_version-history n r k [] h = omega (arith, h.0)
latest_version-history n r k ((j, q) ∷ reviews) h =
    omega (arith, h.0, latest_version-history (suc n) q j reviews h.2)

pub latest_version-length :
    (reviews : Dict ℕ ReviewSubmission)
    → IsHistoryFrom 1 reviews
    → latest_version reviews ≡ length reviews
unfolding latest_version
latest_version-length [] h = refl
latest_version-length ((k, r) ∷ reviews) h = omega (arith, latest_version-history 1 r k reviews h)

-- a write at the version after the last one adds the review at the end
put-history :
    (n : ℕ) (r : ReviewSubmission) (reviews : Dict ℕ ReviewSubmission)
    → IsHistoryFrom n reviews
    → r.review_version ≡ n + length reviews
    → IsHistoryFrom n (put ℕ_discrete r.review_version r reviews)
unfolding put
put-history n r [] h p = (omega (arith, p), omega (arith, p), tt)
put-history n r ((k, q) ∷ reviews) h p = ground (
  arith,
  h.0,
  same_iff ℕ_discrete k r.review_version,
  put-history (suc n) r reviews h.2 (omega (arith, p)),
)

module _ (sha256 : ReviewSubmission → String) where
  -- A review is refused, the reviews stay and no round is counted; or it is a replay, and nothing
  -- changes; or it is stored under the next version, and the ledger has counted the round that it
  -- is charged.
  abbrev pub Submitted : ReviewBoard → String → ReviewSubmission → Bool → ℕ → Outcome → Type 0
  Submitted s reviewer r charge now out =
      ((e : Error) × (out.0 ≡ err e)
        × (out.1.board ≡ s.board)
        × (out.1.reviews ≡ s.reviews)
        × IsRefused (charge && nonempty r.repair_tasks) s.ledger out.1.ledger)
      ⊎ ((lookup ℕ_discrete r.review_version s.reviews ≡ some r)
          × (out ≡ (ok (review_receipt sha256 s.board reviewer r true now), s)))
      ⊎ ((r.review_version ≡ latest_version s.reviews + 1)
          × (out.0 ≡ ok (review_receipt sha256 s.board reviewer r false now))
          × (out.1.board ≡ s.board)
          × (out.1.reviews ≡ put ℕ_discrete r.review_version r s.reviews)
          × IsCounted (charge && nonempty r.repair_tasks) s.ledger out.1.ledger)

  commit-Submitted :
      (s : ReviewBoard) (reviewer : String) (r : ReviewSubmission) (charge : Bool) (now : ℕ)
      (c : Checked × Option BudgetLedger)
      → IsCharge (charge && nonempty r.repair_tasks) s.ledger c
      → r.review_version ≡ latest_version s.reviews + 1
      → Submitted s reviewer r charge now (commit_review sha256 s reviewer r now c)
  commit-Submitted s reviewer r charge now (err e, l) (inr (raised, p, left)) n =
      inl (e, refl, refl, refl, left)
  commit-Submitted s reviewer r charge now (err e, l) (inl (p, left)) n = absurd (cc p)
  commit-Submitted s reviewer r charge now (ok u, l) (inl (p, left)) n =
      inr (inr (n, refl, refl, refl, left))
  commit-Submitted s reviewer r charge now (ok u, l) (inr (raised, p, left)) n = absurd (cc p)

  store-Submitted :
      (s : ReviewBoard) (reviewer : String) (r : ReviewSubmission) (charge : Bool) (now at : ℕ)
      (held : Option ReviewSubmission)
      → lookup ℕ_discrete r.review_version s.reviews ≡ held
      → Submitted s reviewer r charge now (store_review sha256 s reviewer r charge now at held)
  unfolding store_review
  store-Submitted s reviewer r charge now at none e =
      elim (Bool-cases (eqb r.review_version (latest_version s.reviews + 1))) [
        | inl n ↦ rw n (
            commit-Submitted s reviewer r charge now
              (charge_round (is_charged charge r) at s.ledger)
              (charge_round-IsCharge (is_charged charge r) at s.ledger) (ground arith))
        | inr n ↦ rw n (inl (_, refl, refl, refl, same-IsRefused _ s.ledger))
      ]
  store-Submitted s reviewer r charge now at (some x) e =
      elim (Bool-cases (is_yes (Review-discrete x r))) [
        | inl p ↦ rw p (inr (inl (e ∙ ap some ((same_iff Review-discrete x r).0 p), refl)))
        | inr p ↦ rw p (inl (_, refl, refl, refl, same-IsRefused _ s.ledger))
      ]

  refused-Submitted :
      (s : ReviewBoard) (reviewer : String) (r : ReviewSubmission) (charge : Bool) (now : ℕ)
      (c : Checked) (o : Outcome)
      → Submitted s reviewer r charge now o
      → Submitted s reviewer r charge now (refuse_or sha256 s c o)
  refused-Submitted s reviewer r charge now (ok u) o h = h
  refused-Submitted s reviewer r charge now (err e) o h =
      inl (e, refl, refl, refl, same-IsRefused _ s.ledger)

  -- Every call of `submit_review` ends in one of three ways. It raises: the board and the
  -- reviews are as they were, and no repair round is counted; only when the review was to be charged may the ledger
  -- differ, in the reason of its exhaustion alone. It answers a replay of the very same review, and
  -- changes nothing, the ledger included. Or it stores the review under the version after the latest:
  -- then, if there is a ledger and the review is to be charged and has repair tasks, a repair round
  -- was left, and the ledger differs in counting one more; and otherwise the ledger is as it was.
  pub submit_review-Submitted :
      (s : ReviewBoard) (reviewer : String) (r : ReviewSubmission) (charge : Bool) (now at : ℕ)
      → Submitted s reviewer r charge now (submit_review sha256 s reviewer r charge now at)
  unfolding submit_review
  submit_review-Submitted s reviewer r charge now at =
      refused-Submitted s reviewer r charge now
        (model_validate_review r >>= validate_review s.board reviewer) _
        (store-Submitted s reviewer r charge now at _ refl)

  Submitted-history :
      (s : ReviewBoard) (reviewer : String) (r : ReviewSubmission) (charge : Bool) (now : ℕ)
      (out : Outcome)
      → IsHistoryFrom 1 s.reviews
      → Submitted s reviewer r charge now out
      → IsHistoryFrom 1 out.1.reviews
  Submitted-history s reviewer r charge now out h (inl (e, p, b, q, l)) =
      subst (IsHistoryFrom 1) (sym q) h
  Submitted-history s reviewer r charge now out h (inr (inl (e, q))) =
      subst (λ (o : Outcome). IsHistoryFrom 1 o.1.reviews) (sym q) h
  Submitted-history s reviewer r charge now out h (inr (inr (n, c, b, q, l))) =
      subst (IsHistoryFrom 1) (sym q)
        (put-history 1 r s.reviews h (omega (arith, n, latest_version-length s.reviews h)))

  -- The reviews of a Run are numbered from 1 without a gap, each stored under its own version, and
  -- every call of `submit_review` keeps it so, whether it raises or not.
  pub submit_review-IsHistoryFrom :
      (s : ReviewBoard) (reviewer : String) (r : ReviewSubmission) (charge : Bool) (now at : ℕ)
      → IsHistoryFrom 1 s.reviews
      → IsHistoryFrom 1 (submit_review sha256 s reviewer r charge now at).1.reviews
  submit_review-IsHistoryFrom s reviewer r charge now at h =
      Submitted-history s reviewer r charge now _ h
        (submit_review-Submitted s reviewer r charge now at)
