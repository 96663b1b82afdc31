-- ===== src/Blackboard/Sequence.antt =====
-- The results of a batch one after another, by `submit_check_result`: what the commit of a batch
-- refines.
use jindiao.Prelude.{
  not-false, ℕ, ◌≡◌, ◌≢◌, ◌⊎◌, inl, inr, refl, sym, ap, ◌∙◌, subst, List, [], ◌∷◌, map, String,
  String_discrete, Bool, true, false, not, Option, none, some, eqb, Dict, lookup, put, update, All,
  unique, contains, ◌==◌, lookup-put_ne, put-some, update-put, same_iff, arith, ==_iff, &&-true,
  ||-false,
}
use jindiao.Errors.{Result, ok, ◌>>=◌, >>=-eq-ok, >>-eq-ok, raise_if, raise_if-eq-ok, ok-injective}
use jindiao.Contracts.Check.{CheckResult, CheckResult-discrete}
use jindiao.Blackboard.State.{Board, SubmissionKey, Key-discrete, CheckSubmissionReceipt}
use jindiao.Blackboard.Submit.{
  key_of, next_version, latest_result, check_receipt, commit, submit_check_result,
}
use jindiao.Blackboard.Batch.{
  Pending, plan, plan_result, update_latest, is_replay, batch_receipts, commit_batch,
}
use jindiao.Blackboard.Invariant.{submission}
use jindiao.Blackboard.Accepted.{IsAdmissible}
use jindiao.Blackboard.Versions.{replayed}
use jindiao.Blackboard.Bound.{stored_next}

abbrev pub result_ids : List CheckResult → List String
result_ids rs = map (λ (r : CheckResult). r.check_id) rs

-- the calls of `submit_check_result`, in order, up to the first that raises
unfoldable pub submit_all :
    (CheckResult → String)
    → Board
    → String
    → List CheckResult
    → ℕ
    → Result (List CheckSubmissionReceipt × Board)
submit_all sha256 b agent [] now = ok ([], b)
submit_all sha256 b agent (r ∷ rs) now = submit_check_result sha256 b agent r now >>= λ out.
    submit_all sha256 out.1 agent rs now >>= λ rest. ok (out.0 ∷ rest.0, rest.1)

-- A result of `_bind_check_result`: it passes the checks, and what is stored already is the latest.
pub record IsReady (b : Board) (agent : String) (r : CheckResult) : Type 0 where
  pub admissible : IsAdmissible b agent r
  pub current : submission b (key_of agent r) ≡ some r → latest_result b r.check_id ≡ some r

module _ (sha256 : CheckResult → String) (b : Board) (agent : String) (now : ℕ) where
  -- the board after the results that made `pending` and `latest`
  abbrev moved : Pending → Dict String CheckResult → Board
  moved pending latest = record b {
    submissions = update Key-discrete b.submissions pending;
    latest_by_check = latest;
  }

  -- Nothing so far was about the result's check.
  record IsUntouched (pending : Pending) (latest : Dict String CheckResult) (r : CheckResult)
      : Type 0 where
    untouched_key :
        submission (moved pending latest) (key_of agent r) ≡ submission b (key_of agent r)
    untouched_check : lookup String_discrete r.check_id latest ≡ latest_result b r.check_id
    not_pending : lookup Key-discrete (key_of agent r) pending ≡ none

  moved-IsAdmissible :
      (p : Pending) (l : Dict String CheckResult) (r : CheckResult)
      → IsAdmissible b agent r
      → IsAdmissible (moved p l) agent r
  moved-IsAdmissible p l r a = record {
    is_model = a.is_model;
    in_scope = a.in_scope;
    granted = a.granted;
    supported = a.supported;
  }

  abbrev version_follows : CheckResult → Bool
  version_follows r = eqb r.submission_version (next_version (latest_result b r.check_id))

  -- what `submit_check_result` does where `plan` goes from one `pending` to the next
  abbrev IsStep : CheckResult → Pending → Pending → Dict String CheckResult → Type 0
  IsStep r p q l =
      (submit_check_result sha256 (moved p l) agent r now
        ≡ ok (
          check_receipt sha256 b agent r (is_replay (submission b (key_of agent r))) now,
          moved q (put String_discrete r.check_id r l),
        ))
      × ((q ≡ p) ⊎ (q ≡ put Key-discrete (key_of agent r) r p))

  plan_result-IsStep :
      (r : CheckResult) (p q : Pending) (l : Dict String CheckResult) (held : Option CheckResult)
      → IsReady b agent r
      → IsUntouched p l r
      → submission b (key_of agent r) ≡ held
      → plan_result b agent r held p ≡ ok q
      → IsStep r p q l
  unfolding plan_result
  plan_result-IsStep r p q l none ready u e h =
      let (version, done) = >>-eq-ok (raise_if (not (version_follows r)) _) _ h in
      let next : r.submission_version ≡ next_version (latest_result b r.check_id) =
        follows (raise_if-eq-ok (not (version_follows r)) _ version) in
      let same = sym (ok-injective done) in
      (
        subst
            (λ (x : Board).
              submit_check_result sha256 (moved p l) agent r now
              ≡ ok (
                check_receipt sha256 b agent r (is_replay (submission b (key_of agent r))) now,
                x,
              ))
            (stepped same)
            (subst
              (λ (o : Option CheckResult).
                submit_check_result sha256 (moved p l) agent r now
                ≡ ok (check_receipt sha256 b agent r (is_replay o) now, commit (moved p l) agent r))
              (sym e)
              (stored_next sha256 (moved p l) agent now r
                (moved-IsAdmissible p l r ready.admissible)
                (next ∙ ap next_version (sym u.untouched_check)) (u.untouched_key ∙ e))),
        inr same,
      )
    where
      follows :
          not (version_follows r) ≡ false
          → r.submission_version ≡ next_version (latest_result b r.check_id)
      follows f = ground arith

      stepped :
          q ≡ put Key-discrete (key_of agent r) r p
          → commit (moved p l) agent r ≡ moved q (put String_discrete r.check_id r l)
      stepped same =
          ap
            (λ (s : Pending). record b {
              submissions = s;
              latest_by_check = put String_discrete r.check_id r l;
            })
            (sym (update-put Key-discrete (key_of agent r) r b.submissions p u.not_pending)
              ∙ ap (update Key-discrete b.submissions) (sym same))
  plan_result-IsStep r p q l (some x) ready u e h =
      let (equal, done) = >>-eq-ok _ _ h in
      let same = (same_iff CheckResult-discrete x r).0 (not-false _ (raise_if-eq-ok _ _ equal)) in
      let e' = subst (λ (y : CheckResult). submission b (key_of agent r) ≡ some y) same e in
      let kept = sym (ok-injective done) in
      (
        subst
            (λ (y : Board).
              submit_check_result sha256 (moved p l) agent r now
              ≡ ok (
                check_receipt sha256 b agent r (is_replay (submission b (key_of agent r))) now,
                y,
              ))
            (stepped kept (ready.current e'))
            (subst
              (λ (o : Option CheckResult).
                submit_check_result sha256 (moved p l) agent r now
                ≡ ok (check_receipt sha256 b agent r (is_replay o) now, moved p l))
              (sym e)
              (replayed sha256 (moved p l) agent r now (moved-IsAdmissible p l r ready.admissible)
                (u.untouched_key ∙ e'))),
        inl kept,
      )
    where
      stepped :
          q ≡ p
          → latest_result b r.check_id ≡ some r
          → moved p l ≡ moved q (put String_discrete r.check_id r l)
      stepped kept current =
          ap (λ (m : Dict String CheckResult). moved p m)
            (sym (put-some String_discrete r.check_id r l (u.untouched_check ∙ current)))
          ∙ ap (λ (s : Pending). moved s (put String_discrete r.check_id r l)) (sym kept)

  IsUntouched-IsStep :
      (r x : CheckResult) (p q : Pending) (l : Dict String CheckResult)
      → r.check_id ≢ x.check_id
      → (q ≡ p) ⊎ (q ≡ put Key-discrete (key_of agent r) r p)
      → IsUntouched p l r
      → IsUntouched p l x
      → IsUntouched q (put String_discrete r.check_id r l) x
  IsUntouched-IsStep r x p q l ne (inl same) o u =
      subst (λ (s : Pending). IsUntouched s (put String_discrete r.check_id r l) x) (sym same)
        (record {
          untouched_key = u.untouched_key;
          untouched_check =
              lookup-put_ne String_discrete r.check_id x.check_id r l ne ∙ u.untouched_check;
          not_pending = u.not_pending;
        })
  IsUntouched-IsStep r x p q l ne (inr same) o u =
      subst (λ (s : Pending). IsUntouched s (put String_discrete r.check_id r l) x) (sym same)
        (record {
          untouched_key =
              ap (lookup Key-discrete (key_of agent x))
                (update-put Key-discrete (key_of agent r) r b.submissions p o.not_pending)
              ∙ lookup-put_ne Key-discrete (key_of agent r) (key_of agent x) r
                  (update Key-discrete b.submissions p) other
              ∙ u.untouched_key;
          untouched_check =
              lookup-put_ne String_discrete r.check_id x.check_id r l ne ∙ u.untouched_check;
          not_pending =
              lookup-put_ne Key-discrete (key_of agent r) (key_of agent x) r p other
              ∙ u.not_pending;
        })
    where
      other : key_of agent r ≢ key_of agent x
      other e = ne (ap (λ (k : SubmissionKey). k.check_id) e)

  All-IsUntouched-IsStep :
      (r : CheckResult) (rs : List CheckResult) (p q : Pending) (l : Dict String CheckResult)
      → contains (result_ids rs) r.check_id ≡ false
      → (q ≡ p) ⊎ (q ≡ put Key-discrete (key_of agent r) r p)
      → IsUntouched p l r
      → All (IsUntouched p l) rs
      → All (IsUntouched q (put String_discrete r.check_id r l)) rs
  unfolding contains
  All-IsUntouched-IsStep r [] p q l n same o h = tt
  All-IsUntouched-IsStep r (x ∷ rs) p q l n same o h =
      let (other, rest) = ||-false _ _ n in
      (
        IsUntouched-IsStep r x p q l (differs other) same o h.0,
        All-IsUntouched-IsStep r rs p q l rest same o h.1,
      )
    where
      differs : (x.check_id == r.check_id) ≡ false → r.check_id ≢ x.check_id
      differs f e = ground (arith, ==_iff x.check_id r.check_id)

  plan-submit_all :
      (rs : List CheckResult) (p q : Pending) (l : Dict String CheckResult)
      → unique (result_ids rs) ≡ true
      → All (IsReady b agent) rs
      → All (IsUntouched p l) rs
      → plan b agent rs p ≡ ok q
      → submit_all sha256 (moved p l) agent rs now
        ≡ ok (batch_receipts sha256 b agent now rs, moved q (update_latest l rs))
  unfolding submit_all plan update_latest unique
  plan-submit_all [] p q l n ready u h = ap (λ (s : Pending). ok ([], moved s l)) (ok-injective h)
  plan-submit_all (r ∷ rs) p q l n ready u h =
      let (m, planned, h1) =
        >>=-eq-ok (plan_result b agent r (submission b (key_of agent r)) p) _ h in
      let (step, same) = plan_result-IsStep r p m l _ (ready.0) (u.0) refl planned in
      let (other, rest) = &&-true _ _ n in
      let later =
        plan-submit_all rs m q (put String_discrete r.check_id r l) rest (ready.1)
          (All-IsUntouched-IsStep r rs p m l (absent other) same (u.0) (u.1)) h1 in
      rw (step, later)
    where
      absent :
          not (contains (result_ids rs) r.check_id) ≡ true
          → contains (result_ids rs) r.check_id ≡ false
      absent f = ground arith

  IsUntouched-start : (rs : List CheckResult) → All (IsUntouched [] b.latest_by_check) rs
  unfolding lookup update
  IsUntouched-start [] = tt
  IsUntouched-start (r ∷ rs) = (
    record { untouched_key = refl; untouched_check = refl; not_pending = refl },
    IsUntouched-start rs,
  )

  -- The commit of a planned batch is what `submit_check_result` does with its results in order.
  pub commit_batch-submit_all :
      (rs : List CheckResult) (q : Pending)
      → unique (result_ids rs) ≡ true
      → All (IsReady b agent) rs
      → plan b agent rs [] ≡ ok q
      → submit_all sha256 b agent rs now
        ≡ ok (batch_receipts sha256 b agent now rs, commit_batch b rs q)
  unfolding update
  commit_batch-submit_all rs q n ready h =
      plan-submit_all rs [] q b.latest_by_check n ready (IsUntouched-start rs) h
