-- ===== src/Blackboard/Versions.antt =====
-- What callers of `submit_check_result` may rely on: the invariant, immutable history, the next version.
use jindiao.Prelude.{
  ℕ, ◌≡◌, ◌≢◌, refl, sym, ap, ◌∙◌, subst, String, String_discrete, true, false, false≢true, some,
  lookup-put_self, lookup-put_ne, same_iff, inl, inr, ==_refl,
}
use jindiao.Errors.{ok}
use jindiao.Contracts.Check.{CheckResult, CheckResult-discrete}
use jindiao.Blackboard.State.{Board, SubmissionKey, Key-discrete, CheckSubmissionReceipt}
use jindiao.Blackboard.Submit.{
  key_of, next_version, latest_result, check_receipt, store, submit_check_result,
  validate_result_scope,
}
use jindiao.Blackboard.Invariant.{IsValid, submission, commit-IsValid}
use jindiao.Blackboard.Accepted.{IsAdmissible, submitted, Stored, store-Stored}

module _ (sha256 : CheckResult → String) where
  abbrev Outcome : Type 0
  Outcome = CheckSubmissionReceipt × Board

  Stored-IsValid :
      (b : Board) (agent : String) (r : CheckResult) (now : ℕ) (out : Outcome)
      → IsValid b
      → IsAdmissible b agent r
      → Stored sha256 b agent r now out
      → IsValid out.1
  Stored-IsValid b agent r now out v a (inl (e, done)) =
      subst (λ (o : Outcome). IsValid o.1) (sym done) v
  Stored-IsValid b agent r now out v a (inr (e, next, done)) =
      subst (λ (o : Outcome). IsValid o.1) (sym done)
        (commit-IsValid b agent r v next (a.is_model, a.in_scope, a.supported) a.granted)

  -- An accepted submission keeps the invariant: the latest result of every check is its owner's, in
  -- scope and past the gate, and its versions run from 1 without a hole.
  pub submit_check_result-IsValid :
      (b : Board) (agent : String) (r : CheckResult) (now : ℕ) (out : Outcome)
      → IsValid b
      → submit_check_result sha256 b agent r now ≡ ok out
      → IsValid out.1
  submit_check_result-IsValid b agent r now out v h =
      let (a, s) = submitted sha256 b agent r now out h in
      Stored-IsValid b agent r now out v a
        (store-Stored sha256 b agent r now out (submission b (key_of agent r)) refl s)

  Stored-keeps :
      (b : Board) (agent : String) (r : CheckResult) (now : ℕ) (out : Outcome) (key : SubmissionKey)
      (x : CheckResult)
      → Stored sha256 b agent r now out
      → submission b key ≡ some x
      → submission out.1 key ≡ some x
  Stored-keeps b agent r now out key x (inl (e, done)) h =
      subst (λ (o : Outcome). submission o.1 key ≡ some x) (sym done) h
  Stored-keeps b agent r now out key x (inr (e, next, done)) h =
      subst (λ (o : Outcome). submission o.1 key ≡ some x) (sym done)
        (lookup-put_ne Key-discrete (key_of agent r) key r b.submissions other ∙ h)
    where
      other : key_of agent r ≢ key
      other p = cc (sym e ∙ subst (λ k. submission b k ≡ some x) (sym p) h)

  -- An accepted submission never changes or drops one that was stored before.
  pub submission-submit_check_result :
      (b : Board) (agent : String) (r : CheckResult) (now : ℕ) (out : Outcome) (key : SubmissionKey)
      (x : CheckResult)
      → submit_check_result sha256 b agent r now ≡ ok out
      → submission b key ≡ some x
      → submission out.1 key ≡ some x
  submission-submit_check_result b agent r now out key x h e =
      let (a, s) = submitted sha256 b agent r now out h in
      Stored-keeps b agent r now out key x
        (store-Stored sha256 b agent r now out (submission b (key_of agent r)) refl s) e

  Stored-held :
      (b : Board) (agent : String) (r : CheckResult) (now : ℕ) (out : Outcome)
      → Stored sha256 b agent r now out
      → submission out.1 (key_of agent r) ≡ some r
  Stored-held b agent r now out (inl (e, done)) =
      subst (λ (o : Outcome). submission o.1 (key_of agent r) ≡ some r) (sym done) e
  Stored-held b agent r now out (inr (e, next, done)) =
      subst (λ (o : Outcome). submission o.1 (key_of agent r) ≡ some r) (sym done)
        (lookup-put_self Key-discrete (key_of agent r) r b.submissions)

  -- the snapshot, the catalog and the grants are never written
  Stored-IsAdmissible :
      (b : Board) (agent other : String) (r x : CheckResult) (now : ℕ) (out : Outcome)
      → IsAdmissible b agent r
      → Stored sha256 b other x now out
      → IsAdmissible out.1 agent r
  Stored-IsAdmissible b agent other r x now out a (inl (e, done)) =
      subst (λ (o : Outcome). IsAdmissible o.1 agent r) (sym done) a
  Stored-IsAdmissible b agent other r x now out a (inr (e, next, done)) =
      subst (λ (o : Outcome). IsAdmissible o.1 agent r) (sym done)
        (record {
          is_model = a.is_model;
          in_scope = a.in_scope;
          granted = a.granted;
          supported = a.supported;
        })

  -- what is admissible stays so, whatever is accepted
  pub submit_check_result-IsAdmissible :
      (b : Board) (agent other : String) (r x : CheckResult) (now : ℕ) (out : Outcome)
      → IsAdmissible b agent r
      → submit_check_result sha256 b other x now ≡ ok out
      → IsAdmissible out.1 agent r
  submit_check_result-IsAdmissible b agent other r x now out a h =
      let (_, s) = submitted sha256 b other x now out h in
      Stored-IsAdmissible b agent other r x now out a
        (store-Stored sha256 b other x now out (submission b (key_of other x)) refl s)

  -- an accepted result is stored under its key
  pub submit_check_result-held :
      (b : Board) (agent : String) (r : CheckResult) (now : ℕ) (out : Outcome)
      → submit_check_result sha256 b agent r now ≡ ok out
      → submission out.1 (key_of agent r) ≡ some r
  submit_check_result-held b agent r now out h =
      let (_, s) = submitted sha256 b agent r now out h in
      Stored-held b agent r now out
        (store-Stored sha256 b agent r now out (submission b (key_of agent r)) refl s)

  -- An admissible result that is stored already is answered as a replay, and changes nothing.
  pub replayed :
      (b : Board) (agent : String) (r : CheckResult) (now : ℕ)
      → IsAdmissible b agent r
      → submission b (key_of agent r) ≡ some r
      → submit_check_result sha256 b agent r now ≡ ok (check_receipt sha256 b agent r true now, b)
  unfolding submit_check_result store validate_result_scope
  replayed b agent r now a e = rw (
    a.is_model,
    a.in_scope,
    a.granted,
    ==_refl agent,
    ==_refl r.task_id,
    a.supported,
    e,
    (same_iff CheckResult-discrete r r).1 refl,
  )

  Stored-advances :
      (b : Board) (agent : String) (r : CheckResult) (now : ℕ) (out : Outcome)
      → out.0.idempotent_replay ≡ false
      → Stored sha256 b agent r now out
      → (r.submission_version ≡ next_version (latest_result b r.check_id))
        × (latest_result out.1 r.check_id ≡ some r)
  Stored-advances b agent r now out fresh (inl (e, done)) =
      absurd (false≢true (sym fresh ∙ ap (λ (o : Outcome). o.0.idempotent_replay) done))
  Stored-advances b agent r now out fresh (inr (e, next, done)) = (
    next,
    subst (λ (o : Outcome). latest_result o.1 r.check_id ≡ some r) (sym done)
        (lookup-put_self String_discrete r.check_id r b.latest_by_check),
  )

  -- An accepted submission that is no replay has the version after the check's latest, and becomes
  -- the latest.
  pub submit_check_result-advances :
      (b : Board) (agent : String) (r : CheckResult) (now : ℕ) (out : Outcome)
      → submit_check_result sha256 b agent r now ≡ ok out
      → out.0.idempotent_replay ≡ false
      → (r.submission_version ≡ next_version (latest_result b r.check_id))
        × (latest_result out.1 r.check_id ≡ some r)
  submit_check_result-advances b agent r now out h fresh =
      let (a, s) = submitted sha256 b agent r now out h in
      Stored-advances b agent r now out fresh
        (store-Stored sha256 b agent r now out (submission b (key_of agent r)) refl s)
