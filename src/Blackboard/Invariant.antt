-- ===== src/Blackboard/Invariant.antt =====
-- The invariant of the board, and that a commit at the next version keeps it.
use jindiao.Prelude.{
  ℕ, ◌+◌, ◌≤◌, ◌≡◌, ◌≢◌, sym, ap, ◌∙◌, String, String_discrete, Option, some, lookup,
  lookup-put_self, lookup-put_ne, lookup-put_cases, lookup-put-some, subst, ℕ_discrete, le_refl,
  arith, inl, inr, Option-cases,
}
use jindiao.Errors.{ok}
use jindiao.Contracts.Check.{CheckResult, model_validate}
use jindiao.Validation.{validate_check_result_scope, validate_check_result_evidence_gate}
use jindiao.Blackboard.State.{Board, Owner, SubmissionKey, Key-discrete}
use jindiao.Blackboard.Submit.{key_of, next_version, latest_result, commit}

abbrev pub submission : Board → SubmissionKey → Option CheckResult
submission b key = lookup Key-discrete key b.submissions

abbrev pub version_key : String → String → String → ℕ → SubmissionKey
version_key agent task id n = record {
  agent_id = agent;
  task_id = task;
  check_id = id;
  submission_version = n;
}

-- A result that is a valid model, in scope, and past the gate.
abbrev pub IsGated : Board → CheckResult → Type 0
IsGated b r =
    (model_validate r ≡ ok r)
    × (validate_check_result_scope b.snapshot b.catalog r ≡ ok tt)
    × (validate_check_result_evidence_gate b.snapshot b.catalog r ≡ ok tt)

-- Every version from 1 to the latest is stored under the owner of the check.
abbrev pub HasHistory : Board → String → String → String → CheckResult → Type 0
HasHistory b agent task id r =
    (m : ℕ)
    → 1 ≤ m
    → m ≤ r.submission_version
    → (x : CheckResult) × (submission b (version_key agent task id m) ≡ some x)

pub record IsValid (b : Board) : Type 0 where
  -- the latest result under a check is that check's, and has passed both validators
  pub gated :
      (id : String) (r : CheckResult)
      → latest_result b id ≡ some r
      → (r.check_id ≡ id) × IsGated b r
  -- it is its owner's, and no version before it is missing
  pub history :
      (id agent task : String) (r : CheckResult)
      → lookup String_discrete id b.grant_by_check ≡ some (agent, task)
      → latest_result b id ≡ some r
      → (r.task_id ≡ task) × HasHistory b agent task id r
  -- it is stored under its own key
  pub held :
      (id agent task : String) (r : CheckResult)
      → lookup String_discrete id b.grant_by_check ≡ some (agent, task)
      → latest_result b id ≡ some r
      → submission b (key_of agent r) ≡ some r
  -- no stored version is ahead of the latest
  pub bounded :
      (key : SubmissionKey) (x : CheckResult)
      → submission b key ≡ some x
      → (l : CheckResult) × (latest_result b key.check_id ≡ some l)
        × (key.submission_version ≤ l.submission_version)

module _ (b : Board) (agent : String) (r : CheckResult) where
  abbrev pub IsNext : Type 0
  IsNext = r.submission_version ≡ next_version (latest_result b r.check_id)

  commit-IsGated :
      IsValid b
      → IsGated b r
      → (id : String) (x : CheckResult) → latest_result (commit b agent r) id ≡ some x
      → (x.check_id ≡ id) × IsGated b x
  commit-IsGated v g id x e =
      elim (lookup-put_cases String_discrete r.check_id id r x b.latest_by_check e) [
        | inl (p, q) ↦ subst (λ (y : CheckResult). (y.check_id ≡ id) × IsGated b y) q (p, g)
        | inr (p, q) ↦ v.gated id x q
      ]

  -- the latest version of a check, if it has one, is the one before the new version
  previous-version :
      (l : CheckResult)
      → IsNext
      → latest_result b r.check_id ≡ some l
      → r.submission_version ≡ l.submission_version + 1
  previous-version l n e = n ∙ ap next_version e

  commit-bounded :
      IsValid b
      → IsNext
      → (key : SubmissionKey) (x : CheckResult) → submission (commit b agent r) key ≡ some x
      → (l : CheckResult) × (latest_result (commit b agent r) key.check_id ≡ some l)
        × (key.submission_version ≤ l.submission_version)
  commit-bounded v n key x e =
      elim (lookup-put_cases Key-discrete (key_of agent r) key r x b.submissions e) [
        | inl (p, q) ↦ (
          r,
          subst (λ (k : SubmissionKey). latest_result (commit b agent r) k.check_id ≡ some r) p
              (lookup-put_self String_discrete r.check_id r b.latest_by_check),
          subst (λ (k : SubmissionKey). k.submission_version ≤ r.submission_version) p (le_refl _),
        )
        | inr (p, q) ↦ kept (v.bounded key x q)
      ]
    where
      kept :
          (l : CheckResult) × (latest_result b key.check_id ≡ some l)
            × (key.submission_version ≤ l.submission_version)
          → (l : CheckResult) × (latest_result (commit b agent r) key.check_id ≡ some l)
            × (key.submission_version ≤ l.submission_version)
      kept (l, e', m) = elim (String_discrete r.check_id key.check_id) [
        | yes p ↦ (
          r,
          subst (λ t. latest_result (commit b agent r) t ≡ some r) p
              (lookup-put_self String_discrete r.check_id r b.latest_by_check),
          omega
              (arith, m, previous-version l n (subst (λ t. latest_result b t ≡ some l) (sym p) e')),
        )
        | no p ↦
            (l, lookup-put_ne String_discrete r.check_id key.check_id r b.latest_by_check p ∙ e', m)
      ]

  new-history :
      IsValid b
      → IsNext
      → lookup String_discrete r.check_id b.grant_by_check ≡ some (agent, r.task_id)
      → HasHistory (commit b agent r) agent r.task_id r.check_id r
  new-history v n g m low high = elim (ℕ_discrete m r.submission_version) [
    | yes p ↦ (
      r,
      subst (λ k. submission (commit b agent r) (version_key agent r.task_id r.check_id k) ≡ some r)
          (sym p) (lookup-put_self Key-discrete (key_of agent r) r b.submissions),
    )
    | no p ↦ elim (Option-cases (latest_result b r.check_id)) [
      | inl none_yet ↦ absurd (first (n ∙ ap next_version none_yet) p)
      | inr (l, e) ↦
          let (x, found) =
            (v.history r.check_id agent r.task_id l g e).1 m low
              (earlier (previous-version l n e) p) in
          lookup-put-some Key-discrete (key_of agent r) _ r x b.submissions found
    ]
  ]
    where
      first : r.submission_version ≡ 1 → m ≢ r.submission_version → ⊥
      first e p = omega arith

      earlier : {k : ℕ} → r.submission_version ≡ k + 1 → m ≢ r.submission_version → m ≤ k
      earlier e p = omega arith

  commit-history :
      IsValid b
      → IsNext
      → lookup String_discrete r.check_id b.grant_by_check ≡ some (agent, r.task_id)
      → (id owner task : String) (x : CheckResult)
      → lookup String_discrete id b.grant_by_check ≡ some (owner, task)
      → latest_result (commit b agent r) id ≡ some x
      → (x.task_id ≡ task) × HasHistory (commit b agent r) owner task id x
  commit-history v n g id owner task x o e =
      elim (lookup-put_cases String_discrete r.check_id id r x b.latest_by_check e) [
        | inl (p, q) ↦
            let same : ◌≡◌ {A = Option Owner} (some (agent, r.task_id)) (some (owner, task)) =
              sym g
              ∙ subst (λ t. lookup String_discrete t b.grant_by_check ≡ some (owner, task)) (sym p)
                  o in
            let h = new-history v n g in
            let same_agent : agent ≡ owner = cc same in
            let same_task : r.task_id ≡ task = cc same in
            subst
              (λ (y : CheckResult).
                (y.task_id ≡ task) × HasHistory (commit b agent r) owner task id y)
              q
              (
                same_task,
                subst (λ a. HasHistory (commit b agent r) a task id r) same_agent
                    (subst (λ t. HasHistory (commit b agent r) agent t id r) same_task
                      (subst (λ t. HasHistory (commit b agent r) agent r.task_id t r) p h)),
              )
        | inr (p, q) ↦
            let (t, h) = v.history id owner task x o q in
            (
              t,
              λ m low high.
                  let (y, found) = h m low high in
                  lookup-put-some Key-discrete (key_of agent r) _ r y b.submissions found,
            )
      ]

  commit-held :
      IsValid b
      → lookup String_discrete r.check_id b.grant_by_check ≡ some (agent, r.task_id)
      → (id owner task : String) (x : CheckResult)
      → lookup String_discrete id b.grant_by_check ≡ some (owner, task)
      → latest_result (commit b agent r) id ≡ some x
      → submission (commit b agent r) (key_of owner x) ≡ some x
  commit-held v g id owner task x o e =
      elim (lookup-put_cases String_discrete r.check_id id r x b.latest_by_check e) [
        | inl (p, q) ↦
            let same : ◌≡◌ {A = Option Owner} (some (agent, r.task_id)) (some (owner, task)) =
              sym g
              ∙ subst (λ t. lookup String_discrete t b.grant_by_check ≡ some (owner, task)) (sym p)
                  o in
            let same_agent : agent ≡ owner = cc same in
            subst (λ (y : CheckResult). submission (commit b agent r) (key_of owner y) ≡ some y) q
              (subst (λ a. submission (commit b agent r) (key_of a r) ≡ some r) same_agent
                (lookup-put_self Key-discrete (key_of agent r) r b.submissions))
        | inr (p, q) ↦
            lookup-put_ne Key-discrete (key_of agent r) (key_of owner x) r b.submissions
              (λ k. p (ap (λ (t : SubmissionKey). t.check_id) k ∙ (v.gated id x q).0))
            ∙ v.held id owner task x o q
      ]

  -- A commit at the next version of a granted check, of a result that has passed both validators.
  pub commit-IsValid :
      IsValid b
      → IsNext
      → IsGated b r
      → lookup String_discrete r.check_id b.grant_by_check ≡ some (agent, r.task_id)
      → IsValid (commit b agent r)
  commit-IsValid v n g o = record {
    gated = commit-IsGated v g;
    history = commit-history v n o;
    held = commit-held v o;
    bounded = commit-bounded v n;
  }
