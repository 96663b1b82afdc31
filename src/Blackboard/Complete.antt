-- ===== src/Blackboard/Complete.antt =====
-- `submit_investigation_results`: the board after an accepted batch.
use jindiao.Prelude.{
  ℕ, ◌≡◌, ◌⊎◌, inl, inr, sym, ◌∙◌, subst, List, [], ◌∷◌, map, String, String_discrete, Bool, true,
  false, not, ◌||◌, ◌==◌, some, Dict, contains, subset, subset-contains, unique, arith, ==→eq,
  lookup-put_self, lookup-put-some, Bool-cases, refl, false≢true,
}
use jindiao.Errors.{ok, >>=-eq-ok, >>-eq-ok, raise_if, raise_if-eq-ok, ok-injective}
use jindiao.Contracts.Check.{CheckResult}
use jindiao.Blackboard.State.{Board, CheckSubmissionReceipt}
use jindiao.Blackboard.Submit.{commit, key_of, latest_result, submit_check_result}
use jindiao.Blackboard.Bind.{BoundCheckResultDraft, resolve_aliases}
use jindiao.Blackboard.Batch.{draft_ids, expected_checks, identities_of, submit_batch}
use jindiao.Blackboard.Invariant.{IsValid, submission}
use jindiao.Blackboard.Accepted.{submitted, Stored, store-Stored}
use jindiao.Blackboard.Versions.{submit_check_result-IsValid}
use jindiao.Blackboard.Sequence.{result_ids, submit_all}
use jindiao.Blackboard.Collected.{submit_batch-submit_all, draft_ids-resolve_aliases}

abbrev pub IsAnswered : Board → String → Type 0
IsAnswered b id = (l : CheckResult) × (latest_result b id ≡ some l)

module _ (sha256 : CheckResult → String) (agent : String) (now : ℕ) where
  -- an accepted submission answers its check, and leaves no other without an answer
  Stored-IsAnswered :
      (b : Board) (r : CheckResult) (out : CheckSubmissionReceipt × Board) (id : String)
      → IsValid b
      → Stored sha256 b agent r now out
      → (r.check_id ≡ id) ⊎ IsAnswered b id
      → IsAnswered out.1 id
  Stored-IsAnswered b r out id v (inl (e, done)) (inl p) =
      subst (λ (o : CheckSubmissionReceipt × Board). IsAnswered o.1 id) (sym done)
        (subst (IsAnswered b) p
          (let (l, latest, m) = v.bounded (key_of agent r) r e in (l, latest)))
  Stored-IsAnswered b r out id v (inl (e, done)) (inr a) =
      subst (λ (o : CheckSubmissionReceipt × Board). IsAnswered o.1 id) (sym done) a
  Stored-IsAnswered b r out id v (inr (e, next, done)) (inl p) =
      subst (λ (o : CheckSubmissionReceipt × Board). IsAnswered o.1 id) (sym done)
        (
          r,
          subst (λ i. latest_result (commit b agent r) i ≡ some r) p
              (lookup-put_self String_discrete r.check_id r b.latest_by_check),
        )
  Stored-IsAnswered b r out id v (inr (e, next, done)) (inr (l, a)) =
      subst (λ (o : CheckSubmissionReceipt × Board). IsAnswered o.1 id) (sym done)
        (lookup-put-some String_discrete r.check_id id r l b.latest_by_check a)

  submit_all-IsAnswered :
      (b : Board) (rs : List CheckResult) (out : List CheckSubmissionReceipt × Board)
      → IsValid b
      → submit_all sha256 b agent rs now ≡ ok out
      → IsValid out.1
        × ((id : String)
            → (contains (result_ids rs) id ≡ true) ⊎ IsAnswered b id
            → IsAnswered out.1 id)
  unfolding submit_all contains
  submit_all-IsAnswered b [] out v h =
      subst
        (λ (o : List CheckSubmissionReceipt × Board).
          IsValid o.1 × ((id : String) → (false ≡ true) ⊎ IsAnswered b id → IsAnswered o.1 id))
        (ok-injective h) (v, λ id. elim [ inl p ↦ absurd (false≢true p) | inr a ↦ a ])
  submit_all-IsAnswered b (r ∷ rs) out v h =
      let (o, first, h1) = >>=-eq-ok (submit_check_result sha256 b agent r now) _ h in
      let (rest, later, h2) = >>=-eq-ok (submit_all sha256 o.1 agent rs now) _ h1 in
      let (a, s) = submitted sha256 b agent r now o first in
      let stored = store-Stored sha256 b agent r now o (submission b (key_of agent r)) refl s in
      let (valid, answered) =
        submit_all-IsAnswered o.1 rs rest
          (submit_check_result-IsValid sha256 b agent r now o v first) later in
      subst
        (λ (x : List CheckSubmissionReceipt × Board).
          IsValid x.1
          × ((id : String)
              → (contains (result_ids (r ∷ rs)) id ≡ true) ⊎ IsAnswered b id
              → IsAnswered x.1 id))
        (ok-injective h2)
        (
          valid,
          λ id known. elim (Bool-cases (r.check_id == id)) [
            | inl p ↦ answered id (inr (Stored-IsAnswered b r o id v stored (inl (==→eq _ _ p))))
            | inr p ↦ elim known [
              | inl c ↦ answered id (inl (among_rest id p c))
              | inr a ↦ answered id (inr (Stored-IsAnswered b r o id v stored (inr a)))
            ]
          ],
        )
    where
      among_rest :
          (id : String)
          → (r.check_id == id) ≡ false
          → (r.check_id == id || contains (result_ids rs) id) ≡ true
          → contains (result_ids rs) id ≡ true
      among_rest id f c = ground arith

-- An accepted batch on a valid board leaves a valid board on which every check that is granted to
-- the agent has a latest result.
pub submit_batch-IsAnswered :
    (sha256 : CheckResult → String) (b : Board) (agent prompt_version : String)
    (aliases : Dict String String) (drafts : List BoundCheckResultDraft) (now : ℕ)
    (out : List CheckSubmissionReceipt × Board)
    → IsValid b
    → submit_batch sha256 b agent prompt_version aliases drafts now ≡ ok out
    → IsValid out.1
      × ((id : String)
          → contains (expected_checks agent b.grant_by_check) id ≡ true
          → (l : CheckResult) × (latest_result out.1 id ≡ some l))
unfolding submit_batch
submit_batch-IsAnswered sha256 b agent pv aliases drafts now out v h =
    let (rs, ids, sequential) =
      submit_batch-submit_all b agent pv aliases sha256 drafts now out v h in
    let (valid, answered) = submit_all-IsAnswered sha256 agent now b rs out v sequential in
    let resolved = map (resolve_aliases (identities_of aliases)) drafts in
    let (complete, h1) = >>-eq-ok (raise_if (is_incomplete resolved) _) _ h in
    let covered = covers resolved (raise_if-eq-ok _ _ complete) in
    let same =
      draft_ids-resolve_aliases b agent pv aliases (identities_of aliases) drafts ∙ sym ids in
    (
      valid,
      λ id owned. answered id (
          inl (
            subst (λ t. contains t id ≡ true) same
              (subset-contains (expected_checks agent b.grant_by_check) (draft_ids resolved) id
                covered owned))),
    )
  where
    is_incomplete : List BoundCheckResultDraft → Bool
    is_incomplete ds =
        not (unique (draft_ids ds))
        || not (subset (draft_ids ds) (expected_checks agent b.grant_by_check))
        || not (subset (expected_checks agent b.grant_by_check) (draft_ids ds))

    covers :
        (ds : List BoundCheckResultDraft)
        → is_incomplete ds ≡ false
        → subset (expected_checks agent b.grant_by_check) (draft_ids ds) ≡ true
    covers ds e = ground arith
