-- ===== src/Reporting/Fuel.antt =====
-- The loop over the Evidence ends: no iteration makes more work than it does.
use jindiao.Prelude.{
  ℕ, ◌+◌, ◌≤◌, ◌≡◌, refl, sym, ap, ◌∙◌, subst, arith, String, String_discrete, true, false, not,
  ◌||◌, ◌==◌, contains, contains-append, ==_iff, ==_refl, ◌≢◌, if◌then◌else◌, List, [], ◌∷◌, keep,
  length, Option, none, some, Dict, lookup, is_yes, Bool-cases, inl, inr, le_refl, some-eq,
}
use jindiao.Errors.{Result, ok, err, Reason, value_error}
use jindiao.Reporting.Lineage.{
  ProductEvidence, Walk, add_parent, add_parents, parents_of, remaining, source_evidence, visit,
  walk,
}

module _ (refs : List String) (p : String) where
  abbrev unseen : List String → List String
  unseen u = keep (λ x. not (contains refs x)) u

  abbrev unseen_after : List String → List String
  unseen_after u = keep (λ x. not (contains (p ∷ refs) x)) u

  fewer-unseen : (u : List String) → length (unseen_after u) ≤ length (unseen u)
  unfolding contains
  fewer-unseen [] = omega arith
  fewer-unseen (x ∷ u) = grind (arith, fewer-unseen u)

  -- an identity that is added is no longer unseen
  less-unseen :
      (u : List String)
      → contains refs p ≡ false
      → contains u p ≡ true
      → length (unseen_after u) + 1 ≤ length (unseen u)
  unfolding contains
  less-unseen [] n m = absurd (cc m)
  less-unseen (x ∷ u) n m = elim (String_discrete x p) [
    | yes same ↦ here same
    | no other ↦ there other (less-unseen u n (rest other))
  ]
    where
      here : x ≡ p → length (unseen_after (x ∷ u)) + 1 ≤ length (unseen (x ∷ u))
      here same =
          subst (λ y. length (unseen_after (y ∷ u)) + 1 ≤ length (unseen (y ∷ u))) (sym same)
            (rw (==_refl p, n) (omega (arith, fewer-unseen u)))

      rest : x ≢ p → contains u p ≡ true
      rest other = ground (arith, ==_iff x p)

      there :
          x ≢ p
          → length (unseen_after u) + 1 ≤ length (unseen u)
          → length (unseen_after (x ∷ u)) + 1 ≤ length (unseen (x ∷ u))
      there other h = grind (arith, ==_iff p x, h)

-- No parent makes more work than it takes away.
add_parent-remaining :
    (by_id : Dict String ProductEvidence) (parent : String) (w : Walk)
    → contains (parents_of by_id) parent ≡ true
    → remaining by_id (add_parent parent w).refs (add_parent parent w).pending
      ≤ remaining by_id w.refs w.pending
add_parent-remaining by_id parent w m = elim (Bool-cases (contains w.refs parent)) [
  | inl known ↦ rw known (le_refl _)
  | inr new ↦ rw new (omega (arith, less-unseen w.refs parent (parents_of by_id) new m))
]

abbrev pub IsIncluded : List String → List String → Type 0
IsIncluded xs ys = (x : String) → contains xs x ≡ true → contains ys x ≡ true

add_parents-remaining :
    (by_id : Dict String ProductEvidence) (parents : List String) (w : Walk)
    → IsIncluded parents (parents_of by_id)
    → remaining by_id (add_parents parents w).refs (add_parents parents w).pending
      ≤ remaining by_id w.refs w.pending
unfolding add_parents contains
add_parents-remaining by_id [] w i = le_refl _
add_parents-remaining by_id (parent ∷ parents) w i = omega (
  arith,
  add_parents-remaining by_id parents (add_parent parent w) (λ x m. i x (later x m)),
  add_parent-remaining by_id parent w (i parent first),
)
  where
    first : (parent == parent || contains parents parent) ≡ true
    first = rw (==_refl parent)

    later : (x : String) → contains parents x ≡ true → (parent == x || contains parents x) ≡ true
    later x m = ground arith

-- the parents of an item are among those that the loop may add
lookup-parents :
    (by_id : Dict String ProductEvidence) (id : String) (item : ProductEvidence)
    → lookup String_discrete id by_id ≡ some item
    → IsIncluded item.derived_from (parents_of by_id)
unfolding lookup
lookup-parents [] id item e x m = absurd (not_some e)
  where
    not_some : ◌≡◌ {A = Option ProductEvidence} none (some item) → ⊥
    not_some q = cc q
lookup-parents ((k, v) ∷ by_id) id item e x m =
    contains-append v.derived_from (parents_of by_id) x
    ∙ found (String_discrete k id) (λ q. lookup-parents by_id id item q x m) e
  where
    found :
        (t : Dec (k ≡ id))
        → (lookup String_discrete id by_id ≡ some item → contains (parents_of by_id) x ≡ true)
        → (if is_yes t then some v else lookup String_discrete id by_id) ≡ some item
        → (contains v.derived_from x || contains (parents_of by_id) x) ≡ true
    found (yes p) r q =
        ap (λ c. c || contains (parents_of by_id) x)
          (subst (λ (y : ProductEvidence). contains y.derived_from x ≡ true) (sym (some-eq q)) m)
    found (no p) r q = or_right (r q)
      where
        or_right :
            contains (parents_of by_id) x ≡ true
            → (contains v.derived_from x || contains (parents_of by_id) x) ≡ true
        or_right r = ground arith

walk-ends :
    (fuel : ℕ) (by_id : Dict String ProductEvidence) (refs pending : List String)
    → remaining by_id refs pending ≤ fuel
    → (r : Result (List String)) × (walk fuel by_id refs pending ≡ some r)
unfolding walk
walk-ends fuel by_id refs [] h = (ok refs, refl)
walk-ends ℕ.zero by_id refs (id ∷ pending) h = absurd (more h)
  where
    more : remaining by_id refs (id ∷ pending) ≤ 0 → ⊥
    more m = omega (arith, m)
walk-ends (ℕ.suc fuel) by_id refs (id ∷ pending) h =
    visited (lookup String_discrete id by_id)
      (λ refs_later pending_later m. walk-ends fuel by_id refs_later pending_later m) refl
  where
    visited :
        (held : Option ProductEvidence)
        → ((refs_later pending_later : List String)
            → remaining by_id refs_later pending_later ≤ fuel
            → (r : Result (List String)) × (walk fuel by_id refs_later pending_later ≡ some r))
        → lookup String_discrete id by_id ≡ held
        → (r : Result (List String)) × (visit
              (λ (w : Walk). walk fuel by_id w.refs w.pending)
              held
              (record { refs = refs; pending = pending })
            ≡ some r)
    visited none next e = (err (value_error Reason.missing_source_evidence), refl)
    visited (some item) next e = next _ _ (
        omega (
          arith,
          h,
          add_parents-remaining by_id item.derived_from (record { refs = refs; pending = pending })
              (lookup-parents by_id id item e),
        ))

-- The loop over the Evidence ends for every report, even where Evidence is derived in a circle: it
-- makes at most as many iterations as there are references and identities that they could add.
pub source_evidence-ends :
    (by_id : Dict String ProductEvidence) (refs : List String)
    → (r : Result (List String)) × (source_evidence by_id refs ≡ some r)
unfolding source_evidence
source_evidence-ends by_id refs = walk-ends (remaining by_id refs refs) by_id refs refs (le_refl _)
