-- ===== src/Reporting/Closure.antt =====
-- The Evidence that the loop finds is what the references are derived from, and no more.
use jindiao.Prelude.{
  ℕ, ◌≡◌, ◌⊎◌, inl, inr, refl, subst, String, String_discrete, true, contains, List, [], ◌∷◌,
  Option, none, some, Dict, lookup,
}
use jindiao.Errors.{Result, ok, err, Reason, value_error}
use jindiao.Reporting.Lineage.{
  ProductEvidence, Walk, add_parents, source_evidence, remaining, visit, walk,
}
use jindiao.Reporting.Fuel.{IsIncluded}
use jindiao.Reporting.Growth.{
  IsGrown, add_parents-IsGrown, head_included, in_cons, no_members, tail-IsIncluded,
}

module _ (by_id : Dict String ProductEvidence) where
  -- The Evidence exists, and all that it is derived from is in the set.
  abbrev pub IsResolved : List String → String → Type 0
  IsResolved refs id =
      (item : ProductEvidence) × (lookup String_discrete id by_id ≡ some item)
      × IsIncluded item.derived_from refs

  -- A set of identities that has, with each Evidence, all that it is derived from.
  abbrev pub IsClosed : (String → Type 0) → Type 0
  IsClosed member =
      (id : String) (item : ProductEvidence)
      → member id
      → lookup String_discrete id by_id ≡ some item
      → (parent : String) → contains item.derived_from parent ≡ true
      → member parent

  -- what is in the set and not yet resolved is pending
  abbrev IsUnderWay : List String → List String → Type 0
  IsUnderWay refs pending =
      (x : String) → contains refs x ≡ true → (contains pending x ≡ true) ⊎ IsResolved refs x

  abbrev Members : (String → Type 0) → List String → Type 0
  Members member xs = (x : String) → contains xs x ≡ true → member x

  -- Visiting an Evidence that exists leaves everything in the set pending or resolved.
  visit-IsUnderWay :
      (refs pending : List String) (id : String) (item : ProductEvidence)
      → lookup String_discrete id by_id ≡ some item
      → IsUnderWay refs (id ∷ pending)
      → IsUnderWay
          (add_parents item.derived_from (record { refs = refs; pending = pending })).refs
          (add_parents item.derived_from (record { refs = refs; pending = pending })).pending
  visit-IsUnderWay refs pending id item e u x m = elim (g.added x m) [
    | inr n ↦ inl n
    | inl n ↦ elim (u x n) [
      | inr (found, held, parents) ↦ inr (found, held, λ y k. g.grown_refs y (parents y k))
      | inl o ↦ elim (in_cons id pending x o) [
        | inr q ↦ inl (g.grown_pending x q)
        | inl p ↦
            inr (item, subst (λ y. lookup String_discrete y by_id ≡ some item) p e, g.has_parents)
      ]
    ]
  ]
    where
      g :
          IsGrown item.derived_from
            (record { refs = refs; pending = pending })
            (add_parents item.derived_from (record { refs = refs; pending = pending }))
      g = add_parents-IsGrown item.derived_from (record { refs = refs; pending = pending })

  -- a walk that ends with a set, by what the first pending identity is
  visit-eq-ok :
      (next : Walk → Option (Result (List String))) (held : Option ProductEvidence) (w : Walk)
      (out : List String)
      → visit next held w ≡ some (ok out)
      → (item : ProductEvidence) × (held ≡ some item)
        × (next (add_parents item.derived_from w) ≡ some (ok out))
  visit-eq-ok next none w out h = absurd (raised h)
    where
      raised :
          ◌≡◌ {A = Option (Result (List String))}
            (some (err (value_error Reason.missing_source_evidence)))
            (some (ok out))
          → ⊥
      raised q = cc q
  visit-eq-ok next (some item) w out h = (item, refl, h)

  returned-eq : (refs out : List String) → some (ok refs) ≡ some (ok out) → refs ≡ out
  returned-eq refs out h = cc h

  walk-IsResolved :
      (fuel : ℕ) (refs pending out : List String)
      → IsUnderWay refs pending
      → walk fuel by_id refs pending ≡ some (ok out)
      → IsIncluded refs out × ((x : String) → contains out x ≡ true → IsResolved out x)
  unfolding walk
  walk-IsResolved fuel refs [] out u h =
      subst (λ s. IsIncluded refs s × ((x : String) → contains s x ≡ true → IsResolved s x))
        (returned-eq refs out h)
        (
          λ x m. m,
          λ x m. elim (u x m) [ inl n ↦ absurd (no_members x n) | inr resolved ↦ resolved ],
        )
  walk-IsResolved ℕ.zero refs (id ∷ pending) out u h = absurd (ran_out h)
    where
      ran_out : ◌≡◌ {A = Option (Result (List String))} none (some (ok out)) → ⊥
      ran_out q = cc q
  walk-IsResolved (ℕ.suc fuel) refs (id ∷ pending) out u h =
      let (item, e, k) =
        visit-eq-ok (λ (w : Walk). walk fuel by_id w.refs w.pending)
          (lookup String_discrete id by_id) (record { refs = refs; pending = pending }) out h in
      let (included, resolved) =
        walk-IsResolved fuel _ _ out (visit-IsUnderWay refs pending id item e u) k in
      let g = add_parents-IsGrown item.derived_from (record { refs = refs; pending = pending }) in
      (λ x m. included x (g.grown_refs x m), resolved)

  either :
      (member : String → Type 0) (xs ys zs : List String)
      → Members member xs
      → Members member ys
      → ((x : String) → contains zs x ≡ true → (contains xs x ≡ true) ⊎ (contains ys x ≡ true))
      → Members member zs
  either member xs ys zs h k c x m = elim (c x m) [ inl n ↦ h x n | inr n ↦ k x n ]

  walk-least :
      (member : String → Type 0) (fuel : ℕ) (refs pending out : List String)
      → IsClosed member
      → Members member refs
      → Members member pending
      → walk fuel by_id refs pending ≡ some (ok out)
      → Members member out
  unfolding walk
  walk-least member fuel refs [] out c r p h = subst (Members member) (returned-eq refs out h) r
  walk-least member ℕ.zero refs (id ∷ pending) out c r p h = absurd (ran_out h)
    where
      ran_out : ◌≡◌ {A = Option (Result (List String))} none (some (ok out)) → ⊥
      ran_out q = cc q
  walk-least member (ℕ.suc fuel) refs (id ∷ pending) out c r p h =
      let (item, e, k) =
        visit-eq-ok (λ (w : Walk). walk fuel by_id w.refs w.pending)
          (lookup String_discrete id by_id) (record { refs = refs; pending = pending }) out h in
      let g = add_parents-IsGrown item.derived_from (record { refs = refs; pending = pending }) in
      let parents = c id item (p id (head_included id pending)) e in
      walk-least member fuel _ _ out c
        (either member refs item.derived_from _ r parents g.no_others)
        (either member pending item.derived_from _ (λ x m. p x (tail-IsIncluded id pending x m))
          parents g.no_others_pending)
        k

  -- Where the loop returns a set, the set has the references of the report, every identity in it is
  -- Evidence whose own sources are in it, and it is the least such set: whatever has the references
  -- and, with each Evidence, all that it is derived from, has all of it.
  pub source_evidence-IsClosure :
      (refs out : List String)
      → source_evidence by_id refs ≡ some (ok out)
      → IsIncluded refs out
        × ((id : String) → contains out id ≡ true → IsResolved out id)
        × ((member : String → Type 0)
            → IsClosed member
            → ((x : String) → contains refs x ≡ true → member x)
            → (x : String) → contains out x ≡ true
            → member x)
  unfolding source_evidence
  source_evidence-IsClosure refs out h =
      let (included, resolved) =
        walk-IsResolved (remaining by_id refs refs) refs refs out (λ x m. inl m) h in
      (
        included,
        resolved,
        λ member c r. walk-least member (remaining by_id refs refs) refs refs out c r r h,
      )
