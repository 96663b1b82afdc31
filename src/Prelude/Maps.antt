-- ===== src/Prelude/Maps.antt =====
-- Python's `dict`, as an association list in insertion order, over keys with decidable equality.
use mathlib.Core.Path.{◌≡◌, refl, sym, ap, ◌∙◌, subst}
use mathlib.Core.Logic.{◌≢◌, ◌↔◌, ◌⊎◌, inl, inr}
use mathlib.Core.Bool.{Bool, true, not, false≢true}
use mathlib.Core.List.{List, [], ◌∷◌}
use mathlib.Core.Option.{Option, none, some}
use native.Mathlib.Omega.{arith}
use jindiao.Prelude.Tests.{if◌then◌else◌, is_yes, is_none}
use jindiao.Prelude.Lists.{All}

abbrev pub Dict {ℓ κ} : Type ℓ → Type κ → Type (ℓ ⊔ κ)
Dict K V = List (K × V)

pub some-eq {ℓ} : {A : Type ℓ} {a b : A} → some a ≡ some b → a ≡ b
some-eq h = cc

yes_eq {ℓ} : {A : Type ℓ} (t : Dec A) → is_yes t ≡ true → A
yes_eq (yes p) h = p
yes_eq (no p) h = absurd (false≢true h)

yes_of {ℓ} : {A : Type ℓ} (t : Dec A) → A → is_yes t ≡ true
yes_of (yes p) a = refl
yes_of (no p) a = absurd (p a)

module _ {ℓ} {K : Type ℓ} (same : Discrete K) where
  is_yes-eq : (j k : K) → is_yes (same j k) ≡ true → j ≡ k
  is_yes-eq j k = yes_eq (same j k)

  eq-is_yes : (j k : K) → j ≡ k → is_yes (same j k) ≡ true
  eq-is_yes j k = yes_of (same j k)

  -- for `ground`, at each pair of keys that is compared
  pub same_iff : (j k : K) → (is_yes (same j k) ≡ true) ↔ (j ≡ k)
  same_iff j k = (is_yes-eq j k, eq-is_yes j k)

module _ {ℓ κ} {K : Type ℓ} {V : Type κ} (same : Discrete K) where
  -- `d.get(k)`
  unfoldable pub lookup : K → Dict K V → Option V
  lookup k [] = none
  lookup k ((j, v) ∷ d) = let rest = lookup k d in if is_yes (same j k) then some v else rest

  -- `k in d`
  unfoldable pub has_key : K → Dict K V → Bool
  unfolding lookup
  has_key k d = not (is_none (lookup k d))

  -- `d[k] = v`, where a key that is there keeps its place
  unfoldable pub put : K → V → Dict K V → Dict K V
  put k v [] = (k, v) ∷ []
  put k v ((j, w) ∷ d) =
      let rest = put k v d in if is_yes (same j k) then (k, v) ∷ d else (j, w) ∷ rest

  -- `d.update(e)`
  unfoldable pub update : Dict K V → Dict K V → Dict K V
  unfolding put
  update d [] = d
  update d ((k, v) ∷ e) = update (put k v d) e

  pub lookup-put :
      (k j : K) (v : V) (d : Dict K V)
      → lookup j (put k v d) ≡ (if is_yes (same k j) then some v else lookup j d)
  unfolding lookup put
  lookup-put k j v [] = refl
  lookup-put k j v ((i, w) ∷ d) =
      ground (arith, same_iff same k j, same_iff same i k, same_iff same i j, lookup-put k j v d)

  pub lookup-put_self : (k : K) (v : V) (d : Dict K V) → lookup k (put k v d) ≡ some v
  lookup-put_self k v d = rw (lookup-put k k v d, eq-is_yes same k k refl)

  pub lookup-put_ne : (k j : K) (v : V) (d : Dict K V) → k ≢ j → lookup j (put k v d) ≡ lookup j d
  lookup-put_ne k j v d ne = ground (arith, lookup-put k j v d, same_iff same k j)

  -- What a write leaves to be found: the written entry, or one of another key.
  pub lookup-put_cases :
      (k j : K) (v x : V) (d : Dict K V)
      → lookup j (put k v d) ≡ some x
      → ((k ≡ j) × (v ≡ x)) ⊎ ((k ≢ j) × (lookup j d ≡ some x))
  lookup-put_cases k j v x d e = elim (same k j) [
    | yes p ↦ inl (
      p,
      some-eq (sym (lookup-put_self k v d) ∙ subst (λ t. lookup t (put k v d) ≡ some x) (sym p) e),
    )
    | no p ↦ inr (p, sym (lookup-put_ne k j v d p) ∙ e)
  ]

  -- A key that is there stays there.
  pub lookup-put-some :
      (k j : K) (v w : V) (d : Dict K V)
      → lookup j d ≡ some w
      → (x : V) × (lookup j (put k v d) ≡ some x)
  lookup-put-some k j v w d e = elim (same k j) [
    | yes p ↦ (v, subst (λ t. lookup t (put k v d) ≡ some v) p (lookup-put_self k v d))
    | no p ↦ (w, lookup-put_ne k j v d p ∙ e)
  ]

  -- A predicate on every entry.
  pub lookup-All {μ} :
      (P : K × V → Type μ) (k : K) (v : V) (d : Dict K V) → All P d → lookup k d ≡ some v → P (k, v)
  unfolding lookup
  lookup-All P k v [] h e = cc
  lookup-All P k v ((j, w) ∷ d) h e =
      elim (same j k) as (λ t. (if is_yes t then some w else lookup k d) ≡ some v → P (k, v)) [
        | yes p ↦ λ q. subst (λ x. P (k, x)) (some-eq q) (subst (λ x. P (x, w)) p h.0)
        | no p ↦ λ q. lookup-All P k v d h.1 q
      ]
        e

  pub put-All {μ} :
      (P : K × V → Type μ) (k : K) (v : V) (d : Dict K V) → P (k, v) → All P d → All P (put k v d)
  unfolding put
  put-All P k v [] p h = (p, tt)
  put-All P k v ((j, w) ∷ d) p h =
      elim (same j k) as (λ t. All P (if is_yes t then (k, v) ∷ d else (j, w) ∷ put k v d)) [
        | yes q ↦ (p, h.1)
        | no q ↦ (h.0, put-All P k v d p h.1)
      ]

  -- A write of what is there already changes nothing.
  pub put-some : (k : K) (v : V) (d : Dict K V) → lookup k d ≡ some v → put k v d ≡ d
  unfolding lookup put
  put-some k v [] e = cc
  put-some k v ((j, w) ∷ d) e =
      elim (same j k)
          as (λ t.
            (if is_yes t then some w else lookup k d) ≡ some v
            → (if is_yes t then (k, v) ∷ d else (j, w) ∷ put k v d) ≡ (j, w) ∷ d) [
              | yes p ↦ λ q. ap (λ (x : K × V). x ∷ d) (pair (sym p) (sym (some-eq q)))
              | no p ↦ λ q. ap (λ t. (j, w) ∷ t) (put-some k v d q)
            ]
        e
    where
      pair : {x : K} {y : V} → k ≡ x → v ≡ y → ◌≡◌ {A = K × V} (k, v) (x, y)
      pair p q = cc

  -- A key that the second dictionary lacks is written last.
  pub update-put :
      (k : K) (v : V) (d e : Dict K V)
      → lookup k e ≡ none
      → update d (put k v e) ≡ put k v (update d e)
  unfolding lookup put update
  update-put k v d [] h = refl
  update-put k v d ((j, w) ∷ e) h =
      elim (same j k)
          as (λ t.
            (if is_yes t then some w else lookup k e) ≡ none
            → update d (if is_yes t then (k, v) ∷ e else (j, w) ∷ put k v e)
              ≡ put k v (update (put j w d) e)) [
                | yes p ↦ λ q. cc q
                | no p ↦ λ q. update-put k v (put j w d) e q
              ]
        h
