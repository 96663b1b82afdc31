-- ===== src/Projection/Views.antt =====
-- The agents and the checks that the resource shows.
use jindiao.Prelude.{
  ℕ, ◌≤◌, ◌≡◌, subst, arith, String, Option, none, some, List, [], ◌∷◌, map, length,
}
use jindiao.Errors.{ok, raise_if, >>=-eq-ok, >>-eq-ok, ok-injective}
use jindiao.Contracts.Check.{is_blank}
use jindiao.Contracts.Json.{JsonValue, JsonFields, get_field, dict_of}
use jindiao.Projection.View.{RunProgress, CheckView, RunResource, RunEvent, RunProjection}
use jindiao.Projection.Parts.{execution_progress, or_single}
use jindiao.Projection.Steps.{Applied, Applied-keeps}
use jindiao.Projection.Changes.{EventKind, budget_change, budget_of}
use jindiao.Projection.Apply.{advanced, change_of, upsert_agent, upsert_check, check_in}

module _ (str : JsonValue → String) (total : ℕ) where
  abbrev HasOneView : RunResource → Type 0
  HasOneView r = (length r.agents ≤ 1) × (length r.checks ≤ 1)

  or_single-one {ℓ} :
      {A : Type ℓ} (a : A) (f : A → A) (xs : List A)
      → length xs ≤ 1
      → length (or_single a (map f xs)) ≤ 1
  or_single-one a f [] h = omega arith
  or_single-one a f (x ∷ []) h = omega arith
  or_single-one a f (x ∷ y ∷ ys) h = omega (arith, h)

  check_in-one :
      (raw : Option String) (current out : List CheckView) (event : RunEvent)
      → length current ≤ 1
      → check_in str total raw current event ≡ ok out
      → length out ≤ 1
  check_in-one none current out event n h = subst (λ x. length x ≤ 1) (ok-injective h) n
  check_in-one (some id) current out event n h =
      let (_, h1) = >>-eq-ok (raise_if (is_blank id) _) _ h in
      subst (λ x. length x ≤ 1) (ok-injective h1) (or_single-one _ _ current n)

  change-HasOneView :
      (k : EventKind) (r out : RunResource) (event : RunEvent)
      → HasOneView r
      → change_of str total k r event ≡ ok out
      → HasOneView out
  unfolding change_of upsert_agent upsert_check
  change-HasOneView EventKind.agent_event r out event (n, m) h =
      let (agents, made, h1) = >>=-eq-ok (upsert_agent str total r.agents event) _ h in
      let (_, made1) = >>-eq-ok (raise_if _ _) _ made in
      subst HasOneView (ok-injective h1)
        (subst (λ x. length x ≤ 1) (ok-injective made1) (or_single-one _ _ r.agents n), m)
  change-HasOneView EventKind.check_event r out event (n, m) h =
      let (checks, made, h1) = >>=-eq-ok (upsert_check str total r.checks event) _ h in
      subst HasOneView (ok-injective h1) (n, check_in-one _ r.checks checks event m made)
  change-HasOneView EventKind.budget_event r out event c h =
      budget-HasOneView (dict_of (get_field "budget" event.payload)) h
    where
      budget-HasOneView : (raw : Option JsonFields) → budget_change r raw ≡ ok out → HasOneView out
      budget-HasOneView none h = subst HasOneView (ok-injective h) c
      budget-HasOneView (some raw) h =
          let (view, made, h1) = >>=-eq-ok (budget_of r.budget raw) _ h in
          subst HasOneView (ok-injective h1) c
  change-HasOneView _ r out event c h = subst HasOneView (ok-injective h) c

  advanced-HasOneView :
      (p : RunProjection) (event : RunEvent)
      → HasOneView p.resource
      → HasOneView (advanced ((execution_progress p event).0) event p.resource)
  advanced-HasOneView p event c = kept ((execution_progress p event).0)
    where
      kept : (progress : Option RunProgress) → HasOneView (advanced progress event p.resource)
      kept none = c
      kept (some progress) = c

  -- However many agents start and checks are assigned, the resource never has more than one agent
  -- or more than one check, once it has at most one of each.
  pub Applied-HasOneView :
      (start p : RunProjection)
      → length start.resource.agents ≤ 1
      → length start.resource.checks ≤ 1
      → Applied str total start p
      → (length p.resource.agents ≤ 1) × (length p.resource.checks ≤ 1)
  Applied-HasOneView start p n m a =
      Applied-keeps str total HasOneView change-HasOneView advanced-HasOneView start p a (n, m)
