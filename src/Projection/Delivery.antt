-- ===== src/Projection/Delivery.antt =====
-- The events of a Run delivered to its projection, some more than once.
use jindiao.Prelude.{
  ℕ, ◌≤◌, ◌≡◌, refl, sym, ap, ◌∙◌, subst, arith, String, Bool, true, false, Option, none, some, leb,
  max, if◌then◌else◌,
}
use jindiao.Errors.{Result, ok, err, >>=-eq-ok, ok-injective}
use jindiao.Contracts.Json.{JsonValue, JsonFields, dict_of, get_field}
use jindiao.Projection.View.{RunProgress, RunResource, RunEvent, RunProjection}
use jindiao.Projection.Parts.{execution_progress}
use jindiao.Projection.Changes.{EventKind, budget_change, budget_of}
use jindiao.Projection.Apply.{
  advanced, apply, apply_new, change_of, kind_of, write_back, upsert_agent, upsert_check,
}

budget-latest_sequence :
    (r out : RunResource) (raw : Option JsonFields)
    → budget_change r raw ≡ ok out
    → out.latest_sequence ≡ r.latest_sequence
budget-latest_sequence r out none h =
    ap (λ (x : RunResource). x.latest_sequence) (sym (ok-injective h))
budget-latest_sequence r out (some raw) h =
    let (view, made, h1) = >>=-eq-ok (budget_of r.budget raw) _ h in
    ap (λ (x : RunResource). x.latest_sequence) (sym (ok-injective h1))

advanced-latest_sequence :
    (progress : Option RunProgress) (event : RunEvent) (r : RunResource)
    → (advanced progress event r).latest_sequence ≡ max r.latest_sequence event.sequence
advanced-latest_sequence none event r = refl
advanced-latest_sequence (some progress) event r = refl

module _ (str : JsonValue → String) (total : ℕ) where
  change-latest_sequence :
      (k : EventKind) (r out : RunResource) (event : RunEvent)
      → change_of str total k r event ≡ ok out
      → out.latest_sequence ≡ r.latest_sequence
  unfolding change_of
  change-latest_sequence EventKind.agent_event r out event h =
      let (agents, made, h1) = >>=-eq-ok (upsert_agent str total r.agents event) _ h in
      ap (λ (x : RunResource). x.latest_sequence) (sym (ok-injective h1))
  change-latest_sequence EventKind.check_event r out event h =
      let (checks, made, h1) = >>=-eq-ok (upsert_check str total r.checks event) _ h in
      ap (λ (x : RunResource). x.latest_sequence) (sym (ok-injective h1))
  change-latest_sequence EventKind.budget_event r out event h =
      budget-latest_sequence r out (dict_of (get_field "budget" event.payload)) h
  change-latest_sequence _ r out event h =
      ap (λ (x : RunResource). x.latest_sequence) (sym (ok-injective h))

  -- What a call of `apply` that returns has done to the sequence number.
  abbrev IsDelivered : ℕ → Result RunResource × RunProjection → Type 0
  IsDelivered n returned =
      (r : RunResource) → returned.0 ≡ ok r → (returned.1.resource ≡ r) × (r.latest_sequence ≡ n)

  write_back-IsDelivered :
      (n : ℕ) (p : RunProjection) (changed : Result RunResource)
      → ((r : RunResource) → changed ≡ ok r → r.latest_sequence ≡ n)
      → IsDelivered n (write_back p changed)
  write_back-IsDelivered n p (ok x) k r h = (ok-injective h, k r h)
  write_back-IsDelivered n p (err e) k r h = cc h

  apply_new-IsDelivered :
      (p : RunProjection) (event : RunEvent)
      → IsDelivered (max p.resource.latest_sequence event.sequence) (apply_new str total p event)
  unfolding apply_new
  apply_new-IsDelivered p event =
      write_back-IsDelivered _ ((execution_progress p event).1) _ (λ r h.
        change-latest_sequence (kind_of event.event_type) _ r event h
        ∙ advanced-latest_sequence ((execution_progress p event).0) event p.resource)

  pub apply-IsDelivered :
      (p : RunProjection) (event : RunEvent) (r : RunResource)
      → (apply str total p event).0 ≡ ok r
      → ((apply str total p event).1.resource ≡ r)
        × (r.latest_sequence ≡ max p.resource.latest_sequence event.sequence)
  unfolding apply
  apply-IsDelivered p event =
      chosen (leb event.sequence p.resource.latest_sequence) old
        (λ n. apply_new-IsDelivered p event)
    where
      old :
          leb event.sequence p.resource.latest_sequence ≡ true
          → IsDelivered (max p.resource.latest_sequence event.sequence) (ok p.resource, p)
      old o r h = (
        ok-injective h,
        ap (λ (x : RunResource). x.latest_sequence) (sym (ok-injective h)) ∙ larger o,
      )
        where
          larger :
              leb event.sequence p.resource.latest_sequence ≡ true
              → p.resource.latest_sequence ≡ max p.resource.latest_sequence event.sequence
          larger q = ground arith

      chosen :
          (b : Bool)
          → (b ≡ true
              → IsDelivered (max p.resource.latest_sequence event.sequence) (ok p.resource, p))
          → (b ≡ false
              → IsDelivered
                  (max p.resource.latest_sequence event.sequence)
                  (apply_new str total p event))
          → IsDelivered
              (max p.resource.latest_sequence event.sequence)
              (if b then (ok p.resource, p) else apply_new str total p event)
      chosen true x y = x refl
      chosen false x y = y refl

  -- an event that is not newer is ignored
  apply-old :
      (q : RunProjection) (later : RunEvent)
      → later.sequence ≤ q.resource.latest_sequence
      → apply str total q later ≡ (ok q.resource, q)
  unfolding apply
  apply-old q later m =
      subst
        (λ b.
          ◌≡◌ {A = Result RunResource × RunProjection}
            (if b then (ok q.resource, q) else apply_new str total q later) (ok q.resource, q))
        (sym (is_old m)) refl
    where
      is_old :
          later.sequence ≤ q.resource.latest_sequence
          → leb later.sequence q.resource.latest_sequence ≡ true
      is_old n = ground arith

  -- An event that was applied moves the sequence number up to its own, never down, and is ignored
  -- when it is delivered again, as is every event that is not newer: the projection stays as it is.
  pub apply-redelivered :
      (p : RunProjection) (event later : RunEvent) (r : RunResource)
      → (apply str total p event).0 ≡ ok r
      → later.sequence ≤ event.sequence
      → (r.latest_sequence ≡ max p.resource.latest_sequence event.sequence)
        × (apply str total ((apply str total p event).1) later
            ≡ (ok r, (apply str total p event).1))
  apply-redelivered p event later r h m =
      let q = (apply str total p event).1 in
      let (same, latest) = apply-IsDelivered p event r h in
      (
        latest,
        subst (λ (x : RunResource). apply str total q later ≡ (ok x, q)) same
            (apply-old q later (below latest (ap (λ (x : RunResource). x.latest_sequence) same))),
      )
    where
      below :
          {n : ℕ}
          → r.latest_sequence ≡ max p.resource.latest_sequence event.sequence
          → n ≡ r.latest_sequence
          → later.sequence ≤ n
      below e f = omega (arith, e, f, m)
