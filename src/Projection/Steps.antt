-- ===== src/Projection/Steps.antt =====
-- The projections that a Run can come to, and what it takes to prove something of all of them.
use jindiao.Prelude.{
  ℕ, String, ◌==◌, contains, nonempty, ◌&&◌, ◌≡◌, refl, sym, Option, subst, Bool, true, false, leb,
  if◌then◌else◌, Bool-cases, inl, inr,
}
use jindiao.Errors.{Result, ok, err}
use jindiao.Contracts.Json.{JsonValue}
use jindiao.Projection.View.{RunResource, RunEvent, RunProgress, RunProjection}
use jindiao.Projection.Parts.{execution_progress, is_stale, step_events}
use jindiao.Projection.Changes.{EventKind}
use jindiao.Projection.Apply.{advanced, apply, apply_new, change_of, kind_of, write_back}

-- a choice between two projections of the same resource
choice-resource :
    (c : Bool) (r : RunResource) (p q : Option RunProgress × RunProjection)
    → p.1.resource ≡ r
    → q.1.resource ≡ r
    → (if c then p else q).1.resource ≡ r
choice-resource true r p q h k = h
choice-resource false r p q h k = k

execution_progress-resource :
    (p : RunProjection) (event : RunEvent) → (execution_progress p event).1.resource ≡ p.resource
unfolding execution_progress
execution_progress-resource p event =
    choice-resource (event.event_type == "execution.plan.created") p.resource _ _ refl (
      choice-resource (contains step_events event.event_type && nonempty p.execution_states)
        p.resource _ _ (choice-resource (is_stale p event) p.resource _ _ refl refl) refl)

module _ (str : JsonValue → String) (total : ℕ) where
  -- What `apply` can be called with, any number of times, whether it raises or not.
  pub data Applied (start : RunProjection) : RunProjection → Type 0 where
    here : Applied start start
    applied :
        {p : RunProjection} (event : RunEvent)
        → Applied start p
        → Applied start (apply str total p event).1

  module _ {ℓ} (P : RunResource → Type ℓ)
      (changes : (k : EventKind) (r out : RunResource) (event : RunEvent)
        → P r
        → change_of str total k r event ≡ ok out
        → P out)
      (advances : (p : RunProjection) (event : RunEvent)
        → P p.resource
        → P (advanced ((execution_progress p event).0) event p.resource)) where
    -- the dictionaries of the projection are written before the resource
    write_back-keeps :
        (p : RunProjection) (returned : Result RunResource)
        → P p.resource
        → ((out : RunResource) → returned ≡ ok out → P out)
        → P (write_back p returned).1.resource
    write_back-keeps p (ok out) h k = k out refl
    write_back-keeps p (err e) h k = h

    apply_new-keeps :
        (p : RunProjection) (event : RunEvent)
        → P p.resource
        → P (apply_new str total p event).1.resource
    unfolding apply_new
    apply_new-keeps p event h =
        write_back-keeps ((execution_progress p event).1) _
          (subst P (sym (execution_progress-resource p event)) h)
          (λ out e. changes (kind_of event.event_type) _ out event (advances p event h) e)

    apply-keeps :
        (p : RunProjection) (event : RunEvent)
        → P p.resource
        → P (apply str total p event).1.resource
    unfolding apply
    apply-keeps p event h = elim (Bool-cases (leb event.sequence p.resource.latest_sequence)) [
      | inl old ↦
          subst (λ b. P (if b then (ok p.resource, p) else apply_new str total p event).1.resource)
            (sym old) h
      | inr new ↦
          subst (λ b. P (if b then (ok p.resource, p) else apply_new str total p event).1.resource)
            (sym new) (apply_new-keeps p event h)
    ]

    pub Applied-keeps :
        (start p : RunProjection) → Applied start p → P start.resource → P p.resource
    Applied-keeps start p here h = h
    Applied-keeps start p (applied {p = before} event a) h =
        apply-keeps before event (Applied-keeps start before a h)
