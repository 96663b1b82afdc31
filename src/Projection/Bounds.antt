-- ===== src/Projection/Bounds.antt =====
-- What holds of the resource whatever events are applied: its counts and its end.
use jindiao.Prelude.{
  ℕ, ◌≤◌, ◌≡◌, refl, subst, arith, String, Bool, true, false, Option, none, some, List, [], ◌∷◌,
  length, keep, if◌then◌else◌, Dict, is_none, false≢true, ◌==◌, contains, nonempty, ◌&&◌,
}
use jindiao.Errors.{ok, >>=-eq-ok, ok-injective}
use jindiao.Contracts.Json.{JsonValue, JsonFields, get_field, dict_of}
use jindiao.Runs.Repository.{RunStatus}
use jindiao.Projection.View.{
  RunProgress, RunResource, RunEvent, RunProjection, ExecutionStepState, execution_step_ids,
}
use jindiao.Projection.Parts.{
  execution_progress, progress_of_steps, record_step, step_events, add_steps, counted, is_stale,
}
use jindiao.Projection.Steps.{Applied, Applied-keeps}
use jindiao.Projection.Changes.{EventKind, budget_change, budget_of}
use jindiao.Projection.Apply.{advanced, change_of, upsert_agent, upsert_check}

abbrev pub IsProgress : RunProgress → Type 0
IsProgress progress = progress.completed ≤ progress.total

abbrev pub is_ended : RunStatus → Bool
is_ended RunStatus.accepted = false
is_ended RunStatus.running = false
is_ended _ = true

-- No progress is past its total, and a Run that ended says when.
abbrev pub IsConsistent : RunResource → Type 0
IsConsistent r =
    IsProgress r.progress
    × IsProgress r.acquisition
    × IsProgress r.investigation
    × IsProgress r.reporting
    × (is_ended r.status ≡ true → is_none r.completed_at ≡ false)

length-keep {ℓ} : {A : Type ℓ} (p : A → Bool) (xs : List A) → length (keep p xs) ≤ length xs
length-keep p [] = omega arith
length-keep p (x ∷ xs) = kept (p x) (length-keep p xs)
  where
    kept :
        (b : Bool)
        → length (keep p xs) ≤ length xs
        → length (if b then x ∷ keep p xs else keep p xs) ≤ length (x ∷ xs)
    kept true h = omega (arith, h)
    kept false h = omega (arith, h)

counted-IsProgress :
    (states : Dict String ExecutionStepState) → IsProgress (progress_of_steps states)
counted-IsProgress states = length-keep _ states

budget-IsConsistent :
    (r out : RunResource) (raw : Option JsonFields)
    → IsConsistent r
    → budget_change r raw ≡ ok out
    → IsConsistent out
budget-IsConsistent r out none c h = subst IsConsistent (ok-injective h) c
budget-IsConsistent r out (some raw) c h =
    let (view, made, h1) = >>=-eq-ok (budget_of r.budget raw) _ h in
    subst IsConsistent (ok-injective h1) c

module _ (str : JsonValue → String) (total : ℕ) where
  change-IsConsistent :
      (k : EventKind) (r out : RunResource) (event : RunEvent)
      → IsConsistent r
      → change_of str total k r event ≡ ok out
      → IsConsistent out
  unfolding change_of
  change-IsConsistent EventKind.run_started r out event (s, a, i, w, e) h =
      subst IsConsistent (ok-injective h) (s, a, i, w, λ n. absurd (false≢true n))
  change-IsConsistent EventKind.run_accepted r out event (s, a, i, w, e) h =
      subst IsConsistent (ok-injective h) (s, a, i, w, λ n. absurd (false≢true n))
  change-IsConsistent EventKind.phase_started r out event (s, a, i, w, e) h =
      subst IsConsistent (ok-injective h) (s, a, i, w, λ n. absurd (false≢true n))
  change-IsConsistent EventKind.phase_completed r out event c h =
      subst IsConsistent (ok-injective h) c
  change-IsConsistent EventKind.run_completed r out event (s, a, i, w, e) h =
      subst IsConsistent (ok-injective h) (s, a, i, w, λ n. refl)
  change-IsConsistent EventKind.report_completed r out event (s, a, i, w, e) h =
      subst IsConsistent (ok-injective h) (s, a, i, w, λ n. refl)
  change-IsConsistent EventKind.run_partial r out event (s, a, i, w, e) h =
      subst IsConsistent (ok-injective h) (s, a, i, w, λ n. refl)
  change-IsConsistent EventKind.run_failed r out event (s, a, i, w, e) h =
      subst IsConsistent (ok-injective h) (s, a, i, w, λ n. refl)
  change-IsConsistent EventKind.run_cancelled r out event (s, a, i, w, e) h =
      subst IsConsistent (ok-injective h) (s, a, i, w, λ n. refl)
  change-IsConsistent EventKind.acquisition_started r out event (s, a, i, w, e) h =
      subst IsConsistent (ok-injective h) (s, omega arith, i, w, e)
  change-IsConsistent EventKind.acquisition_completed r out event (s, a, i, w, e) h =
      subst IsConsistent (ok-injective h) (s, omega arith, i, w, e)
  change-IsConsistent EventKind.snapshot_frozen r out event c h =
      subst IsConsistent (ok-injective h) c
  change-IsConsistent EventKind.agent_event r out event c h =
      let (agents, made, h1) = >>=-eq-ok (upsert_agent str total r.agents event) _ h in
      subst IsConsistent (ok-injective h1) c
  change-IsConsistent EventKind.check_event r out event (s, a, i, w, e) h =
      let (checks, made, h1) = >>=-eq-ok (upsert_check str total r.checks event) _ h in
      subst IsConsistent (ok-injective h1) (s, a, length-keep _ checks, w, e)
  change-IsConsistent EventKind.review_event r out event c h = subst IsConsistent (ok-injective h) c
  change-IsConsistent EventKind.budget_event r out event c h =
      budget-IsConsistent r out (dict_of (get_field "budget" event.payload)) c h
  change-IsConsistent EventKind.section_completed r out event (s, a, i, w, e) h =
      subst IsConsistent (ok-injective h) (s, a, i, omega arith, e)
  change-IsConsistent EventKind.section_event r out event c h =
      subst IsConsistent (ok-injective h) c
  change-IsConsistent EventKind.other_event r out event c h = subst IsConsistent (ok-injective h) c

  advanced-IsConsistent :
      (p : RunProjection) (event : RunEvent)
      → IsConsistent p.resource
      → IsConsistent (advanced ((execution_progress p event).0) event p.resource)
  unfolding execution_progress
  advanced-IsConsistent p event c =
      chosen (event.event_type == "execution.plan.created") _ _
        (steps_counted
          (record p { execution_states = add_steps execution_step_ids p.execution_states }))
        (chosen (contains step_events event.event_type && nonempty p.execution_states) _ _
          (chosen (is_stale p event) _ _ c (steps_counted (record_step p event))) c)
    where
      chosen :
          (b : Bool) (x y : Option RunProgress × RunProjection)
          → IsConsistent (advanced (x.0) event p.resource)
          → IsConsistent (advanced (y.0) event p.resource)
          → IsConsistent (advanced ((if b then x else y).0) event p.resource)
      chosen true x y h k = h
      chosen false x y h k = k

      steps_counted : (q : RunProjection) → IsConsistent (advanced ((counted q).0) event p.resource)
      steps_counted q = let (s, a, i, w, e) = c in (length-keep _ q.execution_states, a, i, w, e)

  -- Whatever events are applied, in whatever order, no progress of the resource is past its total,
  -- and a Run that is completed, partial, failed or cancelled has the time of its completion.
  pub Applied-IsConsistent :
      (start p : RunProjection)
      → IsConsistent start.resource
      → Applied str total start p
      → IsConsistent p.resource
  Applied-IsConsistent start p c a =
      Applied-keeps str total IsConsistent change-IsConsistent advanced-IsConsistent start p a c
