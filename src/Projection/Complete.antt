-- ===== src/Projection/Complete.antt =====
-- observability/run_store.py: `RunEventPublisher.complete`. `persist`, which saves the final resource, is
-- a parameter: it may raise, and what it returns is not used. The texts of the three events, the one
-- with the redacted result included, are parts of `Completion`.
use jindiao.Prelude.{ℕ, ◌+◌, Bool, String, List, [], ◌∷◌, if◌then◌else◌}
use jindiao.Errors.{Result, Checked, ok, err, ◌>>=◌, ◌>>◌, for_each}
use jindiao.Contracts.Json.{JsonValue}
use jindiao.Events.Log.{RunEvent, append, last_sequence, restore}
use jindiao.Projection.View.{RunResource, RunProjection}
use jindiao.Projection.Apply.{apply}
use jindiao.Projection.Publish.{
  EventBody, Published, RunEventPublisher, event_of, projected, store_and_apply,
}

-- what `complete` reads of the result
pub record Completion : Type 0 where
  pub is_partial : Bool
  pub phase_payload : String
  pub report_payload : String
  pub terminal_payload : String

-- The three events, numbered by a sequencer of their own from the last number of the store.
abbrev pub phase_event : String → ℕ → Completion → RunEvent
phase_event run_id sequence c = event_of run_id (sequence + 1) "run.phase.completed" c.phase_payload

abbrev pub closing_events : String → ℕ → Completion → List RunEvent
closing_events run_id sequence c =
    event_of run_id (sequence + 2) "report.completed" c.report_payload
    ∷ event_of run_id (sequence + 3) (if c.is_partial then "run.partial" else "run.completed")
        c.terminal_payload
    ∷ []

abbrev pub completion_events : String → ℕ → Completion → List RunEvent
completion_events run_id sequence c =
    phase_event run_id sequence c ∷ closing_events run_id sequence c

abbrev pub Completed : Type 0
Completed = Checked × RunEventPublisher

module _ (validate : String → String → Checked) (read : String → EventBody)
    (str : JsonValue → String) (total : ℕ) (persist : RunResource → Checked) where
  -- The copy of the projection has the resource only; the first event that it refuses raises.
  unfoldable pub project : RunProjection → List RunEvent → Result RunResource
  unfolding apply
  project p [] = ok p.resource
  project p (e ∷ es) =
      let applied = apply str total p (projected read e) in
      let rest = project applied.1 es in applied.0 >>= λ r. rest

  abbrev pub copied : RunProjection → RunProjection
  copied p = record { resource = p.resource; execution_states = []; execution_sequences = [] }

  -- What comes before the first event is stored.
  unfoldable pub prepare : RunProjection → List RunEvent → Checked
  unfolding project
  prepare p events =
      for_each (λ e. validate e.event_type e.payload) events
      >> project (copied p) events
      >>= persist

  abbrev pub restored : RunEvent → RunEventPublisher → Result ℕ → Completed
  restored event p (ok n) = (ok tt, record p { sequence = n })
  restored event p (err e) = (err e, p)

  abbrev pub restore_after : RunEvent → Published → Completed
  restore_after event (ok stored, p) = restored event p (restore event.sequence p.sequence)
  restore_after event (err e, p) = (err e, p)

  -- the body of the last loop
  unfoldable pub store_event : RunEventPublisher → RunEvent → Completed
  unfolding store_and_apply append restore
  store_event p event =
      restore_after event (store_and_apply validate read str total p event (append event p.log))

  abbrev pub and_then : Completed → (RunEventPublisher → Completed) → Completed
  and_then (ok done, p) next = next p
  and_then (err e, p) next = (err e, p)

  unfoldable pub store_events : List RunEvent → RunEventPublisher → Completed
  unfolding store_event
  store_events [] p = (ok tt, p)
  store_events (e ∷ es) p = and_then (store_event p e) (store_events es)

  abbrev pub finish : RunEventPublisher → List RunEvent → Checked → Completed
  finish p events (ok done) = store_events events p
  finish p events (err e) = (err e, p)

  -- `complete`
  unfoldable pub complete : RunEventPublisher → Completion → Completed
  unfolding prepare store_events last_sequence
  complete p c =
      let events = completion_events p.run_id (last_sequence p.log.events) c in
      finish p events (prepare p.projection events)
