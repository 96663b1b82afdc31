-- ===== src/Projection/Growth.antt =====
-- What a publisher has stored stays stored: `publish` and `complete` only append to the events of the
-- Run, whether they raise or not.
use mathlib.Core.List.{append-nil, append_assoc}
use jindiao.Prelude.{
  ◌&&◌, contains, ℕ, ◌≡◌, refl, sym, ap, ◌∙◌, subst, String, List, [], ◌∷◌, ◌++◌, Bool-cases, inl,
  inr, if-cases, nonempty, leb, Option, none, some,
}
use jindiao.Errors.{Result, Checked, ok, err, raise_if, >>-eq-ok, ok-injective}
use jindiao.Contracts.Json.{JsonValue}
use jindiao.Events.Log.{
  RunEvent, RunLog, already_stored, append, last_sequence, previous_of, restore, second_terminal,
  stored,
}
use jindiao.Projection.View.{RunResource, RunProjection}
use jindiao.Projection.Publish.{
  EventBody, event_types, Published, RunEventPublisher, publish, publish_next, store_and_apply,
  with_projection,
}
use jindiao.Projection.Complete.{
  Completed, Completion, and_then, complete, completion_events, finish, restore_after, restored,
  store_event, store_events,
}

-- the first events are still there, in front
abbrev pub IsGrown : List RunEvent → List RunEvent → Type 0
IsGrown xs ys = (rest : List RunEvent) × (ys ≡ xs ++ rest)

pub IsGrown-refl : (xs : List RunEvent) → IsGrown xs xs
IsGrown-refl xs = ([], sym (append-nil xs))

pub IsGrown-trans : (xs ys zs : List RunEvent) → IsGrown xs ys → IsGrown ys zs → IsGrown xs zs
IsGrown-trans xs ys zs (r, p) (s, q) =
    (r ++ s, q ∙ ap (λ (l : List RunEvent). l ++ s) p ∙ append_assoc xs r s)

already_stored-same :
    (log : RunLog) (previous : Option RunEvent) (out : RunEvent × RunLog)
    → already_stored log previous ≡ ok out
    → out.1 ≡ log
already_stored-same log none out h = absurd (cc h)
already_stored-same log (some e) out h = ap (λ (o : RunEvent × RunLog). o.1) (sym (ok-injective h))

append-IsGrown :
    (e : RunEvent) (log : RunLog) (out : RunEvent × RunLog)
    → append e log ≡ ok out
    → IsGrown log.events out.1.events
unfolding append
append-IsGrown e log out h =
    let (guard, h1) = >>-eq-ok (raise_if (second_terminal e log.events) _) _ h in
    elim (if-cases (nonempty log.events && leb e.sequence (last_sequence log.events)) _ _ h1) [
      | inl k ↦
          subst (λ (l : RunLog). IsGrown log.events l.events)
            (sym (already_stored-same log (previous_of e log.events) out k))
            (IsGrown-refl log.events)
      | inr k ↦
          let (number, done) = >>-eq-ok _ _ k in
          (e ∷ [], ap (λ (o : RunEvent × RunLog). o.1.events) (sym (ok-injective done)))
    ]

module _ (validate : String → String → Checked) (read : String → EventBody)
    (str : JsonValue → String) (total : ℕ) (persist : RunResource → Checked) where
  with_projection-log :
      (p : RunEventPublisher) (event : RunEvent) (applied : Result RunResource × RunProjection)
      → (with_projection validate read str total p event applied).1.log ≡ p.log
  with_projection-log p event (ok r, q) = refl
  with_projection-log p event (err e, q) = refl

  -- the log after an event that was stored
  pub store_and_apply-log :
      (p : RunEventPublisher) (event : RunEvent) (out : RunEvent × RunLog)
      → (store_and_apply validate read str total p event (ok out)).1.log ≡ out.1
  unfolding store_and_apply
  store_and_apply-log p event out = with_projection-log (record p { log = out.1 }) event _

  store_and_apply-IsGrown :
      (p : RunEventPublisher) (event : RunEvent) (appended : Result (RunEvent × RunLog))
      → append event p.log ≡ appended
      → IsGrown p.log.events (store_and_apply validate read str total p event appended).1.log.events
  unfolding store_and_apply
  store_and_apply-IsGrown p event (err e) h = IsGrown-refl p.log.events
  store_and_apply-IsGrown p event (ok out) h =
      subst (λ (l : RunLog). IsGrown p.log.events l.events) (sym (store_and_apply-log p event out))
        (append-IsGrown event p.log out h)

  publish_next-IsGrown :
      (p : RunEventPublisher) (event : RunEvent) (valid : Checked)
      → IsGrown p.log.events (publish_next validate read str total p event valid).1.log.events
  unfolding publish_next
  publish_next-IsGrown p event (ok done) = store_and_apply-IsGrown p event (append event p.log) refl
  publish_next-IsGrown p event (err e) = IsGrown-refl p.log.events

  pub publish-IsGrown :
      (p : RunEventPublisher) (event_type payload : String)
      → IsGrown p.log.events (publish validate read str total p event_type payload).1.log.events
  unfolding publish
  publish-IsGrown p t x = elim (Bool-cases (contains event_types t)) [
    | inl k ↦ rw k (publish_next-IsGrown _ _ (validate t x))
    | inr k ↦ rw k (IsGrown-refl p.log.events)
  ]

  pub restore_after-log :
      (event : RunEvent) (published : Published)
      → (restore_after validate read str total persist event published).1.log ≡ published.1.log
  restore_after-log event (err e, p) = refl
  restore_after-log event (ok stored, p) = by_restore (restore event.sequence p.sequence)
    where
      by_restore :
          (r : Result ℕ) → (restored validate read str total persist event p r).1.log ≡ p.log
      by_restore (ok n) = refl
      by_restore (err e) = refl

  store_event-IsGrown :
      (p : RunEventPublisher) (event : RunEvent)
      → IsGrown p.log.events (store_event validate read str total persist p event).1.log.events
  unfolding store_event
  store_event-IsGrown p event =
      subst (λ (l : RunLog). IsGrown p.log.events l.events)
        (sym (
          restore_after-log event
            (store_and_apply validate read str total p event (append event p.log))))
        (store_and_apply-IsGrown p event (append event p.log) refl)

  pub and_then-IsGrown :
      (c : Completed) (next : RunEventPublisher → Completed)
      → ((p : RunEventPublisher) → IsGrown p.log.events (next p).1.log.events)
      → IsGrown c.1.log.events (and_then validate read str total persist c next).1.log.events
  and_then-IsGrown (ok done, p) next h = h p
  and_then-IsGrown (err e, p) next h = IsGrown-refl p.log.events

  pub store_events-IsGrown :
      (events : List RunEvent) (p : RunEventPublisher)
      → IsGrown p.log.events (store_events validate read str total persist events p).1.log.events
  unfolding store_events
  store_events-IsGrown [] p = IsGrown-refl p.log.events
  store_events-IsGrown (e ∷ es) p = IsGrown-trans _ _ _ (store_event-IsGrown p e) (
      and_then-IsGrown (store_event validate read str total persist p e)
        (store_events validate read str total persist es) (store_events-IsGrown es))

  pub complete-IsGrown :
      (p : RunEventPublisher) (c : Completion)
      → IsGrown p.log.events (complete validate read str total persist p c).1.log.events
  unfolding complete
  complete-IsGrown p c = by_prepare (completion_events p.run_id (last_sequence p.log.events) c) _
    where
      by_prepare :
          (events : List RunEvent) (prepared : Checked)
          → IsGrown p.log.events
              (finish validate read str total persist p events prepared).1.log.events
      by_prepare events (ok done) = store_events-IsGrown events p
      by_prepare events (err e) = IsGrown-refl p.log.events
