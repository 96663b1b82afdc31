-- ===== src/Projection/Refusal.antt =====
-- What a call of `publish` that raises leaves behind.
use jindiao.Prelude.{
  true, contains, ℕ, ◌<◌, ◌≡◌, ◌⊎◌, inl, inr, refl, sym, ap, ◌∙◌, subst, arith, String, List, [],
  ◌∷◌, ◌++◌,
}
use jindiao.Errors.{Error, Result, Checked, ok, err}
use jindiao.Contracts.Json.{JsonValue}
use jindiao.Events.Log.{RunEvent, RunLog, append, last_sequence}
use jindiao.Projection.View.{RunResource}
use jindiao.Projection.Publish.{
  EventBody, Published, RunEventPublisher, event_types, publish, store_and_apply,
}
use jindiao.Projection.Complete.{
  Completion, closing_events, complete, completion_events, phase_event, finish, prepare,
  store_event, store_events,
}
use jindiao.Projection.Ahead.{IsAhead, append-new, number-above, publish-ahead, publish-invalid}
use jindiao.Projection.Growth.{
  IsGrown, IsGrown-trans, and_then-IsGrown, complete-IsGrown, publish-IsGrown, restore_after-log,
  store_and_apply-log, store_events-IsGrown,
}

-- The log goes on with an event of the type that a `complete` stores first.
abbrev pub IsCompleting : List RunEvent → List RunEvent → Type 0
IsCompleting before after =
    (first : RunEvent) × (first.event_type ≡ "run.phase.completed")
    × IsGrown (before ++ first ∷ []) after

IsCompleting-grown :
    (before middle after : List RunEvent)
    → IsCompleting before middle
    → IsGrown middle after
    → IsCompleting before after
IsCompleting-grown before middle after (first, name, grown) more =
    (first, name, IsGrown-trans (before ++ first ∷ []) middle after grown more)

module _ (validate : String → String → Checked) (read : String → EventBody)
    (str : JsonValue → String) (total : ℕ) (persist : RunResource → Checked) where
  -- nothing has been stored since `log` and the sequencer is ahead, or a `complete` has stored
  abbrev IsStuck : RunLog → RunEventPublisher → Type 0
  IsStuck log p = ((p.log ≡ log) × IsAhead p) ⊎ IsCompleting log.events p.log.events

  -- an event that the store has taken is in the log, whatever `apply` and `restore` answer
  store_event-log :
      (p : RunEventPublisher) (event : RunEvent) (out : RunEvent × RunLog)
      → append event p.log ≡ ok out
      → (store_event validate read str total persist p event).1.log ≡ out.1
  unfolding store_event
  store_event-log p event out h =
      restore_after-log validate read str total persist event _
      ∙ ap
          (λ (appended : Result (RunEvent × RunLog)).
            (store_and_apply validate read str total p event appended).1.log)
          h
      ∙ store_and_apply-log validate read str total persist p event out

  -- the first event of a `complete` is stored, or nothing has changed
  store_events-IsStuck :
      (p : RunEventPublisher) (first : RunEvent) (others : List RunEvent)
      (appended : Result (RunEvent × RunLog))
      → first.event_type ≡ "run.phase.completed"
      → last_sequence p.log.events < first.sequence
      → IsAhead p
      → append first p.log ≡ appended
      → IsStuck p.log (store_events validate read str total persist (first ∷ others) p).1
  unfolding store_events store_event store_and_apply
  store_events-IsStuck p first others (err e) name above ahead h = rw h (inl (refl, ahead))
  store_events-IsStuck p first others (ok out) name above ahead h =
      let (number, kept) = append-new first p.log out above h in
      inr (
        first,
        name,
        subst
            (λ (l : RunLog).
              IsGrown l.events
                (store_events validate read str total persist (first ∷ others) p).1.log.events)
            (store_event-log p first out h ∙ ap (λ (o : RunEvent × RunLog). o.1) kept)
            (and_then-IsGrown validate read str total persist
              (store_event validate read str total persist p first)
              (store_events validate read str total persist others)
              (store_events-IsGrown validate read str total persist others)),
      )

  complete-IsStuck :
      (p : RunEventPublisher) (c : Completion)
      → IsAhead p
      → IsStuck p.log (complete validate read str total persist p c).1
  unfolding complete
  complete-IsStuck p c ahead =
      let sequence = last_sequence p.log.events in
      by_prepare (phase_event p.run_id sequence c) (closing_events p.run_id sequence c)
        (prepare validate read str total persist p.projection
          (completion_events p.run_id sequence c))
        refl (omega arith)
    where
      by_prepare :
          (first : RunEvent) (others : List RunEvent) (prepared : Checked)
          → first.event_type ≡ "run.phase.completed"
          → last_sequence p.log.events < first.sequence
          → IsStuck p.log (finish validate read str total persist p (first ∷ others) prepared).1
      by_prepare first others (ok done) name above =
          store_events-IsStuck p first others (append first p.log) name above ahead refl
      by_prepare first others (err e) name above = inl (refl, ahead)

  -- The calls of `publish` and `complete`, whether they raise or not.
  pub data Attempts (start : RunEventPublisher) : RunEventPublisher → Type 0 where
    here : Attempts start start
    attempted :
        {p : RunEventPublisher} (event_type payload : String)
        → Attempts start p
        → Attempts start (publish validate read str total p event_type payload).1
    completed :
        {p : RunEventPublisher} (completion : Completion)
        → Attempts start p
        → Attempts start (complete validate read str total persist p completion).1

  Attempts-IsStuck :
      (log : RunLog) (start p : RunEventPublisher)
      → IsStuck log start
      → Attempts start p
      → IsStuck log p
  Attempts-IsStuck log start p s here = s
  Attempts-IsStuck log start p s (attempted {p = before} t x a) =
      elim (Attempts-IsStuck log start before s a) [
        | inl (same, ahead) ↦
            let (error, left, refused, kept, still) =
              publish-ahead validate read str total before t x ahead in
            subst (λ (r : Published). IsStuck log r.1) (sym refused) (inl (kept ∙ same, still))
        | inr done ↦ inr (
            IsCompleting-grown log.events before.log.events _ done
              (publish-IsGrown validate read str total persist before t x))
      ]
  Attempts-IsStuck log start p s (completed {p = before} c a) =
      elim (Attempts-IsStuck log start before s a) [
        | inl (same, ahead) ↦
            subst (λ (l : RunLog). IsStuck l (complete validate read str total persist before c).1)
              same (complete-IsStuck before c ahead)
        | inr done ↦ inr (
            IsCompleting-grown log.events before.log.events _ done
              (complete-IsGrown validate read str total persist before c))
      ]

  -- A call of `publish` for a known type of event whose event does not validate keeps the number
  -- that it took. Whatever calls of `publish` and `complete` follow, however they end, one of two
  -- things holds after them: either the log of the Run is as it was before, and every call of
  -- `publish` raises; or the log has gone on, and its next event has the type run.phase.completed,
  -- which is the type of the event that `complete` stores first.
  pub publish-stuck :
      (p q : RunEventPublisher) (event_type payload : String) (e : Error)
      → contains event_types event_type ≡ true
      → validate event_type payload ≡ err e
      → Attempts (publish validate read str total p event_type payload).1 q
      → ((q.log ≡ p.log)
          × ((later_type later_payload : String)
              → (raised : Error) × ((publish validate read str total q later_type later_payload).0
                  ≡ err raised)))
        ⊎ IsCompleting p.log.events q.log.events
  publish-stuck p q t x e k h a =
      let start =
        subst (λ (r : Published). IsStuck p.log r.1)
          (sym (publish-invalid validate read str total p t x e k h))
          (inl (refl, number-above p)) in
      elim (Attempts-IsStuck p.log _ q start a) [
        | inl (same, ahead) ↦ inl (
          same,
          λ later_type later_payload.
              let (error, left, refused, kept, still) =
                publish-ahead validate read str total q later_type later_payload ahead in
              (error, ap (λ (r : Published). r.0) refused),
        )
        | inr done ↦ inr done
      ]
