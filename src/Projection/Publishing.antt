-- ===== src/Projection/Publishing.antt =====
-- What `publish` keeps of the store, the sequencer and the projection together.
use jindiao.Prelude.{
  Bool, true, contains, if◌then◌else◌, ℕ, ◌+◌, ◌≤◌, ◌<◌, ◌≡◌, refl, sym, ap, ◌∙◌, arith, String,
  false, [], ◌∷◌, ◌++◌, max,
}
use jindiao.Errors.{Result, Checked, ok, err, ok-injective, value_error, Reason}
use jindiao.Contracts.Json.{JsonValue}
use jindiao.Events.Log.{RunEvent, RunLog, append, last_sequence}
use jindiao.Projection.View.{RunResource, RunProjection}
use jindiao.Projection.Publish.{
  EventBody, Published, RunEventPublisher, caught_up, event_of, event_types, projected, publish,
  publish_next, store_and_apply, with_projection,
}
use jindiao.Projection.Delivery.{apply-IsDelivered}
use jindiao.Projection.Ahead.{append-new, number_of, numbered, number-above}

module _ (validate : String → String → Checked) (read : String → EventBody)
    (str : JsonValue → String) (total : ℕ) where
  abbrev publishes : RunEventPublisher → String → String → Published
  publishes = publish validate read str total

  abbrev pub IsStored : RunEvent → RunEventPublisher → RunEvent → RunEventPublisher → Type 0
  IsStored event p e q =
      (e ≡ event)
      × (q.log.events ≡ p.log.events ++ event ∷ [])
      × (q.sequence ≡ p.sequence)
      × (q.projection.resource.latest_sequence
          ≡ max p.projection.resource.latest_sequence event.sequence)

  -- what a call of `apply` that returned makes of the publisher
  with_projection-eq-ok :
      (p q : RunEventPublisher) (event e : RunEvent) (applied : Result RunResource × RunProjection)
      → with_projection validate read str total p event applied ≡ (ok e, q)
      → (r : RunResource) × (applied.0 ≡ ok r)
        × (e ≡ event)
        × (q ≡ record p { projection = applied.1 })
  with_projection-eq-ok p q event e (ok r, x) h = (
    r,
    refl,
    ok-injective (ap (λ (o : Published). o.0) (sym h)),
    ap (λ (o : Published). o.1) (sym h),
  )
  with_projection-eq-ok p q event e (err raised, x) h =
      absurd (not_ok (ap (λ (o : Published). o.0) h))
    where
      not_ok : err raised ≡ ok e → ⊥
      not_ok k = cc k

  pub store_and_apply-IsStored :
      (p q : RunEventPublisher) (event e : RunEvent) (out : RunEvent × RunLog)
      → out.1.events ≡ p.log.events ++ event ∷ []
      → store_and_apply validate read str total p event (ok out) ≡ (ok e, q)
      → IsStored event p e q
  unfolding store_and_apply
  store_and_apply-IsStored p q event e out grown h =
      let (r, returned, same, left) =
        with_projection-eq-ok (record p { log = out.1 }) q event e _ h in
      let (held, latest) =
        apply-IsDelivered str total p.projection (projected read event) r returned in
      (
        same,
        ap (λ (x : RunEventPublisher). x.log.events) left ∙ grown,
        ap (λ (x : RunEventPublisher). x.sequence) left,
        ap (λ (x : RunEventPublisher). x.projection.resource.latest_sequence) left
            ∙ ap (λ (x : RunResource). x.latest_sequence) held
            ∙ latest,
      )

  publish_next-IsStored :
      (p q : RunEventPublisher) (event e : RunEvent) (valid : Checked)
      → last_sequence p.log.events < event.sequence
      → publish_next validate read str total p event valid ≡ (ok e, q)
      → IsStored event p e q × (event.sequence ≡ last_sequence p.log.events + 1)
  unfolding publish_next
  publish_next-IsStored p q event e (err raised) above h =
      absurd (not_ok (ap (λ (o : Published). o.0) h))
    where
      not_ok : err raised ≡ ok e → ⊥
      not_ok k = cc k
  publish_next-IsStored p q event e (ok done) above h = by_append (append event p.log) refl h
    where
      by_append :
          (appended : Result (RunEvent × RunLog))
          → append event p.log ≡ appended
          → store_and_apply validate read str total p event appended ≡ (ok e, q)
          → IsStored event p e q × (event.sequence ≡ last_sequence p.log.events + 1)
      by_append (err raised) a k = absurd (refused (ap (λ (o : Published). o.0) k))
        where
          refused : err raised ≡ ok e → ⊥
          refused l = cc l
      by_append (ok out) a k =
          let (number, kept) = append-new event p.log out above a in
          (
            store_and_apply-IsStored p q event e out
                (ap (λ (o : RunEvent × RunLog). o.1.events) kept) k,
            number,
          )

  -- A call of `publish` that returns an event has stored it as the next event of the Run; the store,
  -- the sequencer and the projection then stand at its number, if the projection was not ahead of
  -- the store before.
  pub publish-advances :
      (p q : RunEventPublisher) (event_type payload : String) (e : RunEvent)
      → p.projection.resource.latest_sequence ≤ last_sequence p.log.events
      → publish validate read str total p event_type payload ≡ (ok e, q)
      → (q.log.events ≡ p.log.events ++ e ∷ [])
        × (e.sequence ≡ last_sequence p.log.events + 1)
        × (q.sequence ≡ e.sequence)
        × (q.projection.resource.latest_sequence ≡ e.sequence)
  unfolding publish
  publish-advances p q t x e behind h = chosen (contains event_types t) h
    where
      larger :
          number_of p ≡ last_sequence p.log.events + 1
          → max p.projection.resource.latest_sequence (number_of p) ≡ number_of p
      larger n = ground (arith, behind)

      stored_next :
          publish_next validate read str total
              (numbered p)
              (event_of p.run_id (number_of p) t x)
              (validate t x)
            ≡ (ok e, q)
          → (q.log.events ≡ p.log.events ++ e ∷ [])
            × (e.sequence ≡ last_sequence p.log.events + 1)
            × (q.sequence ≡ e.sequence)
            × (q.projection.resource.latest_sequence ≡ e.sequence)
      stored_next k =
          let event = event_of p.run_id (number_of p) t x in
          let ((same, grown, sequence, latest), next) =
            publish_next-IsStored (numbered p) q event e (validate t x) (number-above p) k in
          let number = ap (λ (o : RunEvent). o.sequence) same in
          (
            grown ∙ ap (λ (o : RunEvent). p.log.events ++ o ∷ []) (sym same),
            number ∙ next,
            sequence ∙ sym number,
            latest ∙ larger next ∙ sym number,
          )

      not_ok :
          {s : RunEventPublisher}
          → ◌≡◌ {A = Published} (err (value_error Reason.unknown_event_type), s) (ok e, q)
          → ⊥
      not_ok k = raised (ap (λ (o : Published). o.0) k)
        where
          raised : err (value_error Reason.unknown_event_type) ≡ ok e → ⊥
          raised l = cc l

      chosen :
          (b : Bool)
          → ◌≡◌ {A = Published}
              (if b
                then publish_next validate read str total
                    (numbered p)
                    (event_of p.run_id (number_of p) t x)
                    (validate t x)
                else (
                  err (value_error Reason.unknown_event_type),
                  record p { sequence = caught_up (last_sequence p.log.events) p.sequence },
                ))
              (ok e, q)
          → (q.log.events ≡ p.log.events ++ e ∷ [])
            × (e.sequence ≡ last_sequence p.log.events + 1)
            × (q.sequence ≡ e.sequence)
            × (q.projection.resource.latest_sequence ≡ e.sequence)
      chosen true k = stored_next k
      chosen false k = absurd (not_ok k)
