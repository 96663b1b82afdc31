-- ===== src/Projection/Storing.antt =====
-- The last loop of `complete`: the events that it stores, and where the publisher then stands.
use mathlib.Core.List.{append-nil, append_assoc}
use jindiao.Prelude.{
  ℕ, ◌+◌, ◌≤◌, ◌<◌, ◌≡◌, refl, sym, ap, ◌∙◌, subst, arith, String, List, [], ◌∷◌, ◌++◌, max, ltb,
  length,
}
use jindiao.Errors.{Error, Result, Checked, ok, err, raise_if, >>-eq-ok, ok-injective}
use jindiao.Contracts.Json.{JsonValue}
use jindiao.Events.Log.{RunEvent, RunLog, append, last_sequence, restore}
use jindiao.Events.Numbering.{IsNumberedFrom}
use jindiao.Projection.View.{RunResource}
use jindiao.Projection.Publish.{EventBody, Published, RunEventPublisher, store_and_apply}
use jindiao.Projection.Complete.{
  Completed, and_then, restore_after, restored, store_event, store_events,
}
use jindiao.Projection.Ahead.{append-new}
use jindiao.Projection.Publishing.{store_and_apply-IsStored}

pub raised-not_ok :
    (e : Error) (p q : RunEventPublisher) → ◌≡◌ {A = Completed} (err e, p) (ok tt, q) → ⊥
raised-not_ok e p q h = not_ok (ap (λ (o : Completed). o.0) h)
  where
    not_ok : ◌≡◌ {A = Checked} (err e) (ok tt) → ⊥
    not_ok k = cc k

last_sequence-snoc :
    (events : List RunEvent) (e : RunEvent) → last_sequence (events ++ e ∷ []) ≡ e.sequence
unfolding last_sequence
last_sequence-snoc [] e = refl
last_sequence-snoc (f ∷ []) e = refl
last_sequence-snoc (f ∷ g ∷ events) e = last_sequence-snoc (g ∷ events) e

-- the store, the sequencer and the projection stand at the same number
abbrev pub IsAligned : RunEventPublisher → Type 0
IsAligned p =
    (p.sequence ≡ last_sequence p.log.events)
    × (p.projection.resource.latest_sequence ≡ last_sequence p.log.events)

module _ (validate : String → String → Checked) (read : String → EventBody)
    (str : JsonValue → String) (total : ℕ) (persist : RunResource → Checked) where
  -- the store, the sequencer and the projection stand at the event
  abbrev IsAt : RunEvent → RunEventPublisher → RunEventPublisher → Type 0
  IsAt event p q =
      (q.log.events ≡ p.log.events ++ event ∷ [])
      × (q.sequence ≡ event.sequence)
      × (q.projection.resource.latest_sequence
          ≡ max p.projection.resource.latest_sequence event.sequence)

  restored-eq-ok :
      (p q : RunEventPublisher) (event : RunEvent) (n : Result ℕ)
      → restore event.sequence p.sequence ≡ n
      → restored validate read str total persist event p n ≡ (ok tt, q)
      → q ≡ record p { sequence = event.sequence }
  unfolding restore
  restored-eq-ok p q event (err e) r h = absurd (raised-not_ok e _ q h)
  restored-eq-ok p q event (ok k) r h =
      let (_, same) = >>-eq-ok (raise_if (ltb event.sequence p.sequence) _) _ r in
      ap (λ (o : Completed). o.1) (sym h)
      ∙ ap (λ (m : ℕ). record p { sequence = m }) (sym (ok-injective same))

  restore_after-eq-ok :
      (q : RunEventPublisher) (event : RunEvent) (published : Published)
      → restore_after validate read str total persist event published ≡ (ok tt, q)
      → (e : RunEvent) × (published.0 ≡ ok e)
        × (q ≡ record published.1 { sequence = event.sequence })
  restore_after-eq-ok q event (err e, p) h = absurd (raised-not_ok e _ q h)
  restore_after-eq-ok q event (ok e, p) h =
      (e, refl, restored-eq-ok p q event (restore event.sequence p.sequence) refl h)

  returned_pair :
      (published : Published) (e : RunEvent)
      → published.0 ≡ ok e
      → ◌≡◌ {A = Published} published (ok e, published.1)
  returned_pair (r, p) e h = ap (λ (o : Result RunEvent). (o, p)) h

  stored-IsAt :
      (p q : RunEventPublisher) (event : RunEvent) (appended : Result (RunEvent × RunLog))
      → last_sequence p.log.events < event.sequence
      → append event p.log ≡ appended
      → restore_after validate read str total persist event
          (store_and_apply validate read str total p event appended)
        ≡ (ok tt, q)
      → IsAt event p q
  unfolding store_and_apply
  stored-IsAt p q event (err e) above a h = absurd (raised-not_ok e _ q h)
  stored-IsAt p q event (ok out) above a h =
      let (number, kept) = append-new event p.log out above a in
      let published = store_and_apply validate read str total p event (ok out) in
      let (e, returned, left) = restore_after-eq-ok q event published h in
      let (same, grown, sequence, latest) =
        store_and_apply-IsStored validate read str total p published.1 event e out
          (ap (λ (o : RunEvent × RunLog). o.1.events) kept) (returned_pair published e returned) in
      (
        ap (λ (x : RunEventPublisher). x.log.events) left ∙ grown,
        ap (λ (x : RunEventPublisher). x.sequence) left,
        ap (λ (x : RunEventPublisher). x.projection.resource.latest_sequence) left ∙ latest,
      )

  store_event-IsAt :
      (p q : RunEventPublisher) (event : RunEvent)
      → last_sequence p.log.events < event.sequence
      → store_event validate read str total persist p event ≡ (ok tt, q)
      → IsAt event p q
  unfolding store_event
  store_event-IsAt p q event above h = stored-IsAt p q event (append event p.log) above refl h

  -- An event that is stored as the next one aligns the publisher, if the projection was not ahead.
  store_event-IsAligned :
      (p q : RunEventPublisher) (event : RunEvent)
      → p.projection.resource.latest_sequence ≤ last_sequence p.log.events
      → event.sequence ≡ last_sequence p.log.events + 1
      → store_event validate read str total persist p event ≡ (ok tt, q)
      → (q.log.events ≡ p.log.events ++ event ∷ [])
        × (last_sequence q.log.events ≡ event.sequence)
        × IsAligned q
  store_event-IsAligned p q event behind next h =
      let (grown, sequence, latest) = store_event-IsAt p q event (omega (arith, next)) h in
      let last = ap last_sequence grown ∙ last_sequence-snoc p.log.events event in
      (grown, last, (sequence ∙ sym last, latest ∙ larger behind next ∙ sym last))
    where
      larger :
          p.projection.resource.latest_sequence ≤ last_sequence p.log.events
          → event.sequence ≡ last_sequence p.log.events + 1
          → max p.projection.resource.latest_sequence event.sequence ≡ event.sequence
      larger b n = ground (arith, b, n)

  and_then-eq-ok :
      (c : Completed) (next : RunEventPublisher → Completed) (q : RunEventPublisher)
      → and_then validate read str total persist c next ≡ (ok tt, q)
      → (p : RunEventPublisher) × (◌≡◌ {A = Completed} c (ok tt, p)) × (next p ≡ (ok tt, q))
  and_then-eq-ok (ok tt, p) next q h = (p, refl, h)
  and_then-eq-ok (err e, p) next q h = absurd (raised-not_ok e p q h)

  -- the events are in the log, and the publisher stands at the last one
  abbrev pub AreStored : List RunEvent → RunEventPublisher → RunEventPublisher → Type 0
  AreStored events p q =
      (q.log.events ≡ p.log.events ++ events)
      × (last_sequence q.log.events ≡ last_sequence p.log.events + length events)
      × IsAligned q

  pub first-AreStored :
      (e : RunEvent) (es : List RunEvent) (p q : RunEventPublisher)
      → p.projection.resource.latest_sequence ≤ last_sequence p.log.events
      → IsNumberedFrom (last_sequence p.log.events + 1) (e ∷ es)
      → store_events validate read str total persist (e ∷ es) p ≡ (ok tt, q)
      → ((r : RunEventPublisher)
          → IsAligned r
          → IsNumberedFrom (last_sequence r.log.events + 1) es
          → store_events validate read str total persist es r ≡ (ok tt, q)
          → AreStored es r q)
      → AreStored (e ∷ es) p q
  unfolding store_events
  first-AreStored e es p q behind (next, numbered) h others =
      let (r, first, k) =
        and_then-eq-ok (store_event validate read str total persist p e)
          (store_events validate read str total persist es) q h in
      let (grown, last, aligned) = store_event-IsAligned p r e behind next first in
      let (more, count, done) =
        others r aligned (subst (λ m. IsNumberedFrom m es) (omega (arith, last, next)) numbered)
          k in
      (
        more ∙ ap (λ (l : List RunEvent). l ++ es) grown ∙ append_assoc p.log.events (e ∷ []) es,
        omega (arith, count, last, next),
        done,
      )

  pub store_events-AreStored :
      (events : List RunEvent) (p q : RunEventPublisher)
      → IsAligned p
      → IsNumberedFrom (last_sequence p.log.events + 1) events
      → store_events validate read str total persist events p ≡ (ok tt, q)
      → AreStored events p q
  unfolding store_events
  store_events-AreStored [] p q a n h =
      subst (AreStored [] p) (ap (λ (o : Completed). o.1) h)
        (sym (append-nil p.log.events), omega arith, a)
  store_events-AreStored (e ∷ es) p q a n h =
      first-AreStored e es p q (omega (arith, a.1)) n h
        (λ r aligned numbered k. store_events-AreStored es r q aligned numbered k)
