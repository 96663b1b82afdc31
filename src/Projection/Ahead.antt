-- ===== src/Projection/Ahead.antt =====
-- A publisher whose sequencer is ahead of its store: what it publishes is refused.
use jindiao.Prelude.{
  Bool, true, contains, if◌then◌else◌, ℕ, ◌+◌, ◌<◌, ◌≡◌, refl, sym, arith, String, false, ◌&&◌, leb,
  eqb, Bool-cases, inl, inr, nonempty,
}
use jindiao.Errors.{
  Error, Checked, ok, err, value_error, Reason, raise_if, >>-eq-ok, raise_if-eq-ok, ok-injective,
}
use jindiao.Contracts.Json.{JsonValue}
use jindiao.Events.Log.{RunEvent, RunLog, append, last_sequence, second_terminal, stored}
use jindiao.Projection.Publish.{
  EventBody, Published, RunEventPublisher, caught_up, event_of, event_types, publish, publish_next,
  store_and_apply,
}

-- An event that is more than one ahead of the log is refused.
append-ahead :
    (e : RunEvent) (log : RunLog)
    → last_sequence log.events + 1 < e.sequence
    → (error : Error) × (append e log ≡ err error)
unfolding append
append-ahead e log ahead = elim (Bool-cases (second_terminal e log.events)) [
  | inl t ↦ (value_error Reason.second_terminal_event, rw t)
  | inr t ↦ (value_error Reason.unexpected_sequence, rw (t, not_old, not_next))
]
  where
    not_old : (nonempty log.events && leb e.sequence (last_sequence log.events)) ≡ false
    not_old = ground arith

    not_next : eqb e.sequence (last_sequence log.events + 1) ≡ false
    not_next = ground arith

-- An event that is newer than the log is stored under the next number.
pub append-new :
    (e : RunEvent) (log : RunLog) (out : RunEvent × RunLog)
    → last_sequence log.events < e.sequence
    → append e log ≡ ok out
    → (e.sequence ≡ last_sequence log.events + 1) × (out ≡ (e, stored e log))
unfolding append
append-new e log out above h =
    let (guard, h1) = >>-eq-ok (raise_if (second_terminal e log.events) _) _ h in
    let (number, done) = >>-eq-ok _ _ (rw not_old at h1) in
    (ground (arith, raise_if-eq-ok _ _ number), sym (ok-injective done))
  where
    not_old : (nonempty log.events && leb e.sequence (last_sequence log.events)) ≡ false
    not_old = ground arith

-- the sequencer has numbered an event that is not in the log
abbrev pub IsAhead : RunEventPublisher → Type 0
IsAhead p = last_sequence p.log.events < p.sequence

-- the number that `publish` takes
abbrev pub number_of : RunEventPublisher → ℕ
number_of p = caught_up (last_sequence p.log.events) p.sequence + 1

abbrev pub numbered : RunEventPublisher → RunEventPublisher
numbered p = record p { sequence = number_of p }

pub number-above : (p : RunEventPublisher) → last_sequence p.log.events < number_of p
number-above p = ground arith

module _ (validate : String → String → Checked) (read : String → EventBody)
    (str : JsonValue → String) (total : ℕ) where
  abbrev publishes : RunEventPublisher → String → String → Published
  publishes = publish validate read str total

  pub publish-invalid :
      (p : RunEventPublisher) (t x : String) (e : Error)
      → contains event_types t ≡ true
      → validate t x ≡ err e
      → publishes p t x ≡ (err e, numbered p)
  unfolding publish publish_next
  publish-invalid p t x e k h = rw (k, h)

  -- on a publisher that is ahead, whatever is published is refused
  abbrev pub IsRefused : RunEventPublisher → Published → Type 0
  IsRefused p returned =
      (error : Error) × (q : RunEventPublisher) × (returned ≡ (err error, q))
      × (q.log ≡ p.log)
      × IsAhead q

  publish_next-ahead :
      (p : RunEventPublisher) (event : RunEvent) (valid : Checked)
      → last_sequence p.log.events + 1 < event.sequence
      → (error : Error) × (publish_next validate read str total (numbered p) event valid
          ≡ (err error, numbered p))
  unfolding publish_next store_and_apply
  publish_next-ahead p event (err e) ahead = (e, refl)
  publish_next-ahead p event (ok done) ahead =
      let (error, refused) = append-ahead event p.log ahead in (error, rw refused)

  pub publish-ahead :
      (p : RunEventPublisher) (t x : String) → IsAhead p → IsRefused p (publishes p t x)
  unfolding publish
  publish-ahead p t x ahead = chosen (contains event_types t)
    where
      far : last_sequence p.log.events + 1 < number_of p
      far = ground arith

      still_ahead : last_sequence p.log.events < caught_up (last_sequence p.log.events) p.sequence
      still_ahead = ground arith

      chosen :
          (b : Bool)
          → IsRefused p (
              if b
              then publish_next validate read str total
                  (numbered p)
                  (event_of p.run_id (number_of p) t x)
                  (validate t x)
              else (
                err (value_error Reason.unknown_event_type),
                record p { sequence = caught_up (last_sequence p.log.events) p.sequence },
              ))
      chosen true =
          let (error, refused) =
            publish_next-ahead p (event_of p.run_id (number_of p) t x) (validate t x) far in
          (error, numbered p, refused, refl, number-above p)
      chosen false = (value_error Reason.unknown_event_type, _, refl, refl, still_ahead)
