-- ===== src/Events/Log.antt =====
-- observability/run_store.py: `InMemoryEventStore`, and contracts/events.py: `EventSequencer`.
-- The dictionaries of the store are modelled under one run id: an operation takes the lock of its
-- event's run, and reads and writes the entries of that run only. A missing entry is an empty one.
use jindiao.Prelude.{
  ℕ, ◌+◌, Bool, not, ◌&&◌, ltb, leb, eqb, if◌then◌else◌, String, ◌==◌, contains, List, [], ◌∷◌,
  ◌++◌, map, any, keep, find, length, nonempty, Option, none, some,
}
use jindiao.Errors.{Reason, Result, ok, err, ◌>>◌, raise_if, value_error}

-- The fields that the store reads; `payload` stands for the others, which it carries.
pub record RunEvent : Type 0 where
  pub event_id : String
  pub event_type : String
  pub run_id : String
  pub sequence : ℕ
  pub payload : String

abbrev pub terminal_types : List String
terminal_types = "run.completed" ∷ "run.partial" ∷ "run.failed" ∷ "run.cancelled" ∷ []

abbrev pub kept_types : List String
kept_types =
    "run.completed" ∷ "run.partial" ∷ "run.failed" ∷ "run.cancelled" ∷ "submission.accepted"
    ∷ "review.submitted" ∷ "execution.plan.created" ∷ "execution.step.completed"
    ∷ "execution.step.failed" ∷ []

unfoldable pub is_terminal : RunEvent → Bool
is_terminal event = contains terminal_types event.event_type

unfoldable pub is_kept : RunEvent → Bool
is_kept event = contains kept_types event.event_type

-- The entries of one run: its events, and the queue of each subscriber, the oldest event first.
pub record RunLog : Type 0 where
  pub events : List RunEvent
  pub queues : List (List RunEvent)
  pub max_queue : ℕ

-- `events[-1].sequence if events else 0`
unfoldable pub last_sequence : List RunEvent → ℕ
last_sequence [] = 0
last_sequence (e ∷ []) = e.sequence
last_sequence (e ∷ f ∷ es) = last_sequence (f ∷ es)

-- `queue.full()`, where a size of 0 means no bound
abbrev pub is_full : ℕ → List RunEvent → Bool
is_full size queue = not (eqb size 0) && leb size (length queue)

abbrev pub drop_first : List RunEvent → List RunEvent
drop_first [] = []
drop_first (e ∷ es) = es

-- The body of the loop over the queues.
unfoldable pub offer : ℕ → RunEvent → List RunEvent → List RunEvent
offer size event queue =
    if is_full size queue
    then (if is_kept event then drop_first queue ++ event ∷ [] else queue)
    else queue ++ event ∷ []

abbrev pub previous_of : RunEvent → List RunEvent → Option RunEvent
previous_of event events = find (λ item. item.event_id == event.event_id) events

abbrev pub already_stored : RunLog → Option RunEvent → Result (RunEvent × RunLog)
already_stored log (some previous) = ok (previous, log)
already_stored log none = err (value_error Reason.sequence_not_monotonic)

abbrev pub stored : RunEvent → RunLog → RunLog
stored event log = record log {
  events = log.events ++ event ∷ [];
  queues = map (offer log.max_queue event) log.queues;
}

abbrev pub second_terminal : RunEvent → List RunEvent → Bool
second_terminal event events = is_terminal event && any is_terminal events

-- `InMemoryEventStore.append`
unfoldable pub append : RunEvent → RunLog → Result (RunEvent × RunLog)
unfolding last_sequence
append event log = do
  raise_if (second_terminal event log.events) (value_error Reason.second_terminal_event)
  if nonempty log.events && leb event.sequence (last_sequence log.events)
      then already_stored log (previous_of event log.events)
      else do
        raise_if (not (eqb event.sequence (last_sequence log.events + 1)))
            (value_error Reason.unexpected_sequence)
        ok (event, stored event log)

-- `InMemoryEventStore.read_after`
abbrev pub read_after : ℕ → List RunEvent → List RunEvent
read_after after events = keep (λ item. ltb after item.sequence) events

-- `_register`
abbrev pub register : RunLog → RunLog
register log = record log { queues = [] ∷ log.queues }

-- `EventSequencer.next`: the next number, and the state
abbrev pub next_number : ℕ → ℕ × ℕ
next_number sequence = (sequence + 1, sequence + 1)

-- `EventSequencer.restore`
unfoldable pub restore : ℕ → ℕ → Result ℕ
restore target sequence = do
  raise_if (ltb target sequence) (value_error Reason.restore_backwards)
  ok target
