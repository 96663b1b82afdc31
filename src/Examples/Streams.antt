-- ===== src/Examples/Streams.antt =====
-- observability/run_store.py at a Run of two events.
use Prim.Native.String.{◌++◌ as concat}
use jindiao.Prelude.{
  arith, String, if◌then◌else◌, ℕ, ◌+◌, ◌≤◌, ◌≡◌, refl, ◌==◌, contains, true, false, List, [], ◌∷◌,
  some, length, last?, take,
}
use jindiao.Errors.{Reason, Result, ok, err, validation_error}
use jindiao.Events.Log.{
  RunEvent, RunLog, is_terminal, is_kept, is_full, last_sequence, offer, append, stored, restore,
}
use jindiao.Events.Delivery.{subscribe}
use jindiao.Events.Durable.{
  JsonlLog, check_append, read_lines, load_from_disk, append_line, reopen, write_line,
}
use jindiao.Events.Lines.{ends_line, has_separator, splitlines}
use jindiao.Blackboard.State.{strips_to_nothing}
use jindiao.Events.Numbering.{IsNumberedFrom, count_terminal, append-IsLog, append-restore}
use jindiao.Events.Stream.{subscribe-take}
use jindiao.Events.Queues.{offer-within}
use jindiao.Events.Recovery.{IsReadable, append-check_append, append_line-IsSynced}

abbrev started : RunEvent
started = record {
  event_id = "run:1";
  event_type = "run.started";
  run_id = "run";
  sequence = 1;
  payload = "{}";
}

abbrev completed : RunEvent
completed = record {
  event_id = "run:2";
  event_type = "run.completed";
  run_id = "run";
  sequence = 2;
  payload = "{}";
}

-- one subscriber, whose queue of one place is full
abbrev log : RunLog
log = record { events = started ∷ []; queues = (started ∷ []) ∷ []; max_queue = 1 }

completed_appended : append completed log ≡ ok (completed, stored completed log)
unfolding append is_terminal last_sequence contains ◌==◌
completed_appended = refl

one_started : count_terminal log.events ≤ 1
unfolding is_terminal contains ◌==◌
one_started = omega arith

append-IsLog_example :
    IsNumberedFrom 1 (stored completed log).events
    × (count_terminal (stored completed log).events ≤ 1)
append-IsLog_example =
    append-IsLog completed log (completed, stored completed log) (refl, tt) one_started
      completed_appended

restored : restore (last_sequence log.events) 0 ≡ ok 1
unfolding restore last_sequence
restored = refl

append-restore_example : append completed log ≡ ok (completed, stored completed log)
unfolding is_terminal contains ◌==◌
append-restore_example = append-restore completed log 0 1 restored refl refl

offer-within_example :
    (length (offer 1 completed (started ∷ [])) ≤ 1)
    × (is_kept completed ≡ true → last? (offer 1 completed (started ∷ [])) ≡ some completed)
    × (is_full 1 (started ∷ []) ≡ false
        → offer 1 completed (started ∷ []) ≡ started ∷ completed ∷ [])
offer-within_example = offer-within 1 completed (started ∷ []) (omega arith) (omega arith)

-- the queue has dropped the first event
abbrev both : List RunEvent
both = started ∷ completed ∷ []

subscribe-take_example : (d : ℕ) × (subscribe [] ((both, completed) ∷ []) 0 ≡ (take d both, 0 + d))
subscribe-take_example =
    subscribe-take both [] ((both, completed) ∷ []) 0 0 (refl, (refl, tt)) refl
      ((2, 1, refl, refl, refl), tt)

-- the line of an event: an object that holds its id, by which it is read back
abbrev encode : RunEvent → String
encode e = concat "{\"event_id\":\"" (concat e.event_id "\"}")

abbrev decode : String → Result RunEvent
decode line =
    if line == "{\"event_id\":\"run:1\"}"
    then ok started
    else if line == "{\"event_id\":\"run:2\"}"
    then ok completed
    else err (validation_error Reason.blank_field)

abbrev file : JsonlLog
file = record { content = "{\"event_id\":\"run:1\"}\n"; memory = log }

checked : check_append completed log.events ≡ ok tt
unfolding check_append last_sequence is_terminal contains ◌==◌
checked = refl

append-check_append_example : append completed log ≡ ok (completed, stored completed log)
append-check_append_example = append-check_append completed log checked

abbrev next_file : JsonlLog
next_file = record {
  content = "{\"event_id\":\"run:1\"}\n{\"event_id\":\"run:2\"}\n";
  memory = stored completed log;
}

-- another process writes, which has loaded the first event from the file
abbrev reloaded_file : JsonlLog
reloaded_file = record {
  content = next_file.content;
  memory = record log { events = both; queues = [] };
}

completed_written :
    append_line encode decode completed (reopen file) ≡ ok (completed, reloaded_file)
unfolding append_line load_from_disk write_line splitlines strips_to_nothing check_append append
    last_sequence is_terminal contains ◌==◌
completed_written = refl

completed-IsReadable : IsReadable encode decode completed
unfolding has_separator strips_to_nothing ◌==◌
completed-IsReadable = (refl, refl, refl)

file_ends : ends_line file.content ≡ true
unfolding ends_line
file_ends = refl

append_line-IsSynced_example :
    (ends_line reloaded_file.content ≡ true)
    × (read_lines encode decode reloaded_file.content ≡ ok both)
    × (load_from_disk encode decode (reopen reloaded_file)
        ≡ ok (record (reopen reloaded_file) {
          memory = record (reopen reloaded_file).memory { events = both };
        }))
append_line-IsSynced_example =
    append_line-IsSynced encode decode completed (reopen file) (completed, reloaded_file)
      completed-IsReadable file_ends (λ n. cc n) completed_written

-- `splitlines` also splits where JSON does not escape
split_at_separators : splitlines "a\u{2028}b\u{85}c\r\nd\n" ≡ "a" ∷ "b" ∷ "c" ∷ "d" ∷ []
unfolding splitlines
split_at_separators = refl
