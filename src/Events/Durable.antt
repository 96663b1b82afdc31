-- ===== src/Events/Durable.antt =====
-- observability/run_store.py: `JsonlEventStore`, under one run id. The JSON text of an event and the
-- reading of a line as an event, which the standard library and pydantic do, are parameters.
use Prim.Native.String.{◌++◌ as concat}
use jindiao.Prelude.{
  ◌+◌, String, not, eqb, if◌then◌else◌, List, [], keep, nonempty, Option, none, some,
}
use jindiao.Errors.{Reason, Result, Checked, ok, ◌>>=◌, ◌>>◌, raise_if, traverse, value_error}
use jindiao.Blackboard.State.{strips_to_nothing}
use jindiao.Events.Lines.{splitlines}
use jindiao.Events.Log.{RunEvent, RunLog, last_sequence, append, previous_of, second_terminal}

-- `content` is the text of the file, and empty where there is no file.
pub record JsonlLog : Type 0 where
  pub content : String
  pub memory : RunLog

-- The checks that come before the line is written.
unfoldable pub check_append : RunEvent → List RunEvent → Checked
check_append event existing =
    if nonempty existing
    then (do
      raise_if (not (eqb event.sequence (last_sequence existing + 1)))
          (value_error Reason.unexpected_sequence)
      raise_if (second_terminal event existing) (value_error Reason.second_terminal_event))
    else raise_if (not (eqb event.sequence 1)) (value_error Reason.unexpected_sequence)

module _ (encode : RunEvent → String) (decode : String → Result RunEvent) where
  -- the events of the file: a line for which `line.strip()` is empty is skipped
  abbrev pub read_lines : String → Result (List RunEvent)
  read_lines content =
      traverse decode (keep (λ line. not (strips_to_nothing line)) (splitlines content))

  -- `_load_from_disk`
  unfoldable pub load_from_disk : JsonlLog → Result JsonlLog
  unfolding splitlines strips_to_nothing
  load_from_disk store =
      if nonempty store.memory.events
      then ok store
      else read_lines store.content >>= λ events.
          ok (record store { memory = record store.memory { events = events } })

  -- The line is written before the event is stored in memory.
  unfoldable pub write_line : RunEvent → JsonlLog → Result (RunEvent × JsonlLog)
  write_line event store = append event store.memory >>= λ out. ok (
    out.0,
    record { content = concat store.content (concat (encode event) "\n"); memory = out.1 },
  )

  abbrev pub append_new : RunEvent → JsonlLog → Option RunEvent → Result (RunEvent × JsonlLog)
  append_new event store (some previous) = ok (previous, store)
  append_new event store none = do check_append event store.memory.events; write_line event store

  -- `JsonlEventStore.append`
  unfoldable pub append_line : RunEvent → JsonlLog → Result (RunEvent × JsonlLog)
  unfolding load_from_disk write_line
  append_line event store = do
    loaded ← load_from_disk store
    append_new event loaded (previous_of event loaded.memory.events)

-- The process ends, and another one opens the file.
abbrev pub reopen : JsonlLog → JsonlLog
reopen store = record store {
  memory = record { events = []; queues = []; max_queue = store.memory.max_queue };
}
