-- ===== src/Events/Delivery.antt =====
-- observability/run_store.py: `_subscribe`, what a subscriber is sent for an event of its queue.
use jindiao.Prelude.{ℕ, ◌+◌, ltb, leb, if◌then◌else◌, List, [], ◌∷◌, ◌++◌}
use jindiao.Events.Log.{RunEvent, read_after}

-- The loop over the missed events: what is sent before the event of that number, and the cursor.
unfoldable pub send_missed : ℕ → ℕ → List RunEvent → List RunEvent × ℕ
send_missed after number [] = ([], after)
send_missed after number (missed ∷ rest) =
    let sent = send_missed missed.sequence number rest in
    if leb number missed.sequence then ([], after) else (missed ∷ sent.0, sent.1)

-- `if event.sequence > after: after = event.sequence; yield event`
abbrev pub send_event : RunEvent → List RunEvent × ℕ → List RunEvent × ℕ
send_event event (sent, after) =
    if ltb after event.sequence then (sent ++ event ∷ [], event.sequence) else (sent, after)

-- The body of the loop: what is sent for an event that the queue yields, by the events in the store.
unfoldable pub deliver : List RunEvent → ℕ → RunEvent → List RunEvent × ℕ
unfolding send_missed
deliver events after event =
    if leb event.sequence after
    then ([], after)
    else send_event event (
        if ltb (after + 1) event.sequence
        then send_missed after event.sequence (read_after after events)
        else ([], after))

-- the replay of the history, and the cursor after it
unfoldable pub replay : List RunEvent → ℕ → List RunEvent × ℕ
replay [] after = ([], after)
replay (event ∷ history) after =
    let sent = replay history event.sequence in (event ∷ sent.0, sent.1)

-- What a subscriber is sent for the events that its queue yields, each with the events that the
-- store holds at that moment.
unfoldable pub consume : List (List RunEvent × RunEvent) → ℕ → List RunEvent × ℕ
unfolding deliver
consume [] after = ([], after)
consume ((events, event) ∷ steps) after =
    let sent = deliver events after event in
    let rest = consume steps sent.1 in (sent.0 ++ rest.0, rest.1)

-- `_subscribe`: the replay of the events that the store holds at the start, then the queue.
unfoldable pub subscribe : List RunEvent → List (List RunEvent × RunEvent) → ℕ → List RunEvent × ℕ
unfolding replay consume
subscribe events steps after =
    let history = replay (read_after after events) after in
    let rest = consume steps history.1 in (history.0 ++ rest.0, rest.1)
