-- ===== src/Events/Recovery.antt =====
-- What is on disk is what is in memory, and a process that opens the file again finds it.
use Prim.Native.String.{◌++◌ as concat}
use jindiao.Prelude.{
  ◌≡◌, String, refl, ap, subst, arith, Bool, true, false, not, List, [], ◌∷◌, ◌++◌, keep, any,
  nonempty, Option, none, some, Bool-cases, inl, inr,
}
use jindiao.Errors.{Result, ok, traverse, >>=-eq-ok, >>-eq-ok, ok-injective}
use jindiao.Blackboard.State.{strips_to_nothing}
use jindiao.Events.Lines.{
  ends_line, ends_line-append, has_separator, splitlines, splitlines-append, splitlines-line,
}
use jindiao.Events.Log.{RunEvent, RunLog, last_sequence, append, stored, previous_of, is_terminal}
use jindiao.Events.Durable.{
  JsonlLog, check_append, read_lines, load_from_disk, write_line, append_new, append_line, reopen,
}

empty-log :
    (events : List RunEvent)
    → nonempty events ≡ false
    → (last_sequence events ≡ 0) × (any is_terminal events ≡ false)
unfolding last_sequence
empty-log [] h = (refl, refl)
empty-log (e ∷ es) h = absurd (cc h)

-- The checks before the write are enough for the store in memory: once a line is written, the event
-- is stored in memory too.
pub append-check_append :
    (event : RunEvent) (log : RunLog)
    → check_append event log.events ≡ ok tt
    → append event log ≡ ok (event, stored event log)
unfolding append check_append last_sequence
append-check_append event log h = ground (arith, empty-log log.events)

traverse-snoc {ℓ κ} :
    {A : Type ℓ} {B : Type κ} (f : A → Result B) (xs : List A) (x : A) (ys : List B) (y : B)
    → traverse f xs ≡ ok ys
    → f x ≡ ok y
    → traverse f (xs ++ x ∷ []) ≡ ok (ys ++ y ∷ [])
traverse-snoc f [] x ys y h p = rw (p, ← ok-injective h) refl
traverse-snoc {B = B} f (z ∷ xs) x ys y h p =
    let (w, e, h1) = >>=-eq-ok (f z) _ h in
    let (rest, e', h2) = >>=-eq-ok (traverse f xs) _ h1 in
    rw (e, traverse-snoc f xs x rest y e' p)
      (ap (λ (t : List B). ok (t ++ y ∷ [])) (ok-injective h2))

keep-snoc {ℓ} :
    {A : Type ℓ} (p : A → Bool) (xs : List A) (x : A)
    → p x ≡ true
    → keep p (xs ++ x ∷ []) ≡ keep p xs ++ x ∷ []
keep-snoc p [] x h = rw h refl
keep-snoc p (y ∷ xs) x h = ground (arith, keep-snoc p xs x h)

-- what a line is split from and read back as
abbrev pub IsReadable : (RunEvent → String) → (String → Result RunEvent) → RunEvent → Type 0
IsReadable encode decode event =
    (decode (encode event) ≡ ok event)
    × (has_separator (encode event) ≡ false)
    × (strips_to_nothing (encode event) ≡ false)

module _ (encode : RunEvent → String) (decode : String → Result RunEvent) where
  -- the file ends a line and holds the events in memory
  abbrev pub IsSynced : JsonlLog → Type 0
  IsSynced store =
      (ends_line store.content ≡ true)
      × (read_lines encode decode store.content ≡ ok store.memory.events)

  -- A readable line after whole lines is read after them.
  read_lines-append :
      (event : RunEvent) (content : String) (events : List RunEvent)
      → IsReadable encode decode event
      → ends_line content ≡ true
      → read_lines encode decode content ≡ ok events
      → read_lines encode decode (concat content (concat (encode event) "\n"))
        ≡ ok (events ++ event ∷ [])
  read_lines-append event content events (trip, plain, full) ends s =
      rw
        (
          splitlines-append content (concat (encode event) "\n") ends,
          splitlines-line (encode event) plain,
          keep-snoc (λ l. not (strips_to_nothing l)) (splitlines content) (encode event)
              (ap not full),
        )
        (traverse-snoc decode (keep (λ l. not (strips_to_nothing l)) (splitlines content))
          (encode event) events event s trip)

  load-IsSynced :
      (store loaded : JsonlLog)
      → load_from_disk encode decode store ≡ ok loaded
      → ends_line store.content ≡ true
      → (nonempty store.memory.events ≡ true → IsSynced store)
      → IsSynced loaded
  unfolding load_from_disk
  load-IsSynced store loaded h ends s = elim (Bool-cases (nonempty store.memory.events)) [
    | inl n ↦ subst IsSynced (ok-injective (rw n at h)) (s n)
    | inr n ↦
        let (events, e, h1) = >>=-eq-ok (read_lines encode decode store.content) _ (rw n at h) in
        subst IsSynced (ok-injective h1) (ends, e)
  ]

  written-IsSynced :
      (event : RunEvent) (store : JsonlLog) (out : RunEvent × JsonlLog)
      → IsReadable encode decode event
      → IsSynced store
      → check_append event store.memory.events ≡ ok tt
      → write_line encode decode event store ≡ ok out
      → IsSynced out.1
  unfolding write_line
  written-IsSynced event store out readable (ends, s) c h =
      let next = append-check_append event store.memory c in
      subst (λ (o : RunEvent × JsonlLog). IsSynced o.1) (ok-injective (rw next at h))
        (
          ends_line-append store.content (encode event),
          read_lines-append event store.content store.memory.events readable ends s,
        )

  appended-IsSynced :
      (event : RunEvent) (store : JsonlLog) (out : RunEvent × JsonlLog) (held : Option RunEvent)
      → IsReadable encode decode event
      → IsSynced store
      → append_new encode decode event store held ≡ ok out
      → IsSynced out.1
  appended-IsSynced event store out (some previous) readable s h =
      subst (λ (o : RunEvent × JsonlLog). IsSynced o.1) (ok-injective h) s
  appended-IsSynced event store out none readable s h =
      let (c, h1) = >>-eq-ok (check_append event store.memory.events) _ h in
      written-IsSynced event store out readable s c h1

  -- Where the line of the event reads back as the event, is not blank, and holds no character at
  -- which `splitlines` splits, and where the text of the file is empty or ends with a line feed, a
  -- successful append keeps the file and the memory of a process the same, also when the process has
  -- just opened the file: the text ends with a line feed again, and another process that opens the
  -- file, splits it into lines and reads them then loads just the events in memory.
  pub append_line-IsSynced :
      (event : RunEvent) (store : JsonlLog) (out : RunEvent × JsonlLog)
      → IsReadable encode decode event
      → ends_line store.content ≡ true
      → (nonempty store.memory.events ≡ true
          → read_lines encode decode store.content ≡ ok store.memory.events)
      → append_line encode decode event store ≡ ok out
      → (ends_line out.1.content ≡ true)
        × (read_lines encode decode out.1.content ≡ ok out.1.memory.events)
        × (load_from_disk encode decode (reopen out.1)
            ≡ ok (record (reopen out.1) {
              memory = record (reopen out.1).memory { events = out.1.memory.events };
            }))
  unfolding append_line load_from_disk
  append_line-IsSynced event store out readable ends s h =
      let (loaded, l, h1) = >>=-eq-ok (load_from_disk encode decode store) _ h in
      let (ended, synced) =
        appended-IsSynced event loaded out (previous_of event loaded.memory.events) readable
          (load-IsSynced store loaded l ends (λ n. (ends, s n))) h1 in
      (ended, synced, rw synced refl)
