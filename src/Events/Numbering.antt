-- ===== src/Events/Numbering.antt =====
-- What an append keeps: the events of a Run are numbered from 1, and one at most is terminal.
use jindiao.Prelude.{
  ℕ, suc, ◌+◌, ◌≤◌, ◌≡◌, ◌⊎◌, inl, inr, refl, sym, ap, ◌∙◌, subst, arith, false, ◌&&◌, leb,
  if◌then◌else◌, List, [], ◌∷◌, ◌++◌, any, length, nonempty, Option, none, some, Bool-cases,
}
use jindiao.Errors.{ok, >>-eq-ok, raise_if, raise_if-eq-ok, ok-injective}
use jindiao.Events.Log.{
  RunEvent, RunLog, is_terminal, last_sequence, append, stored, previous_of, already_stored,
  second_terminal, restore, next_number,
}

-- The events bear the numbers that follow one another from a first one.
abbrev pub IsNumberedFrom : ℕ → List RunEvent → Type 0
IsNumberedFrom n [] = Unit
IsNumberedFrom n (e ∷ es) = (e.sequence ≡ n) × IsNumberedFrom (suc n) es

abbrev pub count_terminal : List RunEvent → ℕ
count_terminal [] = 0
count_terminal (e ∷ es) = if is_terminal e then suc (count_terminal es) else count_terminal es

-- Numbered from 1, with at most one terminal event.
abbrev pub IsLog : List RunEvent → Type 0
IsLog events = IsNumberedFrom 1 events × (count_terminal events ≤ 1)

numbered-append :
    (n : ℕ) (es : List RunEvent) (e : RunEvent)
    → IsNumberedFrom n es
    → e.sequence ≡ n + length es
    → IsNumberedFrom n (es ++ e ∷ [])
numbered-append n [] e h p = (omega (arith, p), tt)
numbered-append n (f ∷ es) e h p = (h.0, numbered-append (suc n) es e h.1 (omega (arith, p)))

pub last_sequence-numbered :
    (n : ℕ) (e : RunEvent) (es : List RunEvent)
    → IsNumberedFrom n (e ∷ es)
    → last_sequence (e ∷ es) ≡ n + length es
unfolding last_sequence
last_sequence-numbered n e [] h = omega (arith, h.0)
last_sequence-numbered n e (f ∷ es) h = last_sequence-numbered (suc n) f es h.1 ∙ omega arith

-- the last number is the number of events
pub last_sequence-length : (es : List RunEvent) → IsNumberedFrom 1 es → last_sequence es ≡ length es
unfolding last_sequence
last_sequence-length [] h = refl
last_sequence-length (e ∷ es) h = omega (arith, last_sequence-numbered 1 e es h)

count_terminal-append :
    (es : List RunEvent) (e : RunEvent)
    → count_terminal (es ++ e ∷ []) ≡ count_terminal es + (if is_terminal e then 1 else 0)
count_terminal-append [] e = ground arith
count_terminal-append (f ∷ es) e = ground (arith, count_terminal-append es e)

count_terminal-none : (es : List RunEvent) → any is_terminal es ≡ false → count_terminal es ≡ 0
count_terminal-none [] h = refl
count_terminal-none (e ∷ es) h = ground (arith, count_terminal-none es)

-- An append returns the stored event of the same id and changes nothing, or stores the event under
-- the next number.
abbrev pub Appended : RunEvent → RunLog → RunEvent × RunLog → Type 0
Appended e log out =
    ((previous_of e log.events ≡ some out.0) × (out.1 ≡ log))
    ⊎ ((e.sequence ≡ last_sequence log.events + 1)
        × (second_terminal e log.events ≡ false)
        × (out ≡ (e, stored e log)))

already-Appended :
    (e : RunEvent) (log : RunLog) (out : RunEvent × RunLog) (p : Option RunEvent)
    → previous_of e log.events ≡ p
    → already_stored log p ≡ ok out
    → Appended e log out
already-Appended e log out none q h = cc
already-Appended e log out (some previous) q h = inl (
  q ∙ ap (λ (o : RunEvent × RunLog). some o.0) (ok-injective h),
  sym (ap (λ (o : RunEvent × RunLog). o.1) (ok-injective h)),
)

pub append-Appended :
    (e : RunEvent) (log : RunLog) (out : RunEvent × RunLog)
    → append e log ≡ ok out
    → Appended e log out
unfolding append
append-Appended e log out h =
    let (guard, h1) = >>-eq-ok (raise_if (second_terminal e log.events) _) _ h in
    elim (Bool-cases (nonempty log.events && leb e.sequence (last_sequence log.events))) [
      | inl t ↦ already-Appended e log out (previous_of e log.events) refl (rw t at h1)
      | inr f ↦
          let (number, done) = >>-eq-ok _ _ (rw f at h1) in
          inr (
            ground (arith, raise_if-eq-ok _ _ number),
            raise_if-eq-ok _ _ guard,
            sym (ok-injective done),
          )
    ]

stored-IsLog :
    (e : RunEvent) (es : List RunEvent)
    → e.sequence ≡ last_sequence es + 1
    → second_terminal e es ≡ false
    → IsLog es
    → IsLog (es ++ e ∷ [])
stored-IsLog e es n t h = (
  numbered-append 1 es e h.0 (omega (arith, n, last_sequence-length es h.0)),
  ground (arith, count_terminal-append es e, count_terminal-none es),
)

Appended-IsLog :
    (e : RunEvent) (log : RunLog) (out : RunEvent × RunLog)
    → IsLog log.events
    → Appended e log out
    → IsLog out.1.events
Appended-IsLog e log out h (inl (p, q)) = subst (λ (l : RunLog). IsLog l.events) (sym q) h
Appended-IsLog e log out h (inr (n, t, q)) =
    subst (λ (o : RunEvent × RunLog). IsLog o.1.events) (sym q) (stored-IsLog e log.events n t h)

-- A successful append keeps the events of a Run numbered from 1 without a gap, with at most one
-- terminal event among them.
pub append-IsLog :
    (e : RunEvent) (log : RunLog) (out : RunEvent × RunLog)
    → IsNumberedFrom 1 log.events
    → count_terminal log.events ≤ 1
    → append e log ≡ ok out
    → IsNumberedFrom 1 out.1.events × (count_terminal out.1.events ≤ 1)
append-IsLog e log out numbered terminal h =
    Appended-IsLog e log out (numbered, terminal) (append-Appended e log out h)

-- A sequencer that was restored to the last number of a log numbers its next event so that the log
-- stores it, unless the event would be a second terminal one.
pub append-restore :
    (e : RunEvent) (log : RunLog) (sequence restored : ℕ)
    → restore (last_sequence log.events) sequence ≡ ok restored
    → e.sequence ≡ (next_number restored).0
    → second_terminal e log.events ≡ false
    → append e log ≡ ok (e, stored e log)
unfolding append restore
append-restore e log sequence restored h n t = ground arith
