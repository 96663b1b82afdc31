-- ===== src/Events/Stream.antt =====
-- A subscriber is sent the events of the store in order, each once, whatever its queue has dropped.
use native.Mathlib.Numerals.{unary_clauses}
use jindiao.Prelude.{
  ℕ, zero, suc, ◌+◌, ◌-◌, ◌<◌, ◌≡◌, refl, sym, ap, ◌∙◌, subst, arith, false, ltb, leb,
  if◌then◌else◌, List, [], ◌∷◌, ◌++◌, length, Bool-cases, inl, inr, some, take, drop, get_elem?,
  take-suc, take-append_drop, drop-drop, get_elem?-drop, take-drop-take, take-length-drop, All,
}
use jindiao.Events.Log.{RunEvent, read_after}
use jindiao.Events.Delivery.{send_missed, send_event, deliver, consume, replay, subscribe}
use jindiao.Events.Numbering.{IsNumberedFrom}

read_after-numbered :
    (after n : ℕ) (es : List RunEvent) → IsNumberedFrom n es → after < n → read_after after es ≡ es
read_after-numbered after n [] h p = refl
read_after-numbered after n (e ∷ es) h p =
    ground (arith, h.0, read_after-numbered after (suc n) es h.1 (omega (arith, p)))

-- on numbered events the read goes by position
read_after-drop :
    (a n : ℕ) (es : List RunEvent) → IsNumberedFrom (suc n) es → read_after (n + a) es ≡ drop a es
read_after-drop zero n es h = simp unary_clauses (read_after-numbered n (suc n) es h (omega arith))
read_after-drop (suc a) n [] h = refl
read_after-drop (suc a) n (e ∷ es) h = ground (arith, h.0, read_after-drop a (suc n) es h.1)

drop-numbered :
    (a n : ℕ) (es : List RunEvent) → IsNumberedFrom n es → IsNumberedFrom (n + a) (drop a es)
drop-numbered zero n es h = simp unary_clauses h
drop-numbered (suc a) n [] h = tt
drop-numbered (suc a) n (e ∷ es) h =
    subst (λ k. IsNumberedFrom k (drop a es)) (omega arith) (drop-numbered a (suc n) es h.1)

take-numbered : (k n : ℕ) (es : List RunEvent) → IsNumberedFrom n es → IsNumberedFrom n (take k es)
take-numbered zero n es h = tt
take-numbered (suc k) n [] h = tt
take-numbered (suc k) n (e ∷ es) h = (h.0, take-numbered k (suc n) es h.1)

send_missed-take :
    (after m number : ℕ) (es : List RunEvent) (event : RunEvent)
    → IsNumberedFrom (suc after) es
    → number ≡ after + suc m
    → get_elem? es m ≡ some event
    → send_missed after number es ≡ (take m es, after + m)
unfolding send_missed
send_missed-take after m number [] event h p g = cc
send_missed-take after zero number (e ∷ es) event h p g = ground (arith, h.0)
send_missed-take after (suc m) number (e ∷ es) event h p g =
    let next = send_missed-take (suc after) m number es event h.1 (omega (arith, p)) g in
    let next' = subst (λ k. send_missed k number es ≡ (take m es, suc after + m)) (sym h.0) next in
    let late : leb number e.sequence ≡ false = ground (arith, h.0) in
    rw (late, next') (ap (λ k. (e ∷ take m es, k)) (omega arith))

deliver-take :
    (events rest : List RunEvent) (after m : ℕ) (event : RunEvent)
    → read_after after events ≡ rest
    → IsNumberedFrom (suc after) rest
    → event.sequence ≡ after + suc m
    → get_elem? rest m ≡ some event
    → deliver events after event ≡ (take (suc m) rest, event.sequence)
unfolding deliver
deliver-take events rest after m event r h p g =
    let sent = send_missed-take after m event.sequence rest event h p g in
    rw (r, sent, take-suc m rest event g) (finish m rest p g)
  where
    finish :
        (m : ℕ) (rest : List RunEvent)
        → event.sequence ≡ after + suc m
        → get_elem? rest m ≡ some event
        → (if leb event.sequence after
            then ([], after)
            else send_event event
                (if ltb (after + 1) event.sequence then (take m rest, after + m) else ([], after)))
          ≡ (take m rest ++ event ∷ [], event.sequence)
    finish zero rest p g = ground arith
    finish (suc m) rest p g = ground arith

-- An event that the queue yields, with the events in the store at that moment: those are the first
-- of the events that are stored in the end, and the event is among them at its number.
abbrev pub IsServed : List RunEvent → List RunEvent × RunEvent → Type 0
IsServed final (events, event) =
    (k : ℕ) × (m : ℕ) × (events ≡ take k final)
    × (event.sequence ≡ suc m)
    × (get_elem? events m ≡ some event)

-- One delivery: nothing, or the next events up to the one that the queue yields.
deliver-served :
    (final events : List RunEvent) (after : ℕ) (event : RunEvent)
    → IsNumberedFrom 1 final
    → IsServed final (events, event)
    → (d : ℕ) × (deliver events after event ≡ (take d (drop after final), after + d))
unfolding deliver
deliver-served final events after event h (k, m, q, n, g) =
    elim (Bool-cases (leb event.sequence after)) [
      | inl old ↦ (0, rw old (ap (λ t. ([], t)) (omega arith)))
      | inr new ↦
          let m' = m - after in
          let number : event.sequence ≡ after + suc m' = ground arith in
          let numbered : IsNumberedFrom 1 events =
            subst (IsNumberedFrom 1) (sym q) (take-numbered k 1 final h) in
          let found : get_elem? (drop after events) m' ≡ some event =
            sym (get_elem?-drop after m' events)
            ∙ ap (get_elem? events) (omega (arith, n, number))
            ∙ g in
          let read : read_after after events ≡ drop after events =
            subst (λ t. read_after t events ≡ drop after events) (omega arith)
              (read_after-drop after 0 events numbered) in
          let sent =
            deliver-take events (drop after events) after m' event read
              (subst (λ t. IsNumberedFrom t (drop after events)) (omega arith)
                (drop-numbered after 1 events numbered))
              number found in
          (
            suc m',
            sent
                ∙ ap (λ t. (t, event.sequence)) (segment m' found)
                ∙ ap (λ t. (take (suc m') (drop after final), t)) number,
          )
    ]
  where
    segment :
        (i : ℕ)
        → get_elem? (drop after events) i ≡ some event
        → take (suc i) (drop after events) ≡ take (suc i) (drop after final)
    segment i found =
        ap (λ l. take (suc i) (drop after l)) q
        ∙ take-drop-take after i k final event
            (subst (λ l. get_elem? (drop after l) i ≡ some event) q found)

-- two segments that follow one another
joined :
    (final : List RunEvent) (after d d' : ℕ)
    → ◌≡◌ {A = List RunEvent × ℕ}
        (take d (drop after final) ++ take d' (drop (after + d) final), after + d + d')
        (take (d + d') (drop after final), after + (d + d'))
joined final after d d' =
    ap (λ t. (take d (drop after final) ++ take d' t, after + d + d'))
      (sym (drop-drop after d final))
    ∙ ap (λ t. (t, after + d + d')) (take-append_drop d d' (drop after final))
    ∙ ap (λ t. (take (d + d') (drop after final), t)) (omega arith)

-- a subscription from its cursor on
consume-take :
    (final : List RunEvent) (steps : List (List RunEvent × RunEvent)) (after : ℕ)
    → IsNumberedFrom 1 final
    → All (IsServed final) steps
    → (d : ℕ) × (consume steps after ≡ (take d (drop after final), after + d))
unfolding consume
consume-take final [] after h s = (0, ap (λ k. ([], k)) (omega arith))
consume-take final ((events, event) ∷ steps) after h s =
    let (d, p) = deliver-served final events after event h s.0 in
    let (d', q) = consume-take final steps (after + d) h s.1 in
    (d + d', rw (p, q) (joined final after d d'))

replay-numbered :
    (after : ℕ) (es : List RunEvent)
    → IsNumberedFrom (suc after) es
    → replay es after ≡ (es, after + length es)
unfolding replay
replay-numbered after [] h = ap (λ t. ([], t)) (omega arith)
replay-numbered after (e ∷ es) h =
    let rest =
      subst (λ k. replay es k ≡ (es, suc after + length es)) (sym h.0)
        (replay-numbered (suc after) es h.1) in
    rw rest (ap (λ t. (e ∷ es, t)) (omega arith))

-- the history is a segment of the final events, whenever it is read
replay-take :
    (final events : List RunEvent) (k after : ℕ)
    → IsNumberedFrom 1 final
    → events ≡ take k final
    → (d : ℕ) × (replay (read_after after events) after ≡ (take d (drop after final), after + d))
replay-take final events k after h q =
    let numbered : IsNumberedFrom 1 events =
      subst (IsNumberedFrom 1) (sym q) (take-numbered k 1 final h) in
    let read : read_after after events ≡ drop after events =
      subst (λ t. read_after t events ≡ drop after events) (omega arith)
        (read_after-drop after 0 events numbered) in
    let rest : IsNumberedFrom (suc after) (drop after events) =
      subst (λ t. IsNumberedFrom t (drop after events)) (omega arith)
        (drop-numbered after 1 events numbered) in
    let segment : take (length (drop after events)) (drop after final) ≡ drop after events =
      subst (λ l. take (length (drop after l)) (drop after final) ≡ drop after l) (sym q)
        (take-length-drop after k final) in
    (
      length (drop after events),
      ap (λ l. replay l after) read
          ∙ replay-numbered after (drop after events) rest
          ∙ ap (λ l. (l, after + length (drop after events))) (sym segment),
    )

-- Whatever a subscriber's queue drops, repeats or reorders, and whenever its subscription starts,
-- what the subscriber is sent is a segment of the stored events right after its cursor: no event is
-- left out, sent twice or out of order.
pub subscribe-take :
    (final events : List RunEvent) (steps : List (List RunEvent × RunEvent)) (k after : ℕ)
    → IsNumberedFrom 1 final
    → events ≡ take k final
    → All (IsServed final) steps
    → (d : ℕ) × (subscribe events steps after ≡ (take d (drop after final), after + d))
unfolding subscribe
subscribe-take final events steps k after h q s =
    let (d, p) = replay-take final events k after h q in
    let (d', p') = consume-take final steps (after + d) h s in
    (d + d', rw (p, p') (joined final after d d'))
