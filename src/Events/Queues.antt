-- ===== src/Events/Queues.antt =====
-- What a subscriber's queue keeps of the events that are offered to it.
use jindiao.Prelude.{
  ℕ, ◌+◌, ◌≤◌, ◌≡◌, refl, arith, true, false, List, [], ◌∷◌, ◌++◌, length, length-append, last?,
  some,
}
use jindiao.Events.Log.{RunEvent, is_kept, is_full, drop_first, offer}

last?-append {ℓ} : {A : Type ℓ} (xs : List A) (x : A) → last? (xs ++ x ∷ []) ≡ some x
last?-append [] x = refl
last?-append (y ∷ []) x = refl
last?-append (y ∷ z ∷ xs) x = last?-append (z ∷ xs) x

length-drop_first :
    (q : List RunEvent) (size : ℕ) → 1 ≤ size → length q ≤ size → length (drop_first q) + 1 ≤ size
length-drop_first [] size p h = omega (arith, p)
length-drop_first (e ∷ q) size p h = omega (arith, h)

-- A bounded queue stays within its size, and ends with the event that was offered if there was room
-- or the event is one of those that are never dropped.
pub offer-within :
    (size : ℕ) (event : RunEvent) (q : List RunEvent)
    → 1 ≤ size
    → length q ≤ size
    → (length (offer size event q) ≤ size)
      × (is_kept event ≡ true → last? (offer size event q) ≡ some event)
      × (is_full size q ≡ false → offer size event q ≡ q ++ event ∷ [])
unfolding offer
offer-within size event q p h = (
  ground (
    arith,
    length-append q (event ∷ []),
    length-append (drop_first q) (event ∷ []),
    length-drop_first q size p h,
  ),
  λ k. ground (arith, k, last?-append q event, last?-append (drop_first q) event),
  λ f. rw f refl,
)
