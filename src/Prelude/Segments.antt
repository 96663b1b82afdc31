-- ===== src/Prelude/Segments.antt =====
-- Segments of lists, by native numbers: `xs[:n]`, `xs[n:]` and `xs[n]`.
use Prim.Native.Nat.{ℕ, zero, suc, ◌+◌}
use mathlib.Core.Path.{◌≡◌, refl, sym, ap, ◌∙◌}
use mathlib.Core.List.{List, [], ◌∷◌, ◌++◌}
use mathlib.Core.Option.{Option, none, some}
use native.Mathlib.Omega.{arith}
use jindiao.Prelude.Lists.{length}

suc_add : (a b : ℕ) → suc a + b ≡ suc (a + b)
suc_add a b = omega arith

module _ {ℓ} {A : Type ℓ} where
  abbrev pub take : ℕ → List A → List A
  take zero xs = []
  take (suc n) [] = []
  take (suc n) (x ∷ xs) = x ∷ take n xs

  abbrev pub drop : ℕ → List A → List A
  drop zero xs = xs
  drop (suc n) [] = []
  drop (suc n) (x ∷ xs) = drop n xs

  abbrev pub get_elem? : List A → ℕ → Option A
  get_elem? [] n = none
  get_elem? (x ∷ xs) zero = some x
  get_elem? (x ∷ xs) (suc n) = get_elem? xs n

  pub take-suc :
      (n : ℕ) (xs : List A) (x : A)
      → get_elem? xs n ≡ some x
      → take (suc n) xs ≡ take n xs ++ x ∷ []
  take-suc n [] x h = cc
  take-suc zero (y ∷ xs) x h = cc
  take-suc (suc n) (y ∷ xs) x h = ap (λ t. y ∷ t) (take-suc n xs x h)

  take-nil : (n : ℕ) → take n [] ≡ []
  take-nil zero = refl
  take-nil (suc n) = refl

  drop-nil : (n : ℕ) → drop n [] ≡ []
  drop-nil zero = refl
  drop-nil (suc n) = refl

  -- two segments that follow one another
  pub take-append_drop : (a b : ℕ) (xs : List A) → take a xs ++ take b (drop a xs) ≡ take (a + b) xs
  take-append_drop zero b xs = ap (λ k. take k xs) (omega arith)
  take-append_drop (suc a) b [] = take-nil b ∙ sym (take-nil (suc a + b))
  take-append_drop (suc a) b (x ∷ xs) =
      ap (λ t. x ∷ t) (take-append_drop a b xs) ∙ ap (λ k. take k (x ∷ xs)) (sym (suc_add a b))

  pub drop-drop : (a b : ℕ) (xs : List A) → drop b (drop a xs) ≡ drop (a + b) xs
  drop-drop zero b xs = ap (λ k. drop k xs) (omega arith)
  drop-drop (suc a) b [] = drop-nil b ∙ sym (drop-nil (suc a + b))
  drop-drop (suc a) b (x ∷ xs) = drop-drop a b xs ∙ ap (λ k. drop k (x ∷ xs)) (sym (suc_add a b))

  pub get_elem?-drop : (a m : ℕ) (xs : List A) → get_elem? xs (a + m) ≡ get_elem? (drop a xs) m
  get_elem?-drop zero m xs = ap (get_elem? xs) (omega arith)
  get_elem?-drop (suc a) m [] = refl
  get_elem?-drop (suc a) m (x ∷ xs) = ap (get_elem? (x ∷ xs)) (suc_add a m) ∙ get_elem?-drop a m xs

  -- a segment that ends within a prefix of a list is that of the list
  take-of_take :
      (m k : ℕ) (xs : List A) (x : A)
      → get_elem? (take k xs) m ≡ some x
      → take (suc m) (take k xs) ≡ take (suc m) xs
  take-of_take m zero xs x h = cc
  take-of_take m (suc k) [] x h = cc
  take-of_take zero (suc k) (y ∷ xs) x h = refl
  take-of_take (suc m) (suc k) (y ∷ xs) x h = ap (λ t. y ∷ t) (take-of_take m k xs x h)

  pub take-drop-take :
      (a m k : ℕ) (xs : List A) (x : A)
      → get_elem? (drop a (take k xs)) m ≡ some x
      → take (suc m) (drop a (take k xs)) ≡ take (suc m) (drop a xs)
  take-drop-take zero m k xs x h = take-of_take m k xs x h
  take-drop-take (suc a) m zero xs x h = cc
  take-drop-take (suc a) m (suc k) [] x h = cc
  take-drop-take (suc a) m (suc k) (y ∷ xs) x h = take-drop-take a m k xs x h

  take-length-take : (k : ℕ) (xs : List A) → take (length (take k xs)) xs ≡ take k xs
  take-length-take zero xs = refl
  take-length-take (suc k) [] = refl
  take-length-take (suc k) (x ∷ xs) = ap (λ t. x ∷ t) (take-length-take k xs)

  -- what a prefix of a list has after a position is a prefix of what the list has there
  pub take-length-drop :
      (a k : ℕ) (xs : List A) → take (length (drop a (take k xs))) (drop a xs) ≡ drop a (take k xs)
  take-length-drop zero k xs = take-length-take k xs
  take-length-drop (suc a) zero xs = refl
  take-length-drop (suc a) (suc k) [] = refl
  take-length-drop (suc a) (suc k) (x ∷ xs) = take-length-drop a k xs
