-- ===== src/Prelude/Text.antt =====
-- Texts as identifiers: their equality, and the tests that the program makes on sets of them.
-- A Python set is used only through membership, so it stands here as a list.
use Prim.Native.Nat.{ℕ, zero, suc, ◌/◌, ◌%◌}
use Prim.Native.String.{String, compare, ◌++◌ as concat}
use mathlib.Core.Path.{◌≡◌, refl}
use mathlib.Core.Logic.{◌≢◌, ◌↔◌, inl, inr}
use mathlib.Core.Bool.{Bool, true, false, not, ◌&&◌, ◌||◌}
use mathlib.Core.List.{List, [], ◌∷◌, ◌++◌}
use native.Mathlib.Omega.{arith}
use text.Mathlib.Text.{is_le, ◌==◌ as str_eq}
use text.Mathlib.TextEquality.{eq_iff}
use jindiao.Prelude.Tests.{ltb, if◌then◌else◌, Bool-cases, &&-true}
use jindiao.Prelude.Lists.{all, any, nonempty}

infix 50 ◌==◌
unfoldable pub ◌==◌ : String → String → Bool
a == b = str_eq a b

pub ==→eq : (a b : String) → (a == b) ≡ true → a ≡ b
unfolding ◌==◌
==→eq a b = (eq_iff a b).0

pub eq→== : (a b : String) → a ≡ b → (a == b) ≡ true
unfolding ◌==◌
eq→== a b = (eq_iff a b).1

pub ==_refl : (a : String) → (a == a) ≡ true
==_refl a = eq→== a a refl

-- for `ground`, at each pair of texts that is compared
pub ==_iff : (a b : String) → ((a == b) ≡ true) ↔ (a ≡ b)
==_iff a b = (==→eq a b, eq→== a b)

pub ==-false : (a b : String) → (a == b) ≡ false → a ≢ b
==-false a b h e = cc (eq→== a b e)

abbrev decided : (a b : String) (t : Bool) → (a == b) ≡ t → Dec (a ≡ b)
decided a b true h = yes (==→eq a b h)
decided a b false h = no (==-false a b h)

unfoldable pub String_discrete : Discrete String
unfolding ◌==◌
String_discrete a b = decided a b (a == b) refl

-- `x in xs`
unfoldable pub contains : List String → String → Bool
contains [] x = false
contains (y ∷ ys) x = y == x || contains ys x

-- `set(xs) <= set(ys)`, that is, `set(xs) - set(ys)` is empty
unfoldable pub subset : List String → List String → Bool
subset xs ys = all (contains ys) xs

-- the intersection of two sets is not empty
unfoldable pub intersects : List String → List String → Bool
intersects xs ys = any (contains ys) xs

abbrev pub without : String → List String → List String
without x [] = []
without x (y ∷ ys) = let rest = without x ys in if x == y then rest else y ∷ rest

-- `dict.fromkeys(xs)`: each text once, in the order of its first occurrence. Also `set(xs)`.
unfoldable pub distinct : List String → List String
distinct [] = []
distinct (x ∷ xs) = x ∷ without x (distinct xs)

-- `len(xs) == len(set(xs))`
unfoldable pub unique : List String → Bool
unique [] = true
unique (x ∷ xs) = not (contains xs x) && unique xs

abbrev insert : String → List String → List String
insert x [] = x ∷ []
insert x (y ∷ ys) = let rest = insert x ys in if is_le (compare x y) then x ∷ y ∷ ys else y ∷ rest

-- `sorted(xs)`, by code points
unfoldable pub sorted : List String → List String
sorted [] = []
sorted (x ∷ xs) = insert x (sorted xs)

pub contains-append :
    (xs ys : List String) (x : String) → contains (xs ++ ys) x ≡ (contains xs x || contains ys x)
unfolding contains
contains-append [] ys x = refl
contains-append (y ∷ xs) ys x = ground (arith, contains-append xs ys x)

contains-without :
    (x y : String) (xs : List String) → contains (without x xs) y ≡ (not (x == y) && contains xs y)
unfolding contains
contains-without x y [] = ground arith
contains-without x y (z ∷ xs) =
    ground (arith, ==_iff x z, ==_iff z y, ==_iff x y, contains-without x y xs)

pub contains-distinct : (xs : List String) (x : String) → contains (distinct xs) x ≡ contains xs x
unfolding contains distinct
contains-distinct [] x = refl
contains-distinct (y ∷ xs) x =
    rw (contains-without y x (distinct xs)) (ground (arith, contains-distinct xs x))

pub nonempty-distinct : (xs : List String) → nonempty (distinct xs) ≡ nonempty xs
unfolding distinct
nonempty-distinct [] = refl
nonempty-distinct (x ∷ xs) = refl

pub nonempty-sorted : (xs : List String) → nonempty (sorted xs) ≡ nonempty xs
unfolding sorted
nonempty-sorted [] = refl
nonempty-sorted (x ∷ xs) = nonempty-insert x (sorted xs)
  where
    nonempty-insert : (x : String) (xs : List String) → nonempty (insert x xs) ≡ true
    nonempty-insert x [] = refl
    nonempty-insert x (y ∷ ys) = ground arith

-- What a set that is included in another gives for each member.
pub subset-contains :
    (xs ys : List String) (x : String)
    → subset xs ys ≡ true
    → contains xs x ≡ true
    → contains ys x ≡ true
unfolding subset contains
subset-contains [] ys x h m = cc
subset-contains (z ∷ xs) ys x h m = elim (Bool-cases (z == x)) [
  | inl e ↦ rw (← ==→eq z x e) (&&-true _ _ h).0
  | inr n ↦ subset-contains xs ys x (&&-true _ _ h).1 (rw n at m)
]

abbrev digit_of : List String → ℕ → String
digit_of [] n = "9"
digit_of (d ∷ ds) n = elim n [ zero ↦ d | suc m ↦ digit_of ds m ]

abbrev digit : ℕ → String
digit n = digit_of ("0" ∷ "1" ∷ "2" ∷ "3" ∷ "4" ∷ "5" ∷ "6" ∷ "7" ∷ "8" ∷ []) n

abbrev decimal_from : ℕ → ℕ → String
decimal_from zero n = digit n
decimal_from (suc fuel) n =
    let front = decimal_from fuel (n / 10) in
    if ltb n 10 then digit n else concat front (digit (n % 10))

-- `str(n)`: a number has fewer digits than its value, unless it is one digit
unfoldable pub decimal : ℕ → String
decimal n = decimal_from n n

-- A set that has every member of another includes it.
pub contains-subset :
    (xs ys : List String)
    → ((x : String) → contains xs x ≡ true → contains ys x ≡ true)
    → subset xs ys ≡ true
unfolding subset contains
contains-subset [] ys h = refl
contains-subset (x ∷ xs) ys h =
    rw (h x (first (==_refl x)), contains-subset xs ys (λ y m. h y (later y m)))
  where
    first : (x == x) ≡ true → (x == x || contains xs x) ≡ true
    first e = rw e

    later : (y : String) → contains xs y ≡ true → (x == y || contains xs y) ≡ true
    later y m = ground arith

pub subset_refl : (xs : List String) → subset xs xs ≡ true
subset_refl xs = contains-subset xs xs (λ x m. m)
