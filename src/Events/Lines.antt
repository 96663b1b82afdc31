-- ===== src/Events/Lines.antt =====
-- The lines of a text file as observability/run_store.py reads them: Python's `str.splitlines`, by its
-- documented line boundaries, and the texts that it splits where they were written. `read_text` turns
-- a carriage return, with or without a line feed, into a line feed, which leaves the lines the same.
use Prim.Native.Char.{Char, code}
use Prim.Native.String.{◌++◌ as concat}
use text.Mathlib.TextLemmas.{nil-append, cons-append, append_assoc}
use jindiao.Prelude.{
  ℕ, ◌≡◌, refl, ap, sym, ◌∙◌, arith, String, Bool, true, false, ◌&&◌, ◌||◌, if◌then◌else◌, List, [],
  ◌∷◌, ◌++◌, any, eqb, nonempty, ||-false,
}

-- The boundaries: line feed, vertical tab, form feed, carriage return, the file, group and record
-- separators, next line, and the line and paragraph separators of Unicode.
abbrev pub is_separator : ℕ → Bool
is_separator c = any (eqb c) (10 ∷ 11 ∷ 12 ∷ 13 ∷ 28 ∷ 29 ∷ 30 ∷ 133 ∷ 8232 ∷ 8233 ∷ [])

abbrev pub starts_with_feed : String → Bool
starts_with_feed String.[] = false
starts_with_feed (String.◌∷◌ c s) = eqb (code c) 10

-- a character before the lines of the rest
abbrev pub on_first : Char → List String → List String
on_first c [] = String.◌∷◌ c "" ∷ []
on_first c (l ∷ ls) = String.◌∷◌ c l ∷ ls

-- A carriage return before a line feed is part of one boundary with it.
abbrev pub before_lines : Char → Bool → List String → List String
before_lines c feed rest =
    if eqb (code c) 13 && feed
    then rest
    else if is_separator (code c)
    then "" ∷ rest
    else on_first c rest

unfoldable pub splitlines : String → List String
splitlines String.[] = []
splitlines (String.◌∷◌ c s) = before_lines c (starts_with_feed s) (splitlines s)

unfoldable pub has_separator : String → Bool
has_separator String.[] = false
has_separator (String.◌∷◌ c s) = let rest = has_separator s in is_separator (code c) || rest

-- the text is empty or its last character is a line feed
unfoldable pub ends_line : String → Bool
ends_line String.[] = true
ends_line (String.◌∷◌ c String.[]) = eqb (code c) 10
ends_line (String.◌∷◌ c (String.◌∷◌ d s)) = ends_line (String.◌∷◌ d s)

starts_with_feed-append :
    (d : Char) (s t : String)
    → starts_with_feed (concat (String.◌∷◌ d s) t) ≡ starts_with_feed (String.◌∷◌ d s)
starts_with_feed-append d s t = ap starts_with_feed (cons-append d s t)

before_lines-nonempty :
    (c : Char) (feed : Bool) (rest : List String)
    → (feed ≡ true → nonempty rest ≡ true)
    → nonempty (before_lines c feed rest) ≡ true
before_lines-nonempty c feed [] h = ground arith
before_lines-nonempty c feed (l ∷ ls) h = ground arith

-- the first character of a text is on a line
splitlines-nonempty : (c : Char) (s : String) → nonempty (splitlines (String.◌∷◌ c s)) ≡ true
unfolding splitlines
splitlines-nonempty c String.[] = before_lines-nonempty c false [] (λ h. cc h)
splitlines-nonempty c (String.◌∷◌ d s) =
    before_lines-nonempty c _ (splitlines (String.◌∷◌ d s)) (λ h. splitlines-nonempty d s)

on_first-append :
    (c : Char) (xs ys : List String)
    → nonempty xs ≡ true
    → on_first c (xs ++ ys) ≡ on_first c xs ++ ys
on_first-append c [] ys h = absurd (cc h)
on_first-append c (x ∷ xs) ys h = refl

before_lines-append :
    (c : Char) (feed : Bool) (xs ys : List String)
    → nonempty xs ≡ true
    → before_lines c feed (xs ++ ys) ≡ before_lines c feed xs ++ ys
before_lines-append c feed xs ys h = ground (arith, on_first-append c xs ys h)

feed-lines :
    (c : Char) (feed : Bool) (ys : List String)
    → eqb (code c) 10 ≡ true
    → before_lines c feed ys ≡ "" ∷ ys
feed-lines c feed ys h = ground arith

-- What is appended to a text that ends a line is split by itself.
pub splitlines-append :
    (s t : String) → ends_line s ≡ true → splitlines (concat s t) ≡ splitlines s ++ splitlines t
unfolding splitlines ends_line
splitlines-append String.[] t h = ap splitlines (nil-append t)
splitlines-append (String.◌∷◌ c String.[]) t h =
    rw (cons-append c "" t, nil-append t)
      (feed-lines c (starts_with_feed t) (splitlines t) h
        ∙ ap (λ (l : List String). l ++ splitlines t) (sym (feed-lines c false [] h)))
splitlines-append (String.◌∷◌ c (String.◌∷◌ d s)) t h =
    rw
      (
        cons-append c (String.◌∷◌ d s) t,
        starts_with_feed-append d s t,
        splitlines-append (String.◌∷◌ d s) t h,
      )
      (before_lines-append c (starts_with_feed (String.◌∷◌ d s)) (splitlines (String.◌∷◌ d s))
        (splitlines t) (splitlines-nonempty d s))

plain-lines :
    (c : Char) (feed : Bool) (l : String)
    → is_separator (code c) ≡ false
    → before_lines c feed (l ∷ []) ≡ String.◌∷◌ c l ∷ []
plain-lines c feed l h = ground arith

-- A text without a boundary, written with a line feed, is one line.
pub splitlines-line : (l : String) → has_separator l ≡ false → splitlines (concat l "\n") ≡ l ∷ []
unfolding splitlines has_separator
splitlines-line String.[] h = refl
splitlines-line (String.◌∷◌ c l) h =
    let (plain, rest) = ||-false (is_separator (code c)) (has_separator l) h in
    rw (cons-append c l "\n", splitlines-line l rest)
      (plain-lines c (starts_with_feed (concat l "\n")) l plain)

ends_line-feed : (s : String) → ends_line (concat s "\n") ≡ true
unfolding ends_line
ends_line-feed String.[] = refl
ends_line-feed (String.◌∷◌ c String.[]) = rw (cons-append c "" "\n") refl
ends_line-feed (String.◌∷◌ c (String.◌∷◌ d s)) =
    rw (cons-append c (String.◌∷◌ d s) "\n", cons-append d s "\n")
      (ap ends_line (sym (cons-append d s "\n")) ∙ ends_line-feed (String.◌∷◌ d s))

-- A line that is written with a line feed leaves a text that ends a line.
pub ends_line-append : (s l : String) → ends_line (concat s (concat l "\n")) ≡ true
ends_line-append s l = ap ends_line (sym (append_assoc s l "\n")) ∙ ends_line-feed (concat s l)
