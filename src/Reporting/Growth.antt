-- ===== src/Reporting/Growth.antt =====
-- One iteration of the loop over the Evidence: how the set and the pending identities grow.
use jindiao.Prelude.{
  ◌≡◌, ◌⊎◌, inl, inr, refl, subst, arith, String, String_discrete, Bool, true, false, ==_refl,
  ==_iff, contains, if◌then◌else◌, List, [], ◌∷◌,
}
use jindiao.Reporting.Lineage.{Walk, add_parent, add_parents}
use jindiao.Reporting.Fuel.{IsIncluded}

-- What `add_parents` does: the set and the list grow by the parents that are new.
pub record IsGrown (parents : List String) (w v : Walk) : Type 0 where
  pub grown_refs : IsIncluded w.refs v.refs
  pub grown_pending : IsIncluded w.pending v.pending
  pub has_parents : IsIncluded parents v.refs
  pub added :
      (x : String)
      → contains v.refs x ≡ true
      → (contains w.refs x ≡ true) ⊎ (contains v.pending x ≡ true)
  pub no_others :
      (x : String)
      → contains v.refs x ≡ true
      → (contains w.refs x ≡ true) ⊎ (contains parents x ≡ true)
  pub no_others_pending :
      (x : String)
      → contains v.pending x ≡ true
      → (contains w.pending x ≡ true) ⊎ (contains parents x ≡ true)

pub head_included : (x : String) (xs : List String) → contains (x ∷ xs) x ≡ true
unfolding contains
head_included x xs = rw (==_refl x)

pub tail-IsIncluded : (x : String) (xs : List String) → IsIncluded xs (x ∷ xs)
unfolding contains
tail-IsIncluded x xs y m = ground arith

pub in_cons :
    (x : String) (xs : List String) (y : String)
    → contains (x ∷ xs) y ≡ true
    → (x ≡ y) ⊎ (contains xs y ≡ true)
unfolding contains
in_cons x xs y m = elim (String_discrete x y) [ yes p ↦ inl p | no n ↦ inr (rest n) ]
  where
    rest : (x ≡ y → ⊥) → contains xs y ≡ true
    rest n = ground (arith, ==_iff x y)

pub no_members : (x : String) → contains [] x ≡ true → ⊥
unfolding contains
no_members x m = cc m

is_head : (x : String) (xs : List String) (y : String) → x ≡ y → contains (x ∷ xs) y ≡ true
is_head x xs y p = subst (λ z. contains (x ∷ xs) z ≡ true) p (head_included x xs)

-- a parent that the set has already
known-IsGrown :
    (parent : String) (w : Walk) → contains w.refs parent ≡ true → IsGrown (parent ∷ []) w w
known-IsGrown parent w known = record {
  grown_refs = λ x m. m;
  grown_pending = λ x m. m;
  has_parents = λ x m. member x (in_cons parent [] x m);
  added = λ x m. inl m;
  no_others = λ x m. inl m;
  no_others_pending = λ x m. inl m;
}
  where
    member : (x : String) → (parent ≡ x) ⊎ (contains [] x ≡ true) → contains w.refs x ≡ true
    member x (inl p) = subst (λ y. contains w.refs y ≡ true) p known
    member x (inr m) = absurd (no_members x m)

abbrev with_parent : String → Walk → Walk
with_parent parent w = record { refs = parent ∷ w.refs; pending = parent ∷ w.pending }

new-IsGrown : (parent : String) (w : Walk) → IsGrown (parent ∷ []) w (with_parent parent w)
new-IsGrown parent w = record {
  grown_refs = tail-IsIncluded parent w.refs;
  grown_pending = tail-IsIncluded parent w.pending;
  has_parents = λ x m. elim (in_cons parent [] x m) [
    | inl p ↦ is_head parent w.refs x p
    | inr n ↦ absurd (no_members x n)
  ];
  added = λ x m. elim (in_cons parent w.refs x m) [
    | inl p ↦ inr (is_head parent w.pending x p)
    | inr n ↦ inl n
  ];
  no_others = λ x m. elim (in_cons parent w.refs x m) [
    | inl p ↦ inr (is_head parent [] x p)
    | inr n ↦ inl n
  ];
  no_others_pending = λ x m. elim (in_cons parent w.pending x m) [
    | inl p ↦ inr (is_head parent [] x p)
    | inr n ↦ inl n
  ];
}

add_parent-IsGrown : (parent : String) (w : Walk) → IsGrown (parent ∷ []) w (add_parent parent w)
add_parent-IsGrown parent w = chosen (contains w.refs parent) refl
  where
    chosen :
        (b : Bool)
        → contains w.refs parent ≡ b
        → IsGrown (parent ∷ []) w (if b then w else with_parent parent w)
    chosen true e = known-IsGrown parent w e
    chosen false e = new-IsGrown parent w

pub add_parents-IsGrown :
    (parents : List String) (w : Walk) → IsGrown parents w (add_parents parents w)
unfolding add_parents
add_parents-IsGrown [] w = record {
  grown_refs = λ x m. m;
  grown_pending = λ x m. m;
  has_parents = λ x m. absurd (no_members x m);
  added = λ x m. inl m;
  no_others = λ x m. inl m;
  no_others_pending = λ x m. inl m;
}
add_parents-IsGrown (parent ∷ parents) w =
    let one = add_parent-IsGrown parent w in
    let more = add_parents-IsGrown parents (add_parent parent w) in
    record {
      grown_refs = λ x m. more.grown_refs x (one.grown_refs x m);
      grown_pending = λ x m. more.grown_pending x (one.grown_pending x m);
      has_parents = λ x m. elim (in_cons parent parents x m) [
        | inl p ↦ more.grown_refs x (one.has_parents x (is_head parent [] x p))
        | inr n ↦ more.has_parents x n
      ];
      added = λ x m. elim (more.added x m) [
        | inr n ↦ inr n
        | inl n ↦ elim (one.added x n) [ inl o ↦ inl o | inr o ↦ inr (more.grown_pending x o) ]
      ];
      no_others = λ x m. elim (more.no_others x m) [
        | inr n ↦ inr (tail-IsIncluded parent parents x n)
        | inl n ↦ elim (one.no_others x n) [
          | inl o ↦ inl o
          | inr o ↦ elim (in_cons parent [] x o) [
            | inl p ↦ inr (is_head parent parents x p)
            | inr q ↦ absurd (no_members x q)
          ]
        ]
      ];
      no_others_pending = λ x m. elim (more.no_others_pending x m) [
        | inr n ↦ inr (tail-IsIncluded parent parents x n)
        | inl n ↦ elim (one.no_others_pending x n) [
          | inl o ↦ inl o
          | inr o ↦ elim (in_cons parent [] x o) [
            | inl p ↦ inr (is_head parent parents x p)
            | inr q ↦ absurd (no_members x q)
          ]
        ]
      ];
    }
