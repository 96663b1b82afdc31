-- ===== src/Assignments/Names.antt =====
-- The names in a canonical plan: checks and tasks that stay distinct, and the dictionary made of them.
use text.Mathlib.TextLemmas.{append_cancel_left}
use jindiao.Prelude.{
  not-true, ◌≡◌, refl, sym, ap, ◌∙◌, List, [], ◌∷◌, map, String, String_discrete, Bool, true, false,
  ◌==◌, ==→eq, eq→==, some, Dict, lookup, put, update, All, unique, contains, keep, &&-true,
  ||-false, ==-false, if◌then◌else◌, lookup-put_self, lookup-put_ne, Bool-cases, inl, inr,
}
use jindiao.Contracts.Catalog.{DueDiligenceCheckDefinition}
use jindiao.Assignments.Plan.{CheckAssignment, task_of}

task_of-injective : (x y : String) → task_of x ≡ task_of y → x ≡ y
unfolding task_of
task_of-injective x y e = append_cancel_left "check:" x y e

abbrev pub definition_ids : List DueDiligenceCheckDefinition → List String
definition_ids ds = map (λ (d : DueDiligenceCheckDefinition). d.check_id) ds

contains-task_of :
    (ids : List String) (x : String) → contains (map task_of ids) (task_of x) ≡ contains ids x
unfolding contains
contains-task_of [] x = refl
contains-task_of (y ∷ ids) x = rw (same_test, contains-task_of ids x)
  where
    same_test : (task_of y == task_of x) ≡ (y == x)
    same_test = elim (Bool-cases (y == x)) [
      | inl p ↦ eq→== _ _ (ap task_of (==→eq y x p)) ∙ sym p
      | inr n ↦ elim (Bool-cases (task_of y == task_of x)) [
        | inl q ↦ absurd (==-false y x n (task_of-injective y x (==→eq _ _ q)))
        | inr q ↦ q ∙ sym n
      ]
    ]

pub unique-task_of : (ids : List String) → unique (map task_of ids) ≡ unique ids
unfolding unique
unique-task_of [] = refl
unique-task_of (x ∷ ids) = rw (contains-task_of ids x, unique-task_of ids)

enabled-contains :
    (ds : List DueDiligenceCheckDefinition) (x : String)
    → contains (definition_ids ds) x ≡ false
    → contains (definition_ids (keep (λ d. d.enabled) ds)) x ≡ false
unfolding contains
enabled-contains [] x h = refl
enabled-contains (d ∷ ds) x h =
    let (here, rest) = ||-false _ _ h in kept d.enabled here (enabled-contains ds x rest)
  where
    kept :
        (e : Bool)
        → (d.check_id == x) ≡ false
        → contains (definition_ids (keep (λ (c : DueDiligenceCheckDefinition). c.enabled) ds)) x
          ≡ false
        → contains
            (definition_ids (
              if e
              then d ∷ keep (λ (c : DueDiligenceCheckDefinition). c.enabled) ds
              else keep (λ (c : DueDiligenceCheckDefinition). c.enabled) ds))
            x
          ≡ false
    kept true h k = rw (h, k)
    kept false h k = k

pub enabled-unique :
    (ds : List DueDiligenceCheckDefinition)
    → unique (definition_ids ds) ≡ true
    → unique (definition_ids (keep (λ d. d.enabled) ds)) ≡ true
unfolding unique
enabled-unique [] h = refl
enabled-unique (d ∷ ds) h =
    let (here, rest) = &&-true _ _ h in
    kept d.enabled (enabled-contains ds d.check_id (not-true _ here)) (enabled-unique ds rest)
  where
    kept :
        (e : Bool)
        → contains
            (definition_ids (keep (λ (c : DueDiligenceCheckDefinition). c.enabled) ds))
            d.check_id
          ≡ false
        → unique (definition_ids (keep (λ (c : DueDiligenceCheckDefinition). c.enabled) ds)) ≡ true
        → unique (
            definition_ids (
              if e
              then d ∷ keep (λ (c : DueDiligenceCheckDefinition). c.enabled) ds
              else keep (λ (c : DueDiligenceCheckDefinition). c.enabled) ds))
          ≡ true
    kept true a k = rw (a, k)
    kept false a k = k

-- A dictionary made of assignments to different checks holds each of them.
abbrev pub IsHeld : Dict String CheckAssignment → CheckAssignment → Type 0
IsHeld d a = lookup String_discrete a.check_id d ≡ some a

abbrev pub entries : List CheckAssignment → Dict String CheckAssignment
entries items = map (λ (a : CheckAssignment). (a.check_id, a)) items

abbrev pub assignment_ids : List CheckAssignment → List String
assignment_ids items = map (λ (a : CheckAssignment). a.check_id) items

lookup-update :
    (items : List CheckAssignment) (d : Dict String CheckAssignment) (id : String)
    → contains (assignment_ids items) id ≡ false
    → lookup String_discrete id (update String_discrete d (entries items))
      ≡ lookup String_discrete id d
unfolding update contains
lookup-update [] d id h = refl
lookup-update (a ∷ items) d id h =
    let (other, rest) = ||-false _ _ h in
    lookup-update items (put String_discrete a.check_id a d) id rest
    ∙ lookup-put_ne String_discrete a.check_id id a d (==-false _ _ other)

pub update-IsHeld :
    (items : List CheckAssignment) (d : Dict String CheckAssignment)
    → unique (assignment_ids items) ≡ true
    → All (IsHeld (update String_discrete d (entries items))) items
unfolding update unique
update-IsHeld [] d u = tt
update-IsHeld (a ∷ items) d u =
    let (here, rest) = &&-true _ _ u in
    (
      lookup-update items (put String_discrete a.check_id a d) a.check_id (not-true _ here)
          ∙ lookup-put_self String_discrete a.check_id a d,
      update-IsHeld items (put String_discrete a.check_id a d) rest,
    )
