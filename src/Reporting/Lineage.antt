-- ===== src/Reporting/Lineage.antt =====
-- reporting/product_assembler.py: the references of a report, and the loop that adds the Evidence that
-- they are derived from. `str`, the text of a JSON value by Python's `str`, is a parameter.
use jindiao.Prelude.{
  ℕ, ◌+◌, String, String_discrete, not, ◌||◌, ◌==◌, contains, if◌then◌else◌, List, [], ◌∷◌, ◌++◌,
  map, keep, gather, length, Option, none, some, Dict, lookup,
}
use jindiao.Errors.{Reason, Result, ok, err, value_error}
use jindiao.Contracts.Json.{JsonValue, JsonItems, JsonFields}

-- The fields of a `ProductEvidence` that the loop reads.
pub record ProductEvidence : Type 0 where
  pub id : String
  pub derived_from : List String

module _ (str : JsonValue → String) where
  abbrev texts_of : JsonItems → List String
  texts_of JsonItems.no_items = []
  texts_of (JsonItems.item value rest) = str value ∷ texts_of rest

  abbrev own_references : String → JsonValue → List String
  own_references key (JsonValue.array items) =
      if key == "evidence_ids" || key == "derived_from" then texts_of items else []
  own_references key (JsonValue.text id) = if key == "evidence_id" then id ∷ [] else []
  own_references key _ = []

-- `_referenced`
unfoldable mutual
  pub referenced : (JsonValue → String) → JsonValue → List String
  referenced str (JsonValue.object fields) = referenced_fields str fields
  referenced str (JsonValue.array items) = referenced_items str items
  referenced str _ = []

  pub referenced_items : (JsonValue → String) → JsonItems → List String
  referenced_items str JsonItems.no_items = []
  referenced_items str (JsonItems.item value rest) =
      referenced str value ++ referenced_items str rest

  pub referenced_fields : (JsonValue → String) → JsonFields → List String
  referenced_fields str JsonFields.no_fields = []
  referenced_fields str (JsonFields.field key value rest) =
      own_references str key value ++ referenced str value ++ referenced_fields str rest

-- `refs` and `pending`; `pop` takes the first of `pending`, and `append` adds there.
pub record Walk : Type 0 where
  pub refs : List String
  pub pending : List String

abbrev pub add_parent : String → Walk → Walk
add_parent parent w =
    if contains w.refs parent
    then w
    else record { refs = parent ∷ w.refs; pending = parent ∷ w.pending }

-- The loop over the parents of one item.
unfoldable pub add_parents : List String → Walk → Walk
add_parents [] w = w
add_parents (parent ∷ parents) w = add_parents parents (add_parent parent w)

-- One iteration, by what the popped identity is.
abbrev pub visit :
    (Walk → Option (Result (List String)))
    → Option ProductEvidence
    → Walk
    → Option (Result (List String))
visit next none w = some (err (value_error Reason.missing_source_evidence))
visit next (some item) w = next (add_parents item.derived_from w)

-- The loop, on fuel: `none` where it runs out.
unfoldable pub walk :
    ℕ → Dict String ProductEvidence → List String → List String → Option (Result (List String))
unfolding add_parents
walk fuel by_id refs [] = some (ok refs)
walk ℕ.zero by_id refs (id ∷ pending) = none
walk (ℕ.suc fuel) by_id refs (id ∷ pending) =
    visit (λ (w : Walk). walk fuel by_id w.refs w.pending) (lookup String_discrete id by_id)
      (record { refs = refs; pending = pending })

-- Every identity that the loop may add.
abbrev pub parents_of : Dict String ProductEvidence → List String
parents_of by_id = gather (λ (e : String × ProductEvidence). e.1.derived_from) by_id

-- The identities still to be visited, at most.
abbrev pub remaining : Dict String ProductEvidence → List String → List String → ℕ
remaining by_id refs pending =
    length pending + length (keep (λ x. not (contains refs x)) (parents_of by_id))

-- The references of a report with the Evidence that they are derived from.
unfoldable pub source_evidence :
    Dict String ProductEvidence → List String → Option (Result (List String))
unfolding walk
source_evidence by_id refs = walk (remaining by_id refs refs) by_id refs refs

-- `tuple(item for item in by_id.values() if item.id in refs)`
unfoldable pub included : Dict String ProductEvidence → List String → List ProductEvidence
included by_id refs =
    keep (λ (item : ProductEvidence). contains refs item.id)
      (map (λ (e : String × ProductEvidence). e.1) by_id)
