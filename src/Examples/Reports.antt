-- ===== src/Examples/Reports.antt =====
-- The Evidence of a report, and the redaction of a value, at small inputs.
use jindiao.Prelude.{
  ◌≡◌, ◌↔◌, refl, String, String_discrete, true, contains, List, [], ◌∷◌, some, Dict, if◌then◌else◌,
  lookup, ◌==◌,
}
use jindiao.Errors.{Result, ok}
use jindiao.Contracts.Json.{JsonValue, JsonItems, JsonFields}
use jindiao.Reporting.Lineage.{
  ProductEvidence, add_parents, included, referenced, source_evidence, walk,
}
use jindiao.Reporting.Fuel.{IsIncluded, source_evidence-ends}
use jindiao.Reporting.Closure.{IsClosed, IsResolved, source_evidence-IsClosure}
use jindiao.Redaction.Engine.{
  Patterns, redact_inline_text, redact_json, redact_sensitive, redact_text,
}
use jindiao.Redaction.Public.{is_public, redact_json-public_iff}

-- two figures that are derived from each other and from a source
abbrev by_id : Dict String ProductEvidence
by_id =
    ("e1", record { id = "e1"; derived_from = [] })
    ∷ ("d1", record { id = "d1"; derived_from = "e1" ∷ "d2" ∷ [] })
    ∷ ("d2", record { id = "d2"; derived_from = "d1" ∷ [] })
    ∷ ("e2", record { id = "e2"; derived_from = [] })
    ∷ []

source_evidence-ends_example :
    (r : Result (List String)) × (source_evidence by_id ("d1" ∷ []) ≡ some r)
source_evidence-ends_example = source_evidence-ends by_id ("d1" ∷ [])

closed : source_evidence by_id ("d1" ∷ []) ≡ some (ok ("d2" ∷ "e1" ∷ "d1" ∷ []))
unfolding source_evidence walk add_parents lookup contains String_discrete ◌==◌
closed = refl

source_evidence-IsClosure_example :
    IsIncluded ("d1" ∷ []) ("d2" ∷ "e1" ∷ "d1" ∷ [])
    × ((id : String)
        → contains ("d2" ∷ "e1" ∷ "d1" ∷ []) id ≡ true
        → IsResolved by_id ("d2" ∷ "e1" ∷ "d1" ∷ []) id)
    × ((member : String → Type 0)
        → IsClosed by_id member
        → ((x : String) → contains ("d1" ∷ []) x ≡ true → member x)
        → (x : String) → contains ("d2" ∷ "e1" ∷ "d1" ∷ []) x ≡ true
        → member x)
source_evidence-IsClosure_example =
    source_evidence-IsClosure by_id ("d1" ∷ []) ("d2" ∷ "e1" ∷ "d1" ∷ []) closed

abbrev str : JsonValue → String
str (JsonValue.text s) = s
str _ = "None"

-- the references in `{"evidence_id": "e1", "parts": [{"derived_from": ["d1"]}]}`
references_found :
    referenced str (
      JsonValue.object (
        JsonFields.field "evidence_id" (JsonValue.text "e1") (
          JsonFields.field "parts"
            (JsonValue.array (
              JsonItems.item
                (JsonValue.object (
                  JsonFields.field "derived_from"
                    (JsonValue.array (JsonItems.item (JsonValue.text "d1") JsonItems.no_items))
                    JsonFields.no_fields))
                JsonItems.no_items))
            JsonFields.no_fields)))
    ≡ "e1" ∷ "d1" ∷ []
unfolding referenced ◌==◌
references_found = refl

included_found : included by_id ("e1" ∷ []) ≡ record { id = "e1"; derived_from = [] } ∷ []
unfolding included contains ◌==◌
included_found = refl

-- a pattern that finds one token
abbrev patterns : Patterns
patterns = record {
  sub_assignment = λ s. s;
  sub_bearer = λ s. s;
  sub_token_value = λ s. if s == "sk-12345678" then "[REDACTED]" else s;
  normalized_key = λ s. s;
}

abbrev leaky : JsonValue
leaky = JsonValue.object (
    JsonFields.field "prompt" (JsonValue.text "hidden")
      (JsonFields.field "note" (JsonValue.text "sk-12345678") JsonFields.no_fields))

redacted_public :
    redact_json patterns leaky
    ≡ JsonValue.object (JsonFields.field "note" (JsonValue.text "[REDACTED]") JsonFields.no_fields)
unfolding redact_json redact_text redact_inline_text contains ◌==◌
redacted_public = refl

redacted_source :
    redact_sensitive patterns
      (JsonValue.object (JsonFields.field "token" (JsonValue.text "abc") JsonFields.no_fields))
    ≡ JsonValue.object (JsonFields.field "token" (JsonValue.text "[REDACTED]") JsonFields.no_fields)
unfolding redact_sensitive contains ◌==◌
redacted_source = refl

redact_json-public_iff_example :
    (is_public patterns (redact_json patterns leaky) ≡ true)
    × ((redact_json patterns leaky ≡ leaky) ↔ (is_public patterns leaky ≡ true))
redact_json-public_iff_example = redact_json-public_iff patterns leaky
