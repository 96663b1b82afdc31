-- ===== src/Redaction/Engine.antt =====
-- security/redaction.py: the two recursive profiles. Python's regular expressions and `str.casefold`
-- are parameters: the substitutions of the three patterns, and the removal of what is no letter or
-- digit from a key in lower case. A JSON value has no other kind than those of `redact_json`.
use jindiao.Prelude.{String, Bool, ◌||◌, ◌==◌, contains, if◌then◌else◌, List, [], ◌∷◌}
use jindiao.Contracts.Json.{JsonValue, JsonItems, JsonFields}

-- `_REDACTED`
abbrev pub redacted : String
redacted = "[REDACTED]"

-- `_SECRET_KEYS`
abbrev pub secret_keys : List String
secret_keys =
    "authorization" ∷ "apikey" ∷ "accesstoken" ∷ "refreshtoken" ∷ "token" ∷ "secret" ∷ "credential"
    ∷ []

-- `_PRIVATE_OUTPUT_KEYS`
abbrev pub private_output_keys : List String
private_output_keys =
    "chainofthought" ∷ "prompt" ∷ "prompttext" ∷ "reasoning" ∷ "reasoningcontent" ∷ "rawmcpresponse"
    ∷ "rawresponse" ∷ "rawwebresponse" ∷ "systemprompt" ∷ "userprompt" ∷ "webpagecontent"
    ∷ "webpagehtml" ∷ []

-- What the regular expressions of the standard library do to a text.
pub record Patterns : Type 0 where
  pub sub_assignment : String → String
  pub sub_bearer : String → String
  pub sub_token_value : String → String
  pub normalized_key : String → String

-- `_redact_inline_text`
unfoldable pub redact_inline_text : Patterns → String → String
redact_inline_text patterns value =
    patterns.sub_token_value (patterns.sub_bearer (patterns.sub_assignment value))

-- `redact_text`
unfoldable pub redact_text : Patterns → String → String
unfolding redact_inline_text
redact_text patterns value = if redact_inline_text patterns value == value then value else redacted

abbrev pub is_secret_key : Patterns → String → Bool
is_secret_key patterns key = contains secret_keys (patterns.normalized_key key)

abbrev pub is_private_key : Patterns → String → Bool
is_private_key patterns key =
    is_secret_key patterns key || contains private_output_keys (patterns.normalized_key key)

-- `redact_sensitive`
unfoldable mutual
  unfolding redact_inline_text

  pub redact_sensitive : Patterns → JsonValue → JsonValue
  redact_sensitive patterns (JsonValue.text s) = JsonValue.text (redact_inline_text patterns s)
  redact_sensitive patterns (JsonValue.object fields) =
      JsonValue.object (redact_sensitive_fields patterns fields)
  redact_sensitive patterns (JsonValue.array items) =
      JsonValue.array (redact_sensitive_items patterns items)
  redact_sensitive patterns value = value

  pub redact_sensitive_items : Patterns → JsonItems → JsonItems
  redact_sensitive_items patterns JsonItems.no_items = JsonItems.no_items
  redact_sensitive_items patterns (JsonItems.item value rest) =
      JsonItems.item (redact_sensitive patterns value) (redact_sensitive_items patterns rest)

  pub redact_sensitive_fields : Patterns → JsonFields → JsonFields
  redact_sensitive_fields patterns JsonFields.no_fields = JsonFields.no_fields
  redact_sensitive_fields patterns (JsonFields.field key value rest) =
      let inner = redact_sensitive patterns value in
      JsonFields.field key (if is_secret_key patterns key then JsonValue.text redacted else inner)
        (redact_sensitive_fields patterns rest)

-- `redact_json`
unfoldable mutual
  unfolding redact_text

  pub redact_json : Patterns → JsonValue → JsonValue
  redact_json patterns (JsonValue.text s) = JsonValue.text (redact_text patterns s)
  redact_json patterns (JsonValue.object fields) =
      JsonValue.object (redact_json_fields patterns fields)
  redact_json patterns (JsonValue.array items) = JsonValue.array (redact_json_items patterns items)
  redact_json patterns value = value

  pub redact_json_items : Patterns → JsonItems → JsonItems
  redact_json_items patterns JsonItems.no_items = JsonItems.no_items
  redact_json_items patterns (JsonItems.item value rest) =
      JsonItems.item (redact_json patterns value) (redact_json_items patterns rest)

  pub redact_json_fields : Patterns → JsonFields → JsonFields
  redact_json_fields patterns JsonFields.no_fields = JsonFields.no_fields
  redact_json_fields patterns (JsonFields.field key value rest) =
      let inner = redact_json patterns value in
      let others = redact_json_fields patterns rest in
      if is_private_key patterns key then others else JsonFields.field key inner others
