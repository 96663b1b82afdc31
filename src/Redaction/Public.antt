-- ===== src/Redaction/Public.antt =====
-- What `redact_json` returns is public, and only that is left alone.
use jindiao.Prelude.{
  ◌≡◌, ◌↔◌, refl, sym, ap, String, Bool, true, false, not, ◌&&◌, ◌||◌, ◌==◌, ==_refl, ==→eq,
  if◌then◌else◌, &&-true, not-true, subst,
}
use jindiao.Contracts.Json.{JsonValue, JsonItems, JsonFields}
use jindiao.Redaction.Engine.{
  Patterns, redacted, is_private_key, redact_inline_text, redact_json, redact_json_fields,
  redact_json_items, redact_text,
}

-- No key at any depth is secret or private, and every text is one that no pattern changes, or the
-- mark of a redaction.
unfoldable mutual
  unfolding redact_inline_text

  pub is_public : Patterns → JsonValue → Bool
  is_public patterns (JsonValue.text s) = redact_inline_text patterns s == s || s == redacted
  is_public patterns (JsonValue.object fields) = are_public_fields patterns fields
  is_public patterns (JsonValue.array items) = are_public_items patterns items
  is_public patterns value = true

  pub are_public_items : Patterns → JsonItems → Bool
  are_public_items patterns JsonItems.no_items = true
  are_public_items patterns (JsonItems.item value rest) =
      is_public patterns value && are_public_items patterns rest

  pub are_public_fields : Patterns → JsonFields → Bool
  are_public_fields patterns JsonFields.no_fields = true
  are_public_fields patterns (JsonFields.field key value rest) =
      not (is_private_key patterns key)
      && (is_public patterns value && are_public_fields patterns rest)

both-true : {a b : Bool} → a ≡ true → b ≡ true → (a && b) ≡ true
both-true e f = rw (e, f)

public_field :
    (patterns : Patterns) (key : String) (value : JsonValue) (rest : JsonFields) (private : Bool)
    → is_private_key patterns key ≡ private
    → is_public patterns value ≡ true
    → are_public_fields patterns rest ≡ true
    → are_public_fields patterns (if private then rest else JsonFields.field key value rest) ≡ true
unfolding is_public
public_field patterns key value rest true p h k = k
public_field patterns key value rest false p h k = rw (p, h, k)

redact_text-public :
    (patterns : Patterns) (s : String)
    → (redact_inline_text patterns (redact_text patterns s) == redact_text patterns s
        || redact_text patterns s == redacted)
      ≡ true
unfolding redact_text
redact_text-public patterns s = chosen (redact_inline_text patterns s == s) refl
  where
    chosen :
        (b : Bool)
        → (redact_inline_text patterns s == s) ≡ b
        → (redact_inline_text patterns (if b then s else redacted) == (if b then s else redacted)
            || (if b then s else redacted) == redacted)
          ≡ true
    chosen true same = rw same
    chosen false other = or_true _ (==_refl redacted)
      where
        or_true : (c : Bool) {d : Bool} → d ≡ true → (c || d) ≡ true
        or_true true e = refl
        or_true false e = e

-- a text that is public is not changed
redact_text-kept :
    (patterns : Patterns) (s : String)
    → (redact_inline_text patterns s == s || s == redacted) ≡ true
    → redact_text patterns s ≡ s
unfolding redact_text
redact_text-kept patterns s h = chosen (redact_inline_text patterns s == s) h
  where
    chosen : (b : Bool) → (b || s == redacted) ≡ true → (if b then s else redacted) ≡ s
    chosen true e = refl
    chosen false e = sym (==→eq s redacted e)

mutual
  unfolding redact_json is_public

  redact_json-public :
      (patterns : Patterns) (v : JsonValue) → is_public patterns (redact_json patterns v) ≡ true
  redact_json-public patterns JsonValue.null = refl
  redact_json-public patterns (JsonValue.boolean b) = refl
  redact_json-public patterns (JsonValue.integer n) = refl
  redact_json-public patterns (JsonValue.float s) = refl
  redact_json-public patterns (JsonValue.text s) = redact_text-public patterns s
  redact_json-public patterns (JsonValue.array items) = redact_items-public patterns items
  redact_json-public patterns (JsonValue.object fields) = redact_fields-public patterns fields

  redact_items-public :
      (patterns : Patterns) (items : JsonItems)
      → are_public_items patterns (redact_json_items patterns items) ≡ true
  redact_items-public patterns JsonItems.no_items = refl
  redact_items-public patterns (JsonItems.item value rest) =
      both-true (redact_json-public patterns value) (redact_items-public patterns rest)

  redact_fields-public :
      (patterns : Patterns) (fields : JsonFields)
      → are_public_fields patterns (redact_json_fields patterns fields) ≡ true
  redact_fields-public patterns JsonFields.no_fields = refl
  redact_fields-public patterns (JsonFields.field key value rest) =
      public_field patterns key (redact_json patterns value) (redact_json_fields patterns rest)
        (is_private_key patterns key) refl (redact_json-public patterns value)
        (redact_fields-public patterns rest)

mutual
  unfolding redact_json is_public

  redact_json-kept :
      (patterns : Patterns) (v : JsonValue)
      → is_public patterns v ≡ true
      → redact_json patterns v ≡ v
  redact_json-kept patterns JsonValue.null h = refl
  redact_json-kept patterns (JsonValue.boolean b) h = refl
  redact_json-kept patterns (JsonValue.integer n) h = refl
  redact_json-kept patterns (JsonValue.float s) h = refl
  redact_json-kept patterns (JsonValue.text s) h = ap JsonValue.text (redact_text-kept patterns s h)
  redact_json-kept patterns (JsonValue.array items) h =
      ap JsonValue.array (redact_items-kept patterns items h)
  redact_json-kept patterns (JsonValue.object fields) h =
      ap JsonValue.object (redact_fields-kept patterns fields h)

  redact_items-kept :
      (patterns : Patterns) (items : JsonItems)
      → are_public_items patterns items ≡ true
      → redact_json_items patterns items ≡ items
  redact_items-kept patterns JsonItems.no_items h = refl
  redact_items-kept patterns (JsonItems.item value rest) h =
      let (here, others) = &&-true _ _ h in
      rw (redact_json-kept patterns value here, redact_items-kept patterns rest others)

  redact_fields-kept :
      (patterns : Patterns) (fields : JsonFields)
      → are_public_fields patterns fields ≡ true
      → redact_json_fields patterns fields ≡ fields
  redact_fields-kept patterns JsonFields.no_fields h = refl
  redact_fields-kept patterns (JsonFields.field key value rest) h =
      let (open_key, others) = &&-true (not (is_private_key patterns key)) _ h in
      let (here, later) = &&-true (is_public patterns value) _ others in
      rw (
        not-true _ open_key,
        redact_json-kept patterns value here,
        redact_fields-kept patterns rest later,
      )

-- What `redact_json` returns has no secret and no private key at any depth, and no text in which a
-- pattern finds a secret; a value that is like that already is returned as it is, so that a second
-- redaction changes nothing.
pub redact_json-public_iff :
    (patterns : Patterns) (v : JsonValue)
    → (is_public patterns (redact_json patterns v) ≡ true)
      × ((redact_json patterns v ≡ v) ↔ (is_public patterns v ≡ true))
redact_json-public_iff patterns v = (
  redact_json-public patterns v,
  (
    λ same. subst (λ x. is_public patterns x ≡ true) same (redact_json-public patterns v),
    redact_json-kept patterns v,
  ),
)
