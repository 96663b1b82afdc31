-- ===== src/Contracts/Json.antt =====
-- The JSON values that events carry, and the tests that Python code makes on them.
use jindiao.Prelude.{ℕ, String, Bool, true, false, ◌==◌, if◌then◌else◌, Option, none, some}

-- A Python `int`, with the names of the standard library's integers.
pub data ℤ : Type 0 where
  pos negsuc : ℕ → ℤ

-- A float is the text of its literal: the modelled code never computes with one.
mutual
  pub data JsonValue : Type 0 where
    null : JsonValue
    boolean : Bool → JsonValue
    integer : ℤ → JsonValue
    float text : String → JsonValue
    array : JsonItems → JsonValue
    object : JsonFields → JsonValue

  pub data JsonItems : Type 0 where
    no_items : JsonItems
    item : JsonValue → JsonItems → JsonItems

  pub data JsonFields : Type 0 where
    no_fields : JsonFields
    field : String → JsonValue → JsonFields → JsonFields

-- `d.get(key)`
unfoldable pub get_field : String → JsonFields → Option JsonValue
get_field key JsonFields.no_fields = none
get_field key (JsonFields.field k v fs) =
    let rest = get_field key fs in if k == key then some v else rest

-- the value, where `isinstance(value, int)`: a `bool` is one
abbrev pub int_of : JsonValue → Option ℤ
int_of (JsonValue.integer n) = some n
int_of (JsonValue.boolean true) = some (ℤ.pos 1)
int_of (JsonValue.boolean false) = some (ℤ.pos 0)
int_of _ = none

-- the fields, where `isinstance(value, dict)`
abbrev pub dict_of : Option JsonValue → Option JsonFields
dict_of (some (JsonValue.object fields)) = some fields
dict_of _ = none
