-- ===== src/Types/Json.antt =====
-- JSON objects (`JsonObject` of tile/types/tools.py). No code computes with a number, so a number
-- is kept as its literal.
use tile.Prelude.{String, Bool, Option, none, some, str_eq, if◌then◌else◌}

mutual
  pub data JsonValue : Type 0 where
    null : JsonValue
    bool : Bool → JsonValue
    number : String → JsonValue
    string : String → JsonValue
    array : JsonItems → JsonValue
    object : JsonFields → JsonValue

  pub data JsonItems : Type 0 where
    nil : JsonItems
    cons : JsonValue → JsonItems → JsonItems

  pub data JsonFields : Type 0 where
    end : JsonFields
    field : String → JsonValue → JsonFields → JsonFields

abbrev pub JsonObject : Type 0
JsonObject = JsonFields

-- `data.get(key)`; an object holds a key once.
unfoldable pub get : String → JsonObject → Option JsonValue
get key end = none
get key (field k v rest) = let later = get key rest in if str_eq k key then some v else later
