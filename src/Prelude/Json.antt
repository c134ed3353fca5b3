-- ===== src/Prelude/Json.antt =====
-- JSON values as the JSON module gives them, a number by its text.
use mathlib.Core.Bool.{Bool}
use mathlib.Core.Option.{Option, none, some}
use Prim.Native.String.{String}
use brand_sniper_monorepo.Prelude.Tests.{if◌then◌else◌}
use brand_sniper_monorepo.Prelude.Classes.{◌==◌, string_eq}

-- An object's fields stand in their order.
mutual
  pub data Json : Type 0 where
    null : Json
    bool : Bool → Json
    number : String → Json
    text : String → Json
    array : JsonList → Json
    object : JsonFields → Json

  pub data JsonList : Type 0 where
    no_values : JsonList
    value_then : Json → JsonList → JsonList

  pub data JsonFields : Type 0 where
    no_fields : JsonFields
    field_then : String → Json → JsonFields → JsonFields

-- A later field of the same name wins.
abbrev pub or_value : Option Json → Json → Json
or_value none v = v
or_value (some w) v = w

unfoldable pub field_of : String → JsonFields → Option Json
field_of key no_fields = none
field_of key (field_then k v fields) =
    let later = field_of key fields in if k == key then some (or_value later v) else later
