-- ===== src/Common/Json.antt =====
-- `serde_json::Value`. A number is kept as the text that it prints.
use Prim.Native.String.{String}
use mathlib.Core.Bool.{Bool}

mutual
  pub data Value : Type 0 where
    null : Value
    bool : Bool → Value
    number : String → Value
    string : String → Value
    array : Items → Value
    object : Members → Value

  pub data Items : Type 0 where
    nil : Items
    item : Value → Items → Items

  pub data Members : Type 0 where
    end : Members
    member : String → Value → Members → Members
