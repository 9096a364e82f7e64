-- ===== src/Base/Json.antt =====
-- Parsed JSON values. `undefined` is the absence of a value; the keys of an object are distinct.
use agentdock_mcp_harness.Base.Tests.{same, if◌then◌else◌}
use Prim.Native.Nat.{ℕ}
use Prim.Native.String.{String}
use mathlib.Core.Bool.{Bool}
use mathlib.Core.Option.{Option, none, some}

mutual
  pub data Json : Type 0 where
    null : Json
    boolean : Bool → Json
    number : ℕ → Json
    text : String → Json
    array : Items → Json
    object : Fields → Json

  pub data Items : Type 0 where
    nil : Items
    cons : Json → Items → Items

  pub data Fields : Type 0 where
    end : Fields
    field : String → Json → Fields → Fields

-- `value.key` on an object.
abbrev pub member : String → Fields → Option Json
member key end = none
member key (field k v rest) = if same k key then some v else member key rest
