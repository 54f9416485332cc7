-- ===== src/Prelude/Json.antt =====
-- JSON-like values, as they stand in payloads and artifact data. `N` is the type of the numbers,
-- which the modelled code stores and does not compute with.
use Prim.Native.String.{String}
use mathlib.Core.Bool.{Bool, true, false}
use mathlib.Core.Option.{Option, none, some}
use autonomous_procurement_s.Prelude.Equality.{◌==◌, string_eq}

mutual
  pub data Value (N : Type 0) : Type 0 where
    null : Value N
    bool : Bool → Value N
    number : N → Value N
    text : String → Value N
    arr : Items N → Value N
    obj : Fields N → Value N

  pub data Items (N : Type 0) : Type 0 where
    nil : Items N
    cons : Value N → Items N → Items N

  pub data Fields (N : Type 0) : Type 0 where
    end : Fields N
    field : String → Value N → Fields N → Fields N

module _ {N : Type 0} where
  -- `d.get(k)`
  abbrev pub get_field : String → Fields N → Option (Value N)
  get_field k end = none
  get_field k (field j v fs) = elim (j == k) [ true ↦ some v | false ↦ get_field k fs ]
