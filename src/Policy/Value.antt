-- ===== src/Policy/Value.antt =====
-- The contents of an unstructured object, `map[string]interface{}`: what `encoding/json` decodes.
use gateway_api.Prelude.{String, Bool, Option, none, some, ◌≐◌, if◌then◌else◌, string_key}

mutual
  pub data Value : Type 0 where
    null : Value
    boolean : Bool → Value
    -- a number that a float64 carries exactly, by its literal: merging decodes numbers to float64,
    -- which rounds any other integer
    number : String → Value
    string : String → Value
    array : Values → Value
    object : Object → Value

  pub data Values : Type 0 where
    nil : Values
    cons : Value → Values → Values

  pub data Object : Type 0 where
    empty : Object
    field : String → Value → Object → Object

-- `v, ok := o[k]`
unfoldable pub member : String → Object → Option Value
member k empty = none
member k (field j v o) = if j ≐ k then some v else member k o

-- `delete(o, k)`
unfoldable pub delete : String → Object → Object
delete k empty = empty
delete k (field j v o) = let rest = delete k o in if j ≐ k then rest else field j v rest

-- `v.(map[string]interface{})`
abbrev pub as_object : Value → Option Object
as_object (object o) = some o
as_object _ = none
