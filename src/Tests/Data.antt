-- ===== src/Tests/Data.antt =====
-- The objects of the tests.
use gateway_api.Prelude.{String, true, [], ◌∷◌}
use gateway_api.Policy.Value.{Object, string, number, object, field, empty}
use gateway_api.Policy.Object.{Policy, empty_obj_ref}
use gateway_api.Policy.Merge.{Policies}

-- A policy that sets a timeout, which cannot be changed below it, and a number of retries, which
-- can.
abbrev pub timeout_policy : String → String → String → String → Object
timeout_policy name age timeout retries = field "apiVersion" (string "example.com") (
    field "kind" (string "TimeoutPolicy") (
      field "metadata"
        (object (
          field "name" (string name)
            (field "namespace" (string "prod") (field "creationTimestamp" (number age) empty))))
        (field "spec"
          (object (
            field "override" (object (field "timeout" (string timeout) empty))
              (field "default" (object (field "retries" (string retries) empty)) empty)))
          empty)))

abbrev pub inherited_policy : Object → Policy
inherited_policy u = record { u = u; target_ref = empty_obj_ref; inherited = true }

abbrev pub parent : Policy
parent = inherited_policy (timeout_policy "parent" "1" "10s" "1")

abbrev pub child : Policy
child = inherited_policy (timeout_policy "child" "2" "20s" "2")

abbrev pub timeout_kind : String
timeout_kind = "TimeoutPolicy.example.com"

-- The parent over the child.
abbrev pub merged_content : Object
merged_content = timeout_policy "child" "2" "10s" "2"

abbrev pub merged : Policy
merged = inherited_policy merged_content

abbrev pub parents : Policies
parents = (timeout_kind, parent) ∷ []

abbrev pub children : Policies
children = (timeout_kind, child) ∷ []

-- Both in one hierarchy: the older one is merged over the younger one.
abbrev pub merged_peers : Policy
merged_peers = inherited_policy (timeout_policy "parent" "1" "20s" "1")
