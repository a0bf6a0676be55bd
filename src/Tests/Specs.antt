-- ===== src/Tests/Specs.antt =====
-- What the effective specs of policies show.
use gateway_api.Prelude.{some, [], ◌∷◌, ◌≡◌, refl, String-discrete, string_key}
use gateway_api.Prelude.Outcome.{ok}
use gateway_api.Policy.Value.{string, object, Object, field, empty, member, delete}
use gateway_api.Policy.Object.{spec}
use gateway_api.Policy.Merge.{merge_unstructured, merge_specs, effective_spec}
use gateway_api.Policy.Merge.Content.{at}
use gateway_api.Policy.Merge.Specs.{effective_spec-override}
use gateway_api.Tests.Machine.{machine, machine-IsDocumented, patched, put}
use gateway_api.Tests.Data.{parent}

-- The specs of the tests.
abbrev parent_spec : Object
parent_spec =
    field "override" (object (field "timeout" (string "10s") empty))
      (field "default" (object (field "retries" (string "1") empty)) empty)

abbrev parent_default : Object
parent_default = field "retries" (string "1") empty

abbrev parent_override : Object
parent_override = field "timeout" (string "10s") empty

abbrev parent_effective : Object
parent_effective = field "retries" (string "1") (field "timeout" (string "10s") empty)

parent_has_spec : spec machine parent ≡ some parent_spec
unfolding spec member String-discrete
parent_has_spec = refl

parent_shows : effective_spec machine parent ≡ ok (some parent_effective)
unfolding effective_spec spec merge_specs merge_unstructured patched member put delete
    String-discrete
parent_shows = refl

effective_spec-override_example :
    at ("timeout" ∷ []) (object parent_effective) ≡ some (string "10s")
unfolding member String-discrete
effective_spec-override_example =
    effective_spec-override machine machine-IsDocumented parent parent_spec parent_default
      parent_override ("timeout" ∷ []) (string "10s") refl parent_has_spec refl refl parent_shows
      refl tt
