-- ===== src/Tests/Overrides.antt =====
-- A GatewayClass that overrides what a Gateway says.
use gateway_api.Prelude.{some, none, [], ◌∷◌, ◌≡◌, refl, String-discrete, string_key}
use gateway_api.Prelude.Dict.{get, set}
use gateway_api.Prelude.Outcome.{ok}
use gateway_api.Policy.Value.{string, object, member, delete}
use gateway_api.Policy.Object.{Policy, policy_crd_id}
use gateway_api.Policy.Merge.{
  merge_policy, merge_unstructured, patch_override, copy_into, merge_into, merge_policies,
  merge_policies_of_different_hierarchy, merge_similar, merge_policies_of_similar_kind,
}
use gateway_api.Policy.Merge.Content.{at}
use gateway_api.Policy.Merge.Kinds.{fold_kind}
use gateway_api.Discovery.Effective.{merge_hierarchies}
use gateway_api.Discovery.Effective.Overrides.{merge_hierarchies-override}
use gateway_api.Tests.Machine.{machine, machine-IsDocumented, patched, put, text_at}
use gateway_api.Tests.Data.{parent, child, merged, timeout_kind}

class_policy : fold_kind machine timeout_kind (parent ∷ []) none ≡ ok (some parent)
unfolding policy_crd_id text_at member String-discrete
class_policy = refl

hierarchies_merged :
    merge_hierarchies machine (parent ∷ []) [] (child ∷ []) ≡ ok ((timeout_kind, merged) ∷ [])
unfolding merge_hierarchies merge_policies_of_different_hierarchy merge_policies_of_similar_kind
    merge_similar merge_policies merge_into copy_into get set merge_policy merge_unstructured
    patch_override policy_crd_id patched member delete put text_at String-discrete
hierarchies_merged = refl

merge_hierarchies-override_example :
    (p : Policy) × (get timeout_kind ((timeout_kind, merged) ∷ []) ≡ some p)
    × (at ("spec" ∷ "override" ∷ "timeout" ∷ []) (object p.u) ≡ some (string "10s"))
unfolding member String-discrete
merge_hierarchies-override_example =
    merge_hierarchies-override machine machine-IsDocumented (parent ∷ []) [] (child ∷ [])
      timeout_kind parent ("timeout" ∷ []) (string "10s") class_policy ((λ kind. refl), tt) tt
      ((λ kind. refl), tt) refl tt hierarchies_merged
