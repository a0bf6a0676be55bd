-- ===== src/Tests/Unions.antt =====
-- Merging maps and lists of policies.
use gateway_api.Prelude.{[], ◌∷◌, ◌≡◌, ◌↔◌, refl, String-discrete, string_key}
use gateway_api.Prelude.Dict.{Distinct, get, set}
use gateway_api.Prelude.Outcome.{ok}
use gateway_api.Policy.Value.{member, delete}
use gateway_api.Policy.Object.{Policy, policy_crd_id}
use gateway_api.Policy.Crd.{PolicyCrdId}
use gateway_api.Policy.Merge.{
  merge_policy, merge_unstructured, patch_override, copy_into, merge_into, merge_policies,
}
use gateway_api.Policy.Merge.Union.{Succeeds, combine, merge_policies-at, merge_policies-Succeeds}
use gateway_api.Tests.Machine.{machine, patched, put, text_at}
use gateway_api.Tests.Data.{parents, children, merged, timeout_kind}

-- The order of different hierarchies.
abbrev given_order : Policy → Policy → Policy × Policy
given_order a b = (a, b)

Distinct-parents : Distinct parents
unfolding get
Distinct-parents = (refl, tt)

Distinct-children : Distinct children
unfolding get
Distinct-children = (refl, tt)

merged_maps : merge_policies machine given_order parents children ≡ ok ((timeout_kind, merged) ∷ [])
unfolding merge_policies merge_into copy_into get set merge_policy merge_unstructured patch_override
    policy_crd_id patched member delete put text_at String-discrete
merged_maps = refl

merge_policies-at_example :
    combine machine given_order (get timeout_kind parents) (get timeout_kind children)
    ≡ ok (get timeout_kind ((timeout_kind, merged) ∷ []))
merge_policies-at_example =
    merge_policies-at machine given_order timeout_kind parents children Distinct-parents
      Distinct-children merged_maps

merge_policies-Succeeds_example : Succeeds (merge_policies machine given_order parents children) ↔ (
    (id : PolicyCrdId) → Succeeds (combine machine given_order (get id parents) (get id children)))
merge_policies-Succeeds_example =
    merge_policies-Succeeds machine given_order parents children Distinct-parents Distinct-children
