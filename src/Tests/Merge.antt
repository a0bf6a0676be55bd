-- ===== src/Tests/Merge.antt =====
-- Merging two policies of one kind.
use gateway_api.Prelude.{
  String, some, [], ◌∷◌, ◌≡◌, ◌≢◌, ◌⊎◌, refl, arith, String-discrete, inl, inr,
}
use text.Mathlib.TextEquality.{eq_iff}
use gateway_api.Prelude.Outcome.{ok}
use gateway_api.Policy.Value.{string, object, member, delete}
use gateway_api.Policy.Object.{policy_crd_id}
use gateway_api.Policy.Merge.{
  merge_policy, merge_unstructured, patch_override, order_policy_by_precedence,
}
use gateway_api.Policy.Merge.Content.{at}
use gateway_api.Policy.Merge.Overrides.{merge_policy-override, merge_policy-child}
use gateway_api.Policy.Merge.Precedence.{AreRanked, Outranks, order_policy_by_precedence_lem}
use gateway_api.Policy.Merge.Conflicts.{same_hierarchy-override}
use gateway_api.Policy.Merge.Union.{merge_pair}
use gateway_api.Tests.Machine.{machine, machine-IsDocumented, patched, put, text_at, age_at}
use gateway_api.Tests.Data.{parent, child, merged, merged_peers}

pub merge_policy-parent-child : merge_policy machine parent child ≡ ok merged
unfolding merge_policy merge_unstructured patch_override policy_crd_id patched member delete put
    text_at String-discrete
merge_policy-parent-child = refl

merge_policy-override_example :
    at ("spec" ∷ "override" ∷ "timeout" ∷ []) (object merged.u) ≡ some (string "10s")
unfolding member String-discrete
merge_policy-override_example =
    merge_policy-override machine machine-IsDocumented parent child ("timeout" ∷ []) (string "10s")
      refl merge_policy-parent-child refl tt

abbrev default_key : String
default_key = "default"

not_override : default_key ≢ "override"
not_override = ground (arith, eq_iff "default" "override")

merge_policy-child_example :
    at ("spec" ∷ "default" ∷ "retries" ∷ []) (object merged.u) ≡ some (string "2")
unfolding member String-discrete
merge_policy-child_example =
    merge_policy-child machine machine-IsDocumented parent child
      ("spec" ∷ "default" ∷ "retries" ∷ []) (string "2") (inr (inr not_override))
      merge_policy-parent-child refl tt

ages_differ : AreRanked machine parent child
unfolding age_at member String-discrete
ages_differ = inl (ground arith)

parent-Outranks : Outranks machine parent child
unfolding age_at member String-discrete
parent-Outranks = inl (ground arith)

order_policy_by_precedence_lem_example :
    ((order_policy_by_precedence machine parent child ≡ (parent, child))
      × Outranks machine child parent)
    ⊎ ((order_policy_by_precedence machine parent child ≡ (child, parent))
        × Outranks machine parent child)
order_policy_by_precedence_lem_example =
    order_policy_by_precedence_lem machine parent child ages_differ

pub merge_peers :
    merge_pair machine (order_policy_by_precedence machine) parent child ≡ ok merged_peers
unfolding order_policy_by_precedence merge_policy merge_unstructured patch_override policy_crd_id
    patched member delete put text_at age_at String-discrete
merge_peers = refl

same_hierarchy-override_example :
    at ("spec" ∷ "override" ∷ "timeout" ∷ []) (object merged_peers.u) ≡ some (string "20s")
unfolding member String-discrete
same_hierarchy-override_example =
    same_hierarchy-override machine machine-IsDocumented parent child ("timeout" ∷ [])
      (string "20s") parent-Outranks refl (inl merge_peers) refl tt
