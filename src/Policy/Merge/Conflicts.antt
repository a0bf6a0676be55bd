-- ===== src/Policy/Merge/Conflicts.antt =====
-- Two inherited policies of one hierarchy: the one of lower precedence is merged as the parent, so
-- its "spec.override" outranks that of the other.
use gateway_api.Prelude.{String, true, some, List, ◌∷◌, ◌≡◌, ◌⊎◌, inl, inr, arith}
use gateway_api.Prelude.Outcome.{ok}
use gateway_api.Prelude.Text.{str_lt_asymm}
use gateway_api.Policy.Value.{Value, object}
use gateway_api.Policy.Machinery.{Machinery}
use gateway_api.Policy.Object.{Policy}
use gateway_api.Policy.Merge.{order_policy_by_precedence, namespaced_name}
use gateway_api.Policy.Merge.Content.{at, IsLeaf, IsDocumented}
use gateway_api.Policy.Merge.Overrides.{merge_policy-override}
use gateway_api.Policy.Merge.Precedence.{Outranks}
use gateway_api.Policy.Merge.Union.{merge_pair}

module _ (k : Machinery) where
  order_of_Outranks : (a b : Policy) → Outranks k a b → order_policy_by_precedence k a b ≡ (b, a)
  unfolding order_policy_by_precedence
  order_of_Outranks a b h = ground arith

  order_of_Outranks_swapped :
      (a b : Policy) → Outranks k a b → order_policy_by_precedence k b a ≡ (b, a)
  unfolding order_policy_by_precedence
  order_of_Outranks_swapped a b h =
      ground (arith, str_lt_asymm (namespaced_name k a) (namespaced_name k b))

  -- Where the libraries behave as documented, and two policies of one hierarchy are merged, in
  -- either order, without error: if the policy of lower precedence is inherited, each leaf that it
  -- has under "spec.override" is in the result, whatever the policy of higher precedence says
  -- there.
  pub same_hierarchy-override :
      (documented : IsDocumented k) (higher lower : Policy) {merged : Policy} (path : List String)
      (v : Value)
      → Outranks k higher lower
      → lower.inherited ≡ true
      → (merge_pair k (order_policy_by_precedence k) higher lower ≡ ok merged)
        ⊎ (merge_pair k (order_policy_by_precedence k) lower higher ≡ ok merged)
      → at ("spec" ∷ "override" ∷ path) (object lower.u) ≡ some v
      → IsLeaf v
      → at ("spec" ∷ "override" ∷ path) (object merged.u) ≡ some v
  same_hierarchy-override documented higher lower path v ranked inherits (inl h) e leaf =
      merge_policy-override k documented lower higher path v inherits
        (rw (order_of_Outranks higher lower ranked) at h) e leaf
  same_hierarchy-override documented higher lower path v ranked inherits (inr h) e leaf =
      merge_policy-override k documented lower higher path v inherits
        (rw (order_of_Outranks_swapped higher lower ranked) at h) e leaf
