-- ===== src/Policy/Merge.antt =====
-- gwctl/pkg/policymanager/merger.go, and `EffectiveSpec` of manager.go.
pub mod Precedence
pub mod Union
pub mod Kinds
pub mod Content
pub mod Overrides
pub mod Errors
pub mod Similar
pub mod Specs
pub mod Conflicts
use gateway_api.Prelude.{
  String, ◌⧺◌, Bool, true, false, not, Option, none, some, List, [], ◌∷◌, ◌≐◌, string_key,
  if◌then◌else◌, eqb, ltb,
}
use gateway_api.Prelude.Dict.{Dict, get, set}
use gateway_api.Prelude.Text.{str_lt}
use gateway_api.Prelude.Outcome.{Outcome, ok, err, ◌>>=◌, lift, different_kind, scalar_spec}
use gateway_api.Policy.Value.{Value, Object, empty, field, object, member, delete, as_object}
use gateway_api.Policy.Machinery.{Machinery}
use gateway_api.Policy.Crd.{PolicyCrdId}
use gateway_api.Policy.Object.{Policy, empty_policy, empty_obj_ref, policy_crd_id, spec}

abbrev pub Policies : Type 0
Policies = Dict PolicyCrdId Policy

-- `{"spec": {"override": v}}`
abbrev pub override_patch : Value → Object
override_patch v = field "spec" (object (field "override" v empty)) empty

abbrev pub or_empty : Option Value → Value
or_empty none = object empty
or_empty (some v) = v

-- The loop that copies the first map.
unfoldable pub copy_into : Policies → Policies → Policies
copy_into [] result = result
copy_into ((id, policy) ∷ rest) result = copy_into rest (set id policy result)

module _ (k : Machinery) where
  open k use {
    namespace, name, creation_timestamp, nested_field_copy, marshal, unmarshal, merge_patch,
  }

  -- `mergeUnstructured`
  unfoldable pub merge_unstructured : Object → Object → Outcome Object
  merge_unstructured parent patch = do
    current ← lift (marshal parent)
    modified ← lift (marshal patch)
    result ← lift (merge_patch current modified)
    lift (unmarshal result)

  -- The parent's "spec.override", if it has one, goes over the merged content.
  unfoldable pub patch_override : Object → Object → Outcome Object
  unfolding merge_unstructured
  patch_override parent content = do
    found ← lift (nested_field_copy parent ("spec" ∷ "override" ∷ []))
    elim found [
      | none ↦ ok content
      | some override ↦ merge_unstructured content (override_patch override)
    ]

  -- `mergePolicy`
  unfoldable pub merge_policy : Policy → Policy → Outcome Policy
  unfolding merge_unstructured patch_override
  merge_policy parent child =
      if not (policy_crd_id k parent.u ≐ policy_crd_id k child.u)
      then err (different_kind (policy_crd_id k parent.u) (policy_crd_id k child.u))
      else do
        merged ← merge_unstructured parent.u child.u
        content ← if parent.inherited then patch_override parent.u merged else ok merged
        ok (record child { u = content; target_ref = empty_obj_ref })

  -- `fmt.Sprintf("%v/%v", namespace, name)`
  abbrev pub namespaced_name : Policy → String
  namespaced_name p = namespace p.u ⧺ ("/" ⧺ name p.u)

  -- `orderPolicyByPrecedence`: the policy of lower precedence comes first. `a.After(b)` is `b < a`.
  unfoldable pub order_policy_by_precedence : Policy → Policy → Policy × Policy
  order_policy_by_precedence a b =
      if eqb (creation_timestamp a.u) (creation_timestamp b.u)
      then (if str_lt (namespaced_name a) (namespaced_name b) then (b, a) else (a, b))
      else if ltb (creation_timestamp a.u) (creation_timestamp b.u)
      then (b, a)
      else (a, b)

  module _ (precedence : Policy → Policy → Policy × Policy) where
    -- The loop over the second map.
    unfoldable pub merge_into : Policies → Policies → Outcome Policies
    merge_into [] result = ok result
    merge_into ((id, policy) ∷ rest) result = elim (get id result) [
      | none ↦ merge_into rest (set id policy result)
      | some existing ↦ do
        let (lower, higher) = precedence existing policy
        merged ← merge_policy lower higher
        merge_into rest (set id merged result)
    ]

    -- `mergePolicies`
    unfoldable pub merge_policies : Policies → Policies → Outcome Policies
    unfolding copy_into merge_into
    merge_policies policies1 policies2 = merge_into policies2 (copy_into policies1 [])

  -- `MergePoliciesOfSameHierarchy`
  unfoldable pub merge_policies_of_same_hierarchy : Policies → Policies → Outcome Policies
  merge_policies_of_same_hierarchy = merge_policies order_policy_by_precedence

  -- `MergePoliciesOfDifferentHierarchy`
  unfoldable pub merge_policies_of_different_hierarchy : Policies → Policies → Outcome Policies
  merge_policies_of_different_hierarchy = merge_policies (λ a b. (a, b))

  -- A missing key reads as the zero policy.
  abbrev pub policy_at : PolicyCrdId → Policies → Policy
  policy_at id policies = elim (get id policies) [ none ↦ empty_policy | some p ↦ p ]

  -- The loop of `MergePoliciesOfSimilarKind`.
  unfoldable pub merge_similar : List Policy → Policies → Outcome Policies
  merge_similar [] result = ok result
  merge_similar (policy ∷ rest) result =
      let id = policy_crd_id k policy.u in
      elim (get id result) [
        | none ↦ merge_similar rest (set id policy result)
        | some existing ↦ do
          merged ← merge_policies_of_same_hierarchy ((id, existing) ∷ []) ((id, policy) ∷ [])
          merge_similar rest (set id (policy_at id merged) result)
      ]

  -- `MergePoliciesOfSimilarKind`
  unfoldable pub merge_policies_of_similar_kind : List Policy → Outcome Policies
  unfolding merge_similar
  merge_policies_of_similar_kind policies = merge_similar policies []

  -- Both must be maps, and are merged.
  unfoldable pub merge_specs : Value → Value → Outcome (Option Object)
  merge_specs default_spec override_spec = elim (as_object default_spec) [
    | none ↦ err scalar_spec
    | some d ↦ elim (as_object override_spec) [
      | none ↦ err scalar_spec
      | some o ↦ do result ← merge_unstructured d o; ok (some result)
    ]
  ]

  abbrev inherited_spec : Option Object → Outcome (Option Object)
  inherited_spec none = ok none
  inherited_spec (some s) =
      merge_specs (or_empty (member "default" s)) (or_empty (member "override" s))

  abbrev direct_spec : Option Object → Outcome (Option Object)
  direct_spec none = ok none
  direct_spec (some s) = ok (some (delete "targetRef" s))

  -- `EffectiveSpec`
  unfoldable pub effective_spec : Policy → Outcome (Option Object)
  unfolding merge_specs
  effective_spec p = if not p.inherited then direct_spec (spec k p) else inherited_spec (spec k p)
