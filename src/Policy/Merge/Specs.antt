-- ===== src/Policy/Merge/Specs.antt =====
-- What `EffectiveSpec` shows of a policy.
use gateway_api.Prelude.{
  String, true, false, none, some, List, ◌≡◌, ap, arith, ◌⊎◌, ◌↔◌, ◌≐◌, string_key, if◌then◌else◌,
}
use gateway_api.Prelude.Outcome.{ok, err, scalar_spec}
use gateway_api.Policy.Value.{Value, Object, empty, field, object, member, delete, as_object}
use gateway_api.Policy.Machinery.{Machinery}
use gateway_api.Policy.Object.{Policy, spec}
use gateway_api.Policy.Merge.{or_empty, effective_spec, merge_unstructured}
use gateway_api.Policy.Merge.Content.{
  at, IsLeaf, Silent, IsDocumented, merge_unstructured-wins, merge_unstructured-keeps,
}

member-delete :
    (x y : String) (o : Object) → member y (delete x o) ≡ (if x ≐ y then none else member y o)
unfolding member delete
member-delete x y empty = ground arith
member-delete x y (field z v o) = ground (arith, member-delete x y o)

module _ (k : Machinery) where
  -- `effective_spec` returns for a direct policy with a spec that spec without "targetRef".
  pub effective_spec-direct :
      (p : Policy) (s : Object)
      → p.inherited ≡ false
      → spec k p ≡ some s
      → (shown : Object) × (effective_spec k p ≡ ok (some shown))
        × ((x : String) → member x shown ≡ (if "targetRef" ≐ x then none else member x s))
  unfolding effective_spec
  effective_spec-direct p s direct h =
      (delete "targetRef" s, ground arith, λ x. member-delete "targetRef" x s)

  -- `effective_spec` refuses an inherited policy with a spec as scalar exactly when its "default"
  -- or its "override" is there and is no object.
  pub effective_spec_scalar_iff :
      (p : Policy) (s : Object)
      → p.inherited ≡ true
      → spec k p ≡ some s
      → (effective_spec k p ≡ err scalar_spec) ↔ (
          (as_object (or_empty (member "default" s)) ≡ none)
          ⊎ (as_object (or_empty (member "override" s)) ≡ none))
  unfolding effective_spec merge_unstructured
  effective_spec_scalar_iff p s inherits h = ground arith

  -- What an inherited policy shows is its "default" patched by its "override".
  inherited_merge :
      (p : Policy) (s d o : Object) {r : Object}
      → p.inherited ≡ true
      → spec k p ≡ some s
      → or_empty (member "default" s) ≡ object d
      → or_empty (member "override" s) ≡ object o
      → effective_spec k p ≡ ok (some r)
      → merge_unstructured k d o ≡ ok r
  unfolding effective_spec
  inherited_merge p s d o inherits h hd ho e = ground (arith, ap as_object hd, ap as_object ho)

  module _ (documented : IsDocumented k) where
    -- Where the libraries behave as documented: the effective spec of an inherited policy, if
    -- there is one, has each leaf of "override", a missing "default" or "override" counting as
    -- empty.
    pub effective_spec-override :
        (p : Policy) (s d o : Object) {r : Object} (path : List String) (v : Value)
        → p.inherited ≡ true
        → spec k p ≡ some s
        → or_empty (member "default" s) ≡ object d
        → or_empty (member "override" s) ≡ object o
        → effective_spec k p ≡ ok (some r)
        → at path (object o) ≡ some v
        → IsLeaf v
        → at path (object r) ≡ some v
    effective_spec-override p s d o path v inherits h hd ho e found leaf =
        merge_unstructured-wins k documented d o path v (inherited_merge p s d o inherits h hd ho e)
          found leaf

    -- Where the libraries behave as documented: the effective spec of an inherited policy, if
    -- there is one, says what "default" says at every path on which "override" is silent, a
    -- missing "default" or "override" counting as empty.
    pub effective_spec-default :
        (p : Policy) (s d o : Object) {r : Object} (path : List String)
        → p.inherited ≡ true
        → spec k p ≡ some s
        → or_empty (member "default" s) ≡ object d
        → or_empty (member "override" s) ≡ object o
        → effective_spec k p ≡ ok (some r)
        → Silent path (object o)
        → at path (object r) ≡ at path (object d)
    effective_spec-default p s d o path inherits h hd ho e silent =
        merge_unstructured-keeps k documented d o path (inherited_merge p s d o inherits h hd ho e)
          silent
