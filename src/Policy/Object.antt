-- ===== src/Policy/Object.antt =====
-- `Policy` of gwctl/pkg/policymanager/manager.go and its methods.
use gateway_api.Prelude.{
  String, ◌⧺◌, Bool, false, not, Option, none, some, List, [], ◌∷◌, map, ◌≐◌, ◌&&◌, string_key,
  if◌then◌else◌,
}
use gateway_api.Prelude.Dict.{Dict, get}
use gateway_api.Prelude.Outcome.{
  Outcome, ok, err, ◌>>=◌, Reply, value, error, no_crd, not_structured,
}
use gateway_api.Api.Meta.{ObjRef, obj_ref_key}
use gateway_api.Policy.Value.{Value, Object, empty, as_object}
use gateway_api.Policy.Machinery.{Machinery, GenericPolicy}
use gateway_api.Policy.Crd
use gateway_api.Policy.Crd.{PolicyCrd, PolicyCrdId}

pub record Policy : Type 0 where
  pub u : Object
  pub target_ref : ObjRef
  pub inherited : Bool

abbrev pub empty_obj_ref : ObjRef
empty_obj_ref = record { group = ""; kind = ""; name = ""; namespace = "" }

-- `Policy{}`
abbrev pub empty_policy : Policy
empty_policy = record { u = empty; target_ref = empty_obj_ref; inherited = false }

-- The copies of both references that `IsAttachedTo` changes.
abbrev pub normalize : ObjRef → ObjRef
normalize r =
    let named : ObjRef =
      if r.kind ≐ "Namespace" && r.name ≐ "" then record r { name = "default" } else r in
    if not (named.kind ≐ "Namespace") && named.namespace ≐ ""
    then record named { namespace = "default" }
    else named

unfoldable pub is_attached_to : Policy → ObjRef → Bool
is_attached_to p obj_ref = normalize p.target_ref ≐ normalize obj_ref

module _ (k : Machinery) where
  open k use {group, kind, namespace, name, nested_field_copy, from_unstructured}

  unfoldable pub policy_crd_id : Object → PolicyCrdId
  policy_crd_id u = kind u ⧺ ("." ⧺ group u)

  -- `Policy.Name`
  unfoldable pub full_name : Policy → String
  full_name p = policy_crd_id p.u ⧺ ("/" ⧺ (namespace p.u ⧺ ("/" ⧺ name p.u)))

  -- The target of the policy: in its own namespace, if it names none.
  unfoldable pub target : Object → GenericPolicy → ObjRef
  target u s = record {
    group = s.target_ref.group;
    kind = s.target_ref.kind;
    name = s.target_ref.name;
    namespace = elim s.target_ref.namespace [
      | none ↦ if s.namespace ≐ "" then namespace u else s.namespace
      | some given ↦ given
    ];
  }

  -- The error of a conversion is wrapped.
  abbrev pub converted : Reply GenericPolicy → Outcome GenericPolicy
  converted (value s) = ok s
  converted (error _) = err not_structured

  -- `PolicyFromUnstructured`
  unfoldable pub policy_from_unstructured : Object → Dict PolicyCrdId PolicyCrd → Outcome Policy
  unfolding target
  policy_from_unstructured u policy_crds = do
    s ← converted (from_unstructured u)
    elim (get (policy_crd_id u) policy_crds) [
      | none ↦ err no_crd
      | some crd ↦ ok (record { u = u; target_ref = target u s; inherited = Crd.is_inherited crd })
    ]

  -- The reference to a policy itself.
  unfoldable pub policy_ref : Policy → ObjRef
  policy_ref p = record {
    group = group p.u;
    kind = kind p.u;
    name = name p.u;
    namespace = namespace p.u;
  }

  -- `ToPolicyRefs`
  unfoldable pub to_policy_refs : List Policy → List ObjRef
  unfolding policy_ref
  to_policy_refs policies = map policy_ref policies

  -- `Policy.Spec`: `none` is the nil map, also where the field cannot be read.
  abbrev spec_of : Reply (Option Value) → Option Object
  spec_of (value (some v)) = as_object v
  spec_of _ = none

  unfoldable pub spec : Policy → Option Object
  spec p = spec_of (nested_field_copy p.u ("spec" ∷ []))
