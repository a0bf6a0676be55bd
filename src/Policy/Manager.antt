-- ===== src/Policy/Manager.antt =====
-- `PolicyManager` of gwctl/pkg/policymanager/manager.go. The dynamic client is a parameter.
pub mod Laws
pub mod Init
use gateway_api.Prelude.{
  String, ◌⧺◌, Bool, true, false, Option, none, some, List, [], ◌∷◌, ◌++◌, ◌≐◌, string_key,
  if◌then◌else◌,
}
use gateway_api.Prelude.Dict.{Dict, get, set, values}
use gateway_api.Prelude.Outcome.{
  Outcome, ok, err, panic, Reply, value, error, lift, ◌>>=◌, crds_not_listed, crds_not_structured,
}
use gateway_api.Api.Meta.{ObjRef}
use gateway_api.Policy.Value.{Object}
use gateway_api.Policy.Machinery.{Machinery}
use gateway_api.Policy.Crd
use gateway_api.Policy.Crd.{PolicyCrd, PolicyCrdId, CustomResourceDefinition}
use gateway_api.Policy.Object.{Policy, is_attached_to, policy_from_unstructured}

-- `schema.GroupVersionResource`
pub record GroupVersionResource : Type 0 where
  pub group : String
  pub version : String
  pub resource : String

-- `dynamic.Interface`: `list` with a namespace is `Namespace(…).List(…)`. The conversion of the
-- listed CRDs is `DefaultUnstructuredConverter.FromUnstructured`.
pub record DynamicClient : Type 0 where
  pub list : GroupVersionResource → Option String → Reply (List Object)
  pub crds_from_unstructured : List Object → Reply (List CustomResourceDefinition)

pub record PolicyManager : Type 0 where
  pub policy_crds : Dict PolicyCrdId PolicyCrd
  pub policies : Dict String Policy

-- `New`
abbrev pub new : PolicyManager
new = record { policy_crds = []; policies = [] }

-- `PoliciesAttachedTo`: the loop, which appends each policy that is attached.
attached : ObjRef → Dict String Policy → List Policy
attached obj_ref [] = []
attached obj_ref ((_, policy) ∷ rest) =
    let later = attached obj_ref rest in
    if is_attached_to policy obj_ref then policy ∷ later else later

unfoldable pub policies_attached_to : PolicyManager → ObjRef → List Policy
unfolding attached
policies_attached_to p obj_ref = attached obj_ref p.policies

-- `GetCRDs`
unfoldable pub get_crds : PolicyManager → List PolicyCrd
get_crds p = values p.policy_crds

crd_named : String → Dict PolicyCrdId PolicyCrd → Option PolicyCrd
crd_named name [] = none
crd_named name ((_, crd) ∷ rest) =
    let later = crd_named name rest in if name ≐ crd.crd.name then some crd else later

-- `GetCRD`
unfoldable pub get_crd : PolicyManager → String → Option PolicyCrd
unfolding crd_named
get_crd p name = crd_named name p.policy_crds

-- `GetPolicies`
unfoldable pub get_policies : PolicyManager → List Policy
get_policies p = values p.policies

-- `GetPolicy`
unfoldable pub get_policy : PolicyManager → String → Option Policy
get_policy p namespaced_name = get namespaced_name p.policies

-- `if policyCRD.IsValid() { p.policyCRDs[policyCRD.ID()] = policyCRD }` for each CRD.
unfoldable pub register_crds : List CustomResourceDefinition → PolicyManager → PolicyManager
register_crds [] p = p
register_crds (crd ∷ rest) p =
    let policy_crd : PolicyCrd = record { crd = crd } in
    register_crds rest (
      if Crd.is_valid policy_crd
      then record p { policy_crds = set (Crd.id policy_crd) policy_crd p.policy_crds }
      else p)

-- The error of the list call and that of the conversion are wrapped.
abbrev listed : {A : Type 0} → Reply A → Outcome A
listed (value a) = ok a
listed (error e) = err (crds_not_listed e)

abbrev structured : {A : Type 0} → Reply A → Outcome A
structured (value a) = ok a
structured (error e) = err (crds_not_structured e)

module _ (dc : DynamicClient) where
  -- `fetchCRDs`
  unfoldable pub fetch_crds : Outcome (List CustomResourceDefinition)
  fetch_crds = do
    let crd_resource : GroupVersionResource = record {
      group = "apiextensions.k8s.io";
      version = "v1";
      resource = "customresourcedefinitions";
    }
    unstructured_crds ← listed (DynamicClient.list dc crd_resource none)
    structured (DynamicClient.crds_from_unstructured dc unstructured_crds)

  -- `Versions[0].Name`, which panics if there is no version.
  abbrev first_version : List String → Outcome String
  first_version [] = panic
  first_version (version ∷ _) = ok version

  -- `fetchPolicies`: the loop over the CRDs.
  unfoldable pub fetch_policies : Dict PolicyCrdId PolicyCrd → Outcome (List Object)
  fetch_policies [] = ok []
  fetch_policies ((_, p) ∷ rest) = do
    version ← first_version p.crd.versions
    let policy_resource : GroupVersionResource = record {
      group = p.crd.group;
      version = version;
      resource = p.crd.plural;
    }
    items ←
        lift (
          DynamicClient.list dc policy_resource (if Crd.is_cluster_scoped p then none else some ""))
    later ← fetch_policies rest
    ok (items ++ later)

module _ (k : Machinery) where
  open k use {namespace, name}

  -- The key under which `AddPolicy` keeps a policy.
  abbrev pub policy_key : Object → String
  policy_key u = namespace u ⧺ ("/" ⧺ name u)

  abbrev store : Object → PolicyManager → Outcome Policy → PolicyManager × Outcome (Unit {0})
  store u p (ok policy) = (record p { policies = set (policy_key u) policy p.policies }, ok tt)
  store u p (err e) = (p, err e)
  store u p panic = (p, panic)

  -- `AddPolicy`
  unfoldable pub add_policy : Object → PolicyManager → PolicyManager × Outcome (Unit {0})
  add_policy u p = store u p (policy_from_unstructured k u p.policy_crds)

  -- `for _, u := range allPolicies { if err := p.AddPolicy(u); err != nil { return err } }`
  unfoldable pub add_policies : List Object → PolicyManager → PolicyManager × Outcome (Unit {0})
  add_policies [] p = (p, ok tt)
  add_policies (u ∷ rest) p =
      let (p', added) = add_policy u p in
      elim added [ ok _ ↦ add_policies rest p' | err e ↦ (p', err e) | panic ↦ (p', panic) ]

  -- `Init`: what was registered before an error stays registered.
  unfoldable pub init : DynamicClient → PolicyManager → PolicyManager × Outcome (Unit {0})
  unfolding add_policies
  init dc p = elim (fetch_crds dc) [
    | err e ↦ (p, err e)
    | panic ↦ (p, panic)
    | ok crds ↦
        let p' = register_crds crds p in
        elim (fetch_policies dc p'.policy_crds) [
          | err e ↦ (p', err e)
          | panic ↦ (p', panic)
          | ok objects ↦ add_policies objects p'
        ]
  ]
