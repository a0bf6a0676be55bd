-- ===== src/Tests/Manager.antt =====
-- A policy manager with two policy CRDs.
use gateway_api.Prelude.{
  String, true, some, [], ◌∷◌, ◌≡◌, ◌≢◌, ◌↔◌, ◌⊎◌, refl, arith, ite, string_key, String-discrete,
}
use text.Mathlib.TextEquality.{eq_iff}
use gateway_api.Prelude.Lists.{In}
use gateway_api.Prelude.Text.{to_lower}
use gateway_api.Prelude.Dict.{get, set}
use gateway_api.Prelude.Outcome.{ok, value}
use gateway_api.Api.Meta.{ObjRef}
use gateway_api.Policy.Value.{Object, string, object, field, empty, member}
use gateway_api.Policy.Crd
use gateway_api.Policy.Crd.{PolicyCrd, CustomResourceDefinition, cluster_scoped, policy_label_key}
use gateway_api.Policy.Object.{Policy, policy_crd_id, policy_from_unstructured, target}
use gateway_api.Policy.Manager.{
  DynamicClient, PolicyManager, new, policies_attached_to, get_policies, get_policy, policy_key,
  add_policy, init,
}
use gateway_api.Policy.Manager.Laws.{
  IsSameTarget, In-policies_attached_to, IsManaged, add_policy-get, add_policy_same_name,
}
use gateway_api.Policy.Manager.Init.{IsRegistered, init-IsManaged}
use gateway_api.Tests.Machine.{machine, text_at}

abbrev crd_of : String → String → CustomResourceDefinition
crd_of kind label = record {
  name = kind;
  labels = (policy_label_key, label) ∷ [];
  group = "example.com";
  kind = kind;
  plural = kind;
  scope = cluster_scoped;
  versions = "v1" ∷ [];
}

abbrev object_of : String → Object
object_of kind = field "apiVersion" (string "example.com") (
    field "kind" (string kind) (
      field "metadata"
        (object (field "name" (string "p") (field "namespace" (string "prod") empty)))
        (field "spec"
          (object (
            field "targetRef"
              (object (field "kind" (string "Gateway") (field "name" (string "gw") empty))) empty))
          empty)))

abbrev timeouts : Object
timeouts = object_of "TimeoutPolicy"

abbrev retries : Object
retries = object_of "RetryPolicy"

abbrev gateway_object : ObjRef
gateway_object = record { group = ""; kind = "Gateway"; name = "gw"; namespace = "prod" }

abbrev timeout_policy : Policy
timeout_policy = record { u = timeouts; target_ref = gateway_object; inherited = true }

abbrev manager : PolicyManager
manager = record {
  policy_crds =
      ("TimeoutPolicy.example.com", record { crd = crd_of "TimeoutPolicy" "Inherited" })
      ∷ ("RetryPolicy.example.com", record { crd = crd_of "RetryPolicy" "Direct" })
      ∷ [];
  policies = [];
}

-- A client that lists one object, of whatever it is asked for, and one CRD.
abbrev client : DynamicClient
client = record {
  list = λ resource namespace. value (timeouts ∷ []);
  crds_from_unstructured = λ objects. value (crd_of "TimeoutPolicy" "Inherited" ∷ []);
}

manager-IsManaged : IsManaged machine manager
unfolding get
manager-IsManaged = record { distinct = tt; keyed = λ key p e. cc }

In-policies_attached_to_example :
    In timeout_policy (
      policies_attached_to
        (record manager { policies = ("prod/p", timeout_policy) ∷ [] })
        gateway_object)
    ↔ (In timeout_policy
          (get_policies (record manager { policies = ("prod/p", timeout_policy) ∷ [] }))
        × IsSameTarget timeout_policy.target_ref gateway_object)
In-policies_attached_to_example =
    In-policies_attached_to (record manager { policies = ("prod/p", timeout_policy) ∷ [] })
      timeout_policy gateway_object

add_policy-get_example :
    ((add_policy machine timeouts manager).0 ≡ manager)
      × ((add_policy machine timeouts manager).1 ≢ ok tt)
      × ((p : Policy) → policy_from_unstructured machine timeouts manager.policy_crds ≢ ok p)
    ⊎ ((p : Policy) × (policy_from_unstructured machine timeouts manager.policy_crds ≡ ok p)
        × ((add_policy machine timeouts manager).1 ≡ ok tt)
        × ((key : String)
            → get_policy (add_policy machine timeouts manager).0 key
              ≡ ite
                  (String-discrete (policy_key machine timeouts) key)
                  (some p)
                  (get_policy manager key)))
add_policy-get_example = add_policy-get machine timeouts manager

init-IsManaged_example :
    IsManaged machine (init machine client new).0 × IsRegistered (init machine client new).0
init-IsManaged_example = init-IsManaged machine client

abbrev timeout_id : String
timeout_id = "TimeoutPolicy.example.com"

ids_differ : timeout_id ≢ "RetryPolicy.example.com"
ids_differ = ground (arith, eq_iff "TimeoutPolicy.example.com" "RetryPolicy.example.com")

kinds_differ : policy_crd_id machine timeouts ≢ policy_crd_id machine retries
unfolding policy_crd_id text_at member String-discrete
kinds_differ = ids_differ

one_key : policy_key machine timeouts ≡ policy_key machine retries
unfolding text_at member String-discrete
one_key = refl

made : policy_from_unstructured machine timeouts manager.policy_crds ≡ ok timeout_policy
unfolding policy_from_unstructured target policy_crd_id text_at member get Crd.is_inherited
    String-discrete to_lower
made = refl

added : (add_policy machine retries (add_policy machine timeouts manager).0).1 ≡ ok tt
unfolding add_policy policy_from_unstructured target policy_crd_id text_at member get set
    String-discrete
added = refl

add_policy_same_name_example :
    In timeout_policy (get_policies (add_policy machine timeouts manager).0)
    × ¬ (
        In timeout_policy
          (get_policies (add_policy machine retries (add_policy machine timeouts manager).0).0))
add_policy_same_name_example =
    add_policy_same_name machine timeouts retries manager timeout_policy manager-IsManaged one_key
      kinds_differ made added
