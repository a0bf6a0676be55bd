-- ===== src/Policy/Machinery.antt =====
-- What gwctl calls in k8s.io/apimachinery, encoding/json and github.com/evanphx/json-patch: a
-- parameter of the model. An `unstructured.Unstructured` is known by its content, so `DeepCopy`
-- is the identity and `SetUnstructuredContent` puts another content in its place.
use gateway_api.Prelude.{String, ℕ, List, Option}
use gateway_api.Prelude.Outcome.{Reply}
use gateway_api.Policy.Value.{Object, Value}

-- `NamespacedPolicyTargetReference` of apis/v1alpha2/policy_types.go.
pub record NamespacedPolicyTargetReference : Type 0 where
  pub group : String
  pub kind : String
  pub name : String
  pub namespace : Option String

-- The struct `genericPolicy` that a policy's content is converted to: what is read of it.
pub record GenericPolicy : Type 0 where
  pub namespace : String
  pub target_ref : NamespacedPolicyTargetReference

pub record Machinery : Type 1 where
  pub Bytes : Type 0
  -- `GroupVersionKind().Group` and `.Kind`, `GetNamespace()`, `GetName()`
  pub group : Object → String
  pub kind : Object → String
  -- `GetKind()`, which is that kind only where the API version can be parsed
  pub get_kind : Object → String
  pub namespace : Object → String
  pub name : Object → String
  -- `GetCreationTimestamp()`, as the time that has passed since the zero time
  pub creation_timestamp : Object → ℕ
  -- `unstructured.NestedFieldCopy`
  pub nested_field_copy : Object → List String → Reply (Option Value)
  -- `DefaultUnstructuredConverter.FromUnstructured` into a `genericPolicy`
  pub from_unstructured : Object → Reply GenericPolicy
  -- `json.Marshal`, `json.Unmarshal` and `jsonpatch.MergePatch`
  pub marshal : Object → Reply Bytes
  pub unmarshal : Bytes → Reply Object
  pub merge_patch : Bytes → Bytes → Reply Bytes
