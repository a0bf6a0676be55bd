-- ===== src/Policy/Crd.antt =====
-- `PolicyCRD` of gwctl/pkg/policymanager/manager.go.
use gateway_api.Prelude.{String, ◌⧺◌, Bool, true, false, none, some, List, ◌≐◌, ◌||◌, string_key}
use gateway_api.Prelude.Dict.{Dict, get}
use gateway_api.Prelude.Text.{to_lower}

-- `apiextensionsv1.CustomResourceDefinition`: what is read of it.
pub data Scope : Type 0 where
  cluster_scoped namespace_scoped : Scope

pub record CustomResourceDefinition : Type 0 where
  pub name : String
  pub labels : Dict String String
  pub group : String
  pub kind : String
  pub plural : String
  pub scope : Scope
  pub versions : List String

pub record PolicyCrd : Type 0 where
  pub crd : CustomResourceDefinition

-- `PolicyCrdID`
abbrev pub PolicyCrdId : Type 0
PolicyCrdId = String

-- `PolicyLabelKey` of apis/v1alpha2/policy_types.go
abbrev pub policy_label_key : String
policy_label_key = "gateway.networking.k8s.io/policy"

-- `labels[key]`, "" where the key is missing
abbrev pub label : Dict String String → String → String
label labels key = elim (get key labels) [ none ↦ "" | some v ↦ v ]

unfoldable pub id : PolicyCrd → PolicyCrdId
id p = p.crd.kind ⧺ ("." ⧺ p.crd.group)

unfoldable pub is_inherited : PolicyCrd → Bool
is_inherited p = to_lower (label p.crd.labels policy_label_key) ≐ "inherited"

unfoldable pub is_direct : PolicyCrd → Bool
is_direct p = to_lower (label p.crd.labels policy_label_key) ≐ "direct"

unfoldable pub is_valid : PolicyCrd → Bool
unfolding is_inherited is_direct
is_valid p = is_inherited p || is_direct p || label p.crd.labels policy_label_key ≐ "true"

unfoldable pub is_cluster_scoped : PolicyCrd → Bool
is_cluster_scoped p = elim p.crd.scope [ cluster_scoped ↦ true | namespace_scoped ↦ false ]
