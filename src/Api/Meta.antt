-- ===== src/Api/Meta.antt =====
-- Kubernetes metadata, as far as the library reads it, and `common.ObjRef` of
-- gwctl/pkg/common/types.go.
use gateway_api.Prelude.{String, Key, String-discrete}

-- `metav1.ObjectMeta`: the fields that are read.
pub record ObjectMeta : Type 0 where
  pub name : String
  pub namespace : String
  pub uid : String

-- `metav1.TypeMeta`
pub record TypeMeta : Type 0 where
  pub api_version : String
  pub kind : String

-- `corev1.Event`: what is shown of it.
pub record Event : Type 0 where
  pub metadata : ObjectMeta
  pub type : String
  pub reason : String
  pub message : String

-- A reference with plain strings, which can be compared.
pub record ObjRef : Type 0 where
  pub group : String
  pub kind : String
  pub name : String
  pub namespace : String

abbrev pub ObjRef-discrete : Discrete ObjRef
ObjRef-discrete = hlevel String-discrete

instance abbrev pub obj_ref_key : Key ObjRef
obj_ref_key = record { dec = ObjRef-discrete }

-- `types.NamespacedName`
pub record NamespacedName : Type 0 where
  pub namespace : String
  pub name : String
