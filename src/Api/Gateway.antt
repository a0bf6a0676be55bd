-- ===== src/Api/Gateway.antt =====
-- apis/v1/gateway_types.go and apis/v1/gatewayclass_types.go, and `corev1.Namespace`.
use gateway_api.Prelude.{String}
use gateway_api.Api.Meta.{ObjectMeta}

-- `GatewaySpec`: the class that the Gateway names.
pub record GatewaySpec : Type 0 where
  pub gateway_class_name : String

pub record Gateway : Type 0 where
  pub metadata : ObjectMeta
  pub spec : GatewaySpec

pub record GatewayClassSpec : Type 0 where
  pub controller_name : String

pub record GatewayClass : Type 0 where
  pub metadata : ObjectMeta
  pub spec : GatewayClassSpec

-- `corev1.Namespace`
pub record Namespace : Type 0 where
  pub metadata : ObjectMeta
