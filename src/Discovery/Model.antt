-- ===== src/Discovery/Model.antt =====
-- `ResourceModel` of gwctl/pkg/resourcediscovery/resourcemodel.go, and the methods that add nodes.
-- A nil map reads as an empty one, and each method makes the map that it writes to.
pub mod Adds
use gateway_api.Prelude.{Option, some, List, [], ◌∷◌}
use gateway_api.Prelude.Dict.{Dict, set_if_missing}
use gateway_api.Api.Route.{HttpRoute}
use gateway_api.Api.Gateway.{Gateway, GatewayClass, Namespace}
use gateway_api.Api.Grant.{ReferenceGrant}
use gateway_api.Policy.Value.{Object}
use gateway_api.Policy.Machinery.{Machinery}
use gateway_api.Discovery.Id.{
  GatewayClassId, NamespaceId, GatewayId, HttpRouteId, BackendId, ReferenceGrantId, PolicyId,
  resource_id_key,
}
use gateway_api.Discovery.Node.{
  PolicyNode, GatewayClassNode, GatewayNode, HttpRouteNode, BackendNode, NamespaceNode,
  ReferenceGrantNode, new_gateway_class_node, new_gateway_node, new_http_route_node,
  new_backend_node, new_namespace_node, new_reference_grant_node, gateway_class_node_id,
  gateway_node_id, http_route_node_id, backend_node_id, namespace_node_id, reference_grant_node_id,
}

pub record ResourceModel : Type 0 where
  pub gateway_classes : Dict GatewayClassId GatewayClassNode
  pub namespaces : Dict NamespaceId NamespaceNode
  pub gateways : Dict GatewayId GatewayNode
  pub http_routes : Dict HttpRouteId HttpRouteNode
  pub backends : Dict BackendId BackendNode
  pub reference_grants : Dict ReferenceGrantId ReferenceGrantNode
  pub policies : Dict PolicyId PolicyNode

-- `&ResourceModel{}`
abbrev pub empty_model : ResourceModel
empty_model = record {
  gateway_classes = [];
  namespaces = [];
  gateways = [];
  http_routes = [];
  backends = [];
  reference_grants = [];
  policies = [];
}

unfoldable pub add_gateway_classes : List GatewayClass → ResourceModel → ResourceModel
add_gateway_classes [] rm = rm
add_gateway_classes (gateway_class ∷ rest) rm =
    let node = new_gateway_class_node (some gateway_class) in
    add_gateway_classes rest (record rm {
      gateway_classes = set_if_missing (gateway_class_node_id node) node rm.gateway_classes;
    })

unfoldable pub add_namespace : List Namespace → ResourceModel → ResourceModel
add_namespace [] rm = rm
add_namespace (namespace ∷ rest) rm =
    let node = new_namespace_node namespace in
    add_namespace rest
      (record rm { namespaces = set_if_missing (namespace_node_id node) node rm.namespaces })

unfoldable pub add_gateways : List Gateway → ResourceModel → ResourceModel
add_gateways [] rm = rm
add_gateways (gateway ∷ rest) rm =
    let node = new_gateway_node (some gateway) in
    add_gateways rest
      (record rm { gateways = set_if_missing (gateway_node_id node) node rm.gateways })

unfoldable pub add_http_routes : List HttpRoute → ResourceModel → ResourceModel
add_http_routes [] rm = rm
add_http_routes (http_route ∷ rest) rm =
    let node = new_http_route_node (some http_route) in
    add_http_routes rest
      (record rm { http_routes = set_if_missing (http_route_node_id node) node rm.http_routes })

unfoldable pub add_backends : (k : Machinery) → List Object → ResourceModel → ResourceModel
add_backends k [] rm = rm
add_backends k (backend ∷ rest) rm =
    let node = new_backend_node (some backend) in
    add_backends k rest
      (record rm { backends = set_if_missing (backend_node_id k node) node rm.backends })

unfoldable pub add_reference_grants : List ReferenceGrant → ResourceModel → ResourceModel
add_reference_grants [] rm = rm
add_reference_grants (reference_grant ∷ rest) rm =
    let node = new_reference_grant_node reference_grant in
    add_reference_grants rest (record rm {
      reference_grants = set_if_missing (reference_grant_node_id node) node rm.reference_grants;
    })
