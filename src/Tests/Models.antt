-- ===== src/Tests/Models.antt =====
-- A model with a GatewayClass, a Namespace, a Gateway, an HTTPRoute, a backend and a
-- ReferenceGrant.
use gateway_api.Prelude.{String, some, [], ◌∷◌, string_key}
use gateway_api.Api.Meta.{ObjectMeta, TypeMeta}
use gateway_api.Api.Route.{HttpRoute}
use gateway_api.Api.Gateway.{Gateway}
use gateway_api.Policy.Value.{empty}
use gateway_api.Discovery.Id.{ResourceId, resource_id_key, PolicyId}
use gateway_api.Discovery.Node.{
  PolicyNode, GatewayClassNode, GatewayNode, HttpRouteNode, BackendNode, NamespaceNode,
  ReferenceGrantNode, new_policy_node,
}
use gateway_api.Discovery.Model.{ResourceModel}
use gateway_api.Tests.Data.{parent, child}

abbrev pub meta : String → String → ObjectMeta
meta namespace name = record { namespace = namespace; name = name; uid = "" }

abbrev pub an_id : String → String → ResourceId
an_id namespace name = record { group = ""; kind = ""; namespace = namespace; name = name }

abbrev pub a_gateway : Gateway
a_gateway = record { metadata = meta "prod" "gw"; spec = record { gateway_class_name = "class" } }

abbrev pub http_route_type : TypeMeta
http_route_type = record { api_version = "gateway.networking.k8s.io/v1"; kind = "HTTPRoute" }

abbrev pub a_route : HttpRoute
a_route = record {
  type_meta = http_route_type;
  metadata = meta "prod" "route";
  spec = record { parent_refs = []; hostnames = []; rules = [] };
}

abbrev pub parent_id : PolicyId
parent_id = record {
  group = "example.com";
  kind = "timeoutpolicy";
  namespace = "prod";
  name = "parent";
}

abbrev pub child_id : PolicyId
child_id = record {
  group = "example.com";
  kind = "timeoutpolicy";
  namespace = "prod";
  name = "child";
}

abbrev pub parent_node : PolicyNode
parent_node = new_policy_node (some parent)

abbrev pub child_node : PolicyNode
child_node = new_policy_node (some child)

abbrev pub class_node : GatewayClassNode
class_node = record {
  gateway_class =
      some (record { metadata = meta "" "class"; spec = record { controller_name = "c" } });
  gateways = [];
  policies = (parent_id, parent_node) ∷ [];
}

abbrev pub namespace_node : NamespaceNode
namespace_node = record {
  namespace = record { metadata = meta "" "prod" };
  gateways = [];
  http_routes = [];
  backends = [];
  policies = [];
}

abbrev pub gateway_node : GatewayNode
gateway_node = record {
  gateway = some a_gateway;
  namespace = some (an_id "" "prod");
  gateway_class = some (an_id "" "class");
  http_routes = [];
  policies = (child_id, child_node) ∷ [];
  effective_policies = [];
  events = [];
  errors = [];
}

abbrev pub route_node : HttpRouteNode
route_node = record {
  http_route = some a_route;
  namespace = some (an_id "" "prod");
  gateways = (an_id "prod" "gw", an_id "prod" "gw") ∷ [];
  backends = [];
  policies = [];
  effective_policies = [];
  errors = [];
}

abbrev pub backend_node : BackendNode
backend_node = record {
  backend = some empty;
  namespace = some (an_id "" "prod");
  http_routes = [];
  policies = [];
  reference_grants = [];
  effective_policies = [];
  errors = [];
}

abbrev pub grant_node : ReferenceGrantNode
grant_node = record {
  reference_grant = record { metadata = meta "prod" "grant"; spec = record { from = []; to = [] } };
  backends = [];
}

abbrev pub a_model : ResourceModel
a_model = record {
  gateway_classes = (an_id "" "class", class_node) ∷ [];
  namespaces = (an_id "" "prod", namespace_node) ∷ [];
  gateways = (an_id "prod" "gw", gateway_node) ∷ [];
  http_routes = (an_id "prod" "route", route_node) ∷ [];
  backends = (an_id "prod" "svc", backend_node) ∷ [];
  reference_grants = (an_id "prod" "grant", grant_node) ∷ [];
  policies = [];
}
