-- ===== src/Discovery/Node.antt =====
-- The nodes of gwctl/pkg/resourcediscovery/nodes.go.
use gateway_api.Prelude.{List, Option, none, some, [], ◌≐◌, string_key, if◌then◌else◌}
use gateway_api.Prelude.Dict.{Dict}
use gateway_api.Relations.{or_default}
use gateway_api.Api.Meta.{Event}
use gateway_api.Api.Route.{HttpRoute}
use gateway_api.Api.Gateway.{Gateway, GatewayClass, Namespace}
use gateway_api.Api.Grant.{ReferenceGrant}
use gateway_api.Policy.Value.{Object}
use gateway_api.Policy.Machinery.{Machinery}
use gateway_api.Policy.Object.{Policy}
use gateway_api.Policy.Merge.{Policies}
use gateway_api.Discovery.Errors.{NodeError}
use gateway_api.Discovery.Id.{
  GatewayClassId, NamespaceId, GatewayId, HttpRouteId, BackendId, ReferenceGrantId, PolicyId,
  empty_id, gateway_class_id, namespace_id, gateway_id, http_route_id, backend_id, policy_id,
  reference_grant_id,
}

pub record PolicyNode : Type 0 where
  pub policy : Option Policy
  pub namespace : Option NamespaceId
  pub gateway_class : Option GatewayClassId
  pub gateway : Option GatewayId
  pub http_route : Option HttpRouteId
  pub backend : Option BackendId

pub record GatewayClassNode : Type 0 where
  pub gateway_class : Option GatewayClass
  pub gateways : Dict GatewayId GatewayId
  pub policies : Dict PolicyId PolicyNode

pub record GatewayNode : Type 0 where
  pub gateway : Option Gateway
  pub namespace : Option NamespaceId
  pub gateway_class : Option GatewayClassId
  pub http_routes : Dict HttpRouteId HttpRouteId
  pub policies : Dict PolicyId PolicyNode
  pub effective_policies : Policies
  pub events : List Event
  pub errors : List NodeError

pub record HttpRouteNode : Type 0 where
  pub http_route : Option HttpRoute
  pub namespace : Option NamespaceId
  pub gateways : Dict GatewayId GatewayId
  pub backends : Dict BackendId BackendId
  pub policies : Dict PolicyId PolicyNode
  pub effective_policies : Dict GatewayId Policies
  pub errors : List NodeError

pub record BackendNode : Type 0 where
  pub backend : Option Object
  pub namespace : Option NamespaceId
  pub http_routes : Dict HttpRouteId HttpRouteId
  pub policies : Dict PolicyId PolicyNode
  pub reference_grants : Dict ReferenceGrantId ReferenceGrantId
  pub effective_policies : Dict GatewayId Policies
  pub errors : List NodeError

pub record NamespaceNode : Type 0 where
  pub namespace : Namespace
  pub gateways : Dict GatewayId GatewayId
  pub http_routes : Dict HttpRouteId HttpRouteId
  pub backends : Dict BackendId BackendId
  pub policies : Dict PolicyId PolicyNode

pub record ReferenceGrantNode : Type 0 where
  pub reference_grant : ReferenceGrant
  pub backends : Dict BackendId BackendId

abbrev pub new_policy_node : Option Policy → PolicyNode
new_policy_node policy = record {
  policy = policy;
  namespace = none;
  gateway_class = none;
  gateway = none;
  http_route = none;
  backend = none;
}

abbrev pub new_gateway_class_node : Option GatewayClass → GatewayClassNode
new_gateway_class_node gateway_class = record {
  gateway_class = gateway_class;
  gateways = [];
  policies = [];
}

abbrev pub new_gateway_node : Option Gateway → GatewayNode
new_gateway_node gateway = record {
  gateway = gateway;
  namespace = none;
  gateway_class = none;
  http_routes = [];
  policies = [];
  effective_policies = [];
  events = [];
  errors = [];
}

abbrev pub new_http_route_node : Option HttpRoute → HttpRouteNode
new_http_route_node http_route = record {
  http_route = http_route;
  namespace = none;
  gateways = [];
  backends = [];
  policies = [];
  effective_policies = [];
  errors = [];
}

abbrev pub new_backend_node : Option Object → BackendNode
new_backend_node backend = record {
  backend = backend;
  namespace = none;
  http_routes = [];
  policies = [];
  reference_grants = [];
  effective_policies = [];
  errors = [];
}

-- The namespace without a name is named "default".
unfoldable pub new_namespace_node : Namespace → NamespaceNode
unfolding or_default
new_namespace_node namespace = record {
  namespace = record {
    metadata = record (namespace.metadata) { name = or_default namespace.metadata.name };
  };
  gateways = [];
  http_routes = [];
  backends = [];
  policies = [];
}

abbrev pub new_reference_grant_node : ReferenceGrant → ReferenceGrantNode
new_reference_grant_node reference_grant = record {
  reference_grant = reference_grant;
  backends = [];
}

-- The `ID` methods: a nil resource, or one without a name, has the empty id.
unfoldable pub gateway_class_node_id : GatewayClassNode → GatewayClassId
unfolding gateway_class_id
gateway_class_node_id g = elim g.gateway_class [
  | none ↦ empty_id
  | some gateway_class ↦ gateway_class_id gateway_class.metadata.name
]

unfoldable pub gateway_node_id : GatewayNode → GatewayId
unfolding gateway_id
gateway_node_id g = elim g.gateway [
  | none ↦ empty_id
  | some gateway ↦ gateway_id gateway.metadata.namespace gateway.metadata.name
]

unfoldable pub http_route_node_id : HttpRouteNode → HttpRouteId
unfolding http_route_id
http_route_node_id h = elim h.http_route [
  | none ↦ empty_id
  | some http_route ↦ http_route_id http_route.metadata.namespace http_route.metadata.name
]

unfoldable pub namespace_node_id : NamespaceNode → NamespaceId
unfolding namespace_id
namespace_node_id n =
    if n.namespace.metadata.name ≐ "" then empty_id else namespace_id n.namespace.metadata.name

unfoldable pub reference_grant_node_id : ReferenceGrantNode → ReferenceGrantId
unfolding reference_grant_id
reference_grant_node_id r =
    if r.reference_grant.metadata.name ≐ ""
    then empty_id
    else reference_grant_id r.reference_grant.metadata.namespace r.reference_grant.metadata.name

module _ (k : Machinery) where
  open k use {group, kind, get_kind, namespace, name}

  unfoldable pub backend_node_id : BackendNode → BackendId
  unfolding backend_id
  backend_node_id b = elim b.backend [
    | none ↦ empty_id
    | some u ↦ backend_id (group u) (kind u) (namespace u) (name u)
  ]

  unfoldable pub policy_node_id : PolicyNode → PolicyId
  unfolding policy_id
  policy_node_id p = elim p.policy [
    | none ↦ empty_id
    | some policy ↦
        policy_id (group policy.u) (get_kind policy.u) (namespace policy.u) (name policy.u)
  ]
