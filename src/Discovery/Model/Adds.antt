-- ===== src/Discovery/Model/Adds.antt =====
-- The methods that add nodes: a node that is there already stays, with its connections.
use gateway_api.Prelude.{
  Option, none, some, List, [], ◌∷◌, ◌≡◌, refl, arith, Option-cases, inl, inr, ◌≐◌, if◌then◌else◌,
}
use gateway_api.Prelude.Dict.{Dict, get, set_if_missing, get-set}
use gateway_api.Api.Route.{HttpRoute}
use gateway_api.Api.Gateway.{Gateway}
use gateway_api.Discovery.Id.{ResourceId, GatewayId, HttpRouteId, resource_id_key}
use gateway_api.Discovery.Node.{
  GatewayNode, HttpRouteNode, new_gateway_node, new_http_route_node, gateway_node_id,
  http_route_node_id,
}
use gateway_api.Discovery.Model.{ResourceModel, add_gateways, add_http_routes}

-- The node under an id after a resource has been added to the map: the old one, if there is one.
abbrev pub kept_or_new : {N : Type 0} → Option N → Option N → Option N
kept_or_new none new = new
kept_or_new (some node) new = some node

pub get-set_if_missing :
    {N : Type 0} (id j : ResourceId) (node : N) (nodes : Dict ResourceId N)
    → get j (set_if_missing id node nodes)
      ≡ kept_or_new (get j nodes) (if id ≐ j then some node else none)
unfolding set_if_missing
get-set_if_missing id j node nodes = elim (Option-cases (get id nodes)) [
  | inl e ↦ ground (arith, get-set id j node nodes)
  | inr (old, e) ↦ ground arith
]

-- The node of the first of the Gateways that has the id.
abbrev pub first_gateway : GatewayId → List Gateway → Option GatewayNode
first_gateway id [] = none
first_gateway id (gateway ∷ rest) =
    if gateway_node_id (new_gateway_node (some gateway)) ≐ id
    then some (new_gateway_node (some gateway))
    else first_gateway id rest

abbrev pub first_http_route : HttpRouteId → List HttpRoute → Option HttpRouteNode
first_http_route id [] = none
first_http_route id (http_route ∷ rest) =
    if http_route_node_id (new_http_route_node (some http_route)) ≐ id
    then some (new_http_route_node (some http_route))
    else first_http_route id rest

-- After `add_gateways` the node under an id is the one that was there, with its connections; else
-- it is a new one for the first of the Gateways with that id, and there is none without such a
-- Gateway.
pub add_gateways-get :
    (gateways : List Gateway) (rm : ResourceModel) (id : GatewayId)
    → get id (add_gateways gateways rm).gateways
      ≡ kept_or_new (get id rm.gateways) (first_gateway id gateways)
unfolding add_gateways
add_gateways-get [] rm id = elim (Option-cases (get id rm.gateways)) [
  | inl e ↦ rw e refl
  | inr (old, e) ↦ rw e refl
]
add_gateways-get (gateway ∷ rest) rm id =
    let node = new_gateway_node (some gateway) in
    ground (
      arith,
      add_gateways-get rest
          (record rm { gateways = set_if_missing (gateway_node_id node) node rm.gateways }) id,
      get-set_if_missing (gateway_node_id node) id node rm.gateways,
    )

-- After `add_http_routes` the node under an id is the one that was there, with its connections;
-- else it is a new one for the first of the HTTPRoutes with that id, and there is none without
-- such an HTTPRoute.
pub add_http_routes-get :
    (http_routes : List HttpRoute) (rm : ResourceModel) (id : HttpRouteId)
    → get id (add_http_routes http_routes rm).http_routes
      ≡ kept_or_new (get id rm.http_routes) (first_http_route id http_routes)
unfolding add_http_routes
add_http_routes-get [] rm id = elim (Option-cases (get id rm.http_routes)) [
  | inl e ↦ rw e refl
  | inr (old, e) ↦ rw e refl
]
add_http_routes-get (http_route ∷ rest) rm id =
    let node = new_http_route_node (some http_route) in
    ground (
      arith,
      add_http_routes-get rest
          (record rm { http_routes = set_if_missing (http_route_node_id node) node rm.http_routes })
          id,
      get-set_if_missing (http_route_node_id node) id node rm.http_routes,
    )
