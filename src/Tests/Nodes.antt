-- ===== src/Tests/Nodes.antt =====
-- Nodes that are added and connected.
use gateway_api.Prelude.{some, [], ◌∷◌, ◌≡◌, refl, String-discrete, string_key}
use gateway_api.Prelude.Dict.{get}
use gateway_api.Policy.Object.{Policy}
use gateway_api.Discovery.Id.{ResourceId-discrete, resource_id_key}
use gateway_api.Discovery.Model.{ResourceModel, empty_model, add_gateways, add_http_routes}
use gateway_api.Discovery.Connect.{connect_http_route_with_gateway}
use gateway_api.Discovery.Connect.Links.Views.{IsLinked}
use gateway_api.Discovery.Connect.Links.Built.{
  Built, nothing, called, gateways_added, http_routes_added, gateway_connected, Built-IsLinked,
}
use gateway_api.Discovery.Attach.{add_policy_if_target_exists}
use gateway_api.Discovery.Attach.Targets.{with_targeting, add_policy_if_target_exists-get}
use gateway_api.Tests.Machine.{machine}
use gateway_api.Tests.Data.{parent}
use gateway_api.Tests.Models.{an_id, a_gateway, a_route, a_model, gateway_node}

abbrev with_gateway : ResourceModel
with_gateway = add_gateways (a_gateway ∷ []) empty_model

abbrev with_route : ResourceModel
with_route = add_http_routes (a_route ∷ []) with_gateway

abbrev with_connection : ResourceModel
with_connection =
    connect_http_route_with_gateway (an_id "prod" "route") (an_id "prod" "gw") with_route

with_connection-Built : Built machine with_connection
with_connection-Built =
    called
      (called (called nothing (gateways_added (a_gateway ∷ []) empty_model))
        (http_routes_added (a_route ∷ []) with_gateway))
      (gateway_connected (an_id "prod" "route") (an_id "prod" "gw") with_route)

Built-IsLinked_example : IsLinked with_connection
Built-IsLinked_example = Built-IsLinked machine with_connection-Built

has_gateway : get (an_id "prod" "gw") a_model.gateways ≡ some gateway_node
unfolding get ResourceId-discrete String-discrete
has_gateway = refl

-- A policy whose target is the Gateway.
abbrev targeting : Policy
targeting = record parent {
  target_ref = record {
    group = "gateway.networking.k8s.io";
    kind = "Gateway";
    name = "gw";
    namespace = "prod";
  };
}

add_policy_if_target_exists-get_example :
    get (an_id "prod" "gw") (add_policy_if_target_exists machine (targeting ∷ []) a_model).gateways
    ≡ some (record gateway_node {
      policies = with_targeting machine (an_id "prod" "gw") (targeting ∷ []) gateway_node.policies;
    })
add_policy_if_target_exists-get_example =
    add_policy_if_target_exists-get machine (targeting ∷ []) (an_id "prod" "gw") a_model
      gateway_node has_gateway
