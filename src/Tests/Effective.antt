-- ===== src/Tests/Effective.antt =====
-- The effective policies of a small model.
use gateway_api.Prelude.{arith, some, ◌≡◌, refl, String-discrete, string_key}
use gateway_api.Prelude.Dict.{Dict, get, set, Distinct}
use gateway_api.Prelude.Outcome.{ok}
use gateway_api.Policy.Value.{member, delete}
use gateway_api.Policy.Object.{policy_crd_id, full_name}
use gateway_api.Policy.Merge.{
  Policies, merge_policy, merge_unstructured, patch_override, copy_into, merge_into, merge_policies,
  merge_policies_of_different_hierarchy, merge_similar, merge_policies_of_similar_kind,
}
use gateway_api.Discovery.Id.{ResourceId-discrete, resource_id_key, GatewayId}
use gateway_api.Discovery.Effective.{
  for_each, policies_of, convert_policies_map_to_slice, merge_hierarchies,
  effective_policies_for_gateway, calculate_effective_policies_for_gateways,
  calculate_effective_policies_for_http_routes, effective_policies_for_http_route,
  merge_for_gateways,
}
use gateway_api.Discovery.Effective.Routes.{
  AreDistinct, IsRouteEffective, calculate_effective_policies_for_http_routes-IsRouteEffective,
}
use gateway_api.Discovery.Effective.Gateways.{
  IsEffective, calculate_effective_policies_for_gateways-IsEffective,
}
use gateway_api.Prelude.Sort.{sort_by}
use gateway_api.Tests.Machine.{machine, patched, put, text_at}
use gateway_api.Tests.Models.{a_model, an_id, gateway_node, route_node}

gateways_done : (calculate_effective_policies_for_gateways machine a_model).1 ≡ ok tt
unfolding calculate_effective_policies_for_gateways effective_policies_for_gateway for_each
    convert_policies_map_to_slice policies_of sort_by full_name merge_hierarchies
    merge_policies_of_different_hierarchy merge_policies_of_similar_kind merge_similar
    merge_policies merge_into copy_into get set merge_policy merge_unstructured patch_override
    policy_crd_id patched member delete put text_at String-discrete ResourceId-discrete
gateways_done = refl

gateways-Distinct : Distinct a_model.gateways
unfolding get
gateways-Distinct = (refl, tt)

has_gateway : get (an_id "prod" "gw") a_model.gateways ≡ some gateway_node
unfolding get ResourceId-discrete String-discrete
has_gateway = refl

calculate_effective_policies_for_gateways-IsEffective_example :
    (result : Policies) × (get
        (an_id "prod" "gw")
        (calculate_effective_policies_for_gateways machine a_model).0.gateways
      ≡ some (record gateway_node { effective_policies = result }))
    × IsEffective machine a_model gateway_node (an_id "" "class") result
calculate_effective_policies_for_gateways-IsEffective_example =
    calculate_effective_policies_for_gateways-IsEffective machine a_model (an_id "prod" "gw")
      gateway_node (an_id "" "class") gateways-Distinct has_gateway refl gateways_done

routes_done : (calculate_effective_policies_for_http_routes machine a_model).1 ≡ ok tt
unfolding calculate_effective_policies_for_http_routes effective_policies_for_http_route
    merge_for_gateways for_each convert_policies_map_to_slice policies_of sort_by full_name
    merge_policies_of_different_hierarchy merge_policies_of_similar_kind merge_similar
    merge_policies merge_into copy_into get set String-discrete ResourceId-discrete
routes_done = refl

routes-Distinct : Distinct a_model.http_routes
unfolding get
routes-Distinct = (refl, tt)

route_gateways-Distinct : Distinct route_node.gateways
unfolding get
route_gateways-Distinct = (refl, tt)

has_route : get (an_id "prod" "route") a_model.http_routes ≡ some route_node
unfolding get ResourceId-discrete String-discrete
has_route = refl

gateway_policies_distinct : AreDistinct a_model
unfolding get
gateway_policies_distinct id gateway e =
    let same : gateway_node ≡ gateway = ground arith in rw (← same) tt

calculate_effective_policies_for_http_routes-IsRouteEffective_example :
    (result : Dict GatewayId Policies) × (get
        (an_id "prod" "route")
        (calculate_effective_policies_for_http_routes machine a_model).0.http_routes
      ≡ some (record route_node { effective_policies = result }))
    × IsRouteEffective machine a_model route_node result
calculate_effective_policies_for_http_routes-IsRouteEffective_example =
    calculate_effective_policies_for_http_routes-IsRouteEffective machine a_model
      (an_id "prod" "route") route_node gateway_policies_distinct routes-Distinct
      route_gateways-Distinct has_route routes_done
