-- ===== src/Tests/Backends.antt =====
-- A backend behind an HTTPRoute that has effective policies.
use gateway_api.Prelude.{some, [], ◌∷◌, ◌≡◌, refl, arith, String-discrete, string_key}
use gateway_api.Prelude.Dict.{Dict, get, set, Distinct}
use gateway_api.Prelude.Outcome.{ok}
use gateway_api.Policy.Value.{member, delete}
use gateway_api.Policy.Object.{policy_crd_id, full_name}
use gateway_api.Policy.Merge.{
  Policies, merge_policy, merge_unstructured, patch_override, copy_into, merge_into, merge_policies,
  merge_policies_of_same_hierarchy, merge_policies_of_different_hierarchy, merge_similar,
  merge_policies_of_similar_kind,
}
use gateway_api.Prelude.Sort.{sort_by}
use gateway_api.Discovery.Id.{ResourceId-discrete, resource_id_key, GatewayId}
use gateway_api.Discovery.Node.{HttpRouteNode, BackendNode}
use gateway_api.Discovery.Model.{ResourceModel}
use gateway_api.Discovery.Effective.{
  for_each, policies_of, convert_policies_map_to_slice, merge_route, merge_routes, merge_backend,
  effective_policies_for_backend, calculate_effective_policies_for_backends,
}
use gateway_api.Discovery.Effective.Gathered.{AreRoutesDistinct}
use gateway_api.Discovery.Effective.Backends.{
  IsBackendEffective, calculate_effective_policies_for_backends-IsBackendEffective,
}
use gateway_api.Tests.Machine.{machine, patched, put, text_at}
use gateway_api.Tests.Data.{parents}
use gateway_api.Tests.Models.{a_model, an_id, route_node, backend_node, child_id, child_node}

abbrev served_route : HttpRouteNode
served_route = record route_node { effective_policies = (an_id "prod" "gw", parents) ∷ [] }

abbrev served_backend : BackendNode
served_backend = record backend_node {
  http_routes = (an_id "prod" "route", an_id "prod" "route") ∷ [];
  policies = (child_id, child_node) ∷ [];
}

abbrev served_model : ResourceModel
served_model = record a_model {
  http_routes = (an_id "prod" "route", served_route) ∷ [];
  backends = (an_id "prod" "svc", served_backend) ∷ [];
}

backends_done : (calculate_effective_policies_for_backends machine served_model).1 ≡ ok tt
unfolding calculate_effective_policies_for_backends effective_policies_for_backend merge_route
    merge_routes merge_backend for_each convert_policies_map_to_slice policies_of sort_by full_name
    merge_policies_of_same_hierarchy merge_policies_of_different_hierarchy
    merge_policies_of_similar_kind merge_similar merge_policies merge_into copy_into get set
    merge_policy merge_unstructured patch_override policy_crd_id patched member delete put text_at
    String-discrete ResourceId-discrete
backends_done = refl

backends-Distinct : Distinct served_model.backends
unfolding get
backends-Distinct = (refl, tt)

has_backend : get (an_id "prod" "svc") served_model.backends ≡ some served_backend
unfolding get ResourceId-discrete String-discrete
has_backend = refl

served-AreRoutesDistinct : AreRoutesDistinct served_model
unfolding get
served-AreRoutesDistinct id route e =
    let same : served_route ≡ route = ground arith in rw (← same) (refl, tt)

calculate_effective_policies_for_backends-IsBackendEffective_example :
    (result : Dict GatewayId Policies) × (get
        (an_id "prod" "svc")
        (calculate_effective_policies_for_backends machine served_model).0.backends
      ≡ some (record served_backend { effective_policies = result }))
    × IsBackendEffective machine served_model served_backend result
calculate_effective_policies_for_backends-IsBackendEffective_example =
    calculate_effective_policies_for_backends-IsBackendEffective machine served_model
      (an_id "prod" "svc") served_backend served-AreRoutesDistinct backends-Distinct has_backend
      backends_done
