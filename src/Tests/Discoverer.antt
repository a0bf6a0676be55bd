-- ===== src/Tests/Discoverer.antt =====
-- A Discoverer over an API that has one Gateway, one HTTPRoute and one backend.
use gateway_api.Prelude.{
  String, true, false, none, some, List, [], ◌∷◌, ◌≡◌, ◌⊎◌, refl, String-discrete, string_key,
}
use gateway_api.Prelude.Outcome.{Outcome, ok, err, panic, value, error}
use gateway_api.Api.Route.{HttpRoute, ParentReference}
use gateway_api.Policy.Value.{Object, string, object, field, empty, member}
use gateway_api.Policy.Manager.{new, get_policies}
use gateway_api.Discovery.Connect.Links.Views.{IsLinked, view, route_backends}
use gateway_api.Discovery.Client.{
  K8sClients, Filter, Discoverer, default_gateway_class_group_version,
  default_gateway_group_version, default_http_route_group_version,
  default_reference_grant_group_version,
}
use gateway_api.Discovery.Expand.Permitted.{
  IsPermitted, discover_http_routes_from_backends-IsPermitted,
}
use gateway_api.Discovery.Discoverer.Models.{
  discover, gateway, discover-IsLinked, discover-IsComputed,
}
use gateway_api.Discovery.Effective.Composed.{IsComputed}
use gateway_api.Tests.Machine.{machine, text_at}
use gateway_api.Tests.Models.{meta, a_gateway, a_route}
use gateway_api.Discovery.Fetch.{fetch_http_routes, fetch_gateways, fetch_gateway_classes}
use gateway_api.Discovery.Notes.{
  each, note_gateway_error, note_http_route_error, note_backend_error, note_events,
  gateway_classes_by_id, namespaces_by_name,
}
use gateway_api.Discovery.Expand.{
  class_of_gateway, discover_gateway_classes_from_gateways, attach_to_ref, attach_http_route,
  discover_http_routes_from_gateways, discover_http_routes_from_backends, reference_accepted,
  permitted, include_ref, include_http_route, all_objects, id_of_route,
}
use gateway_api.Discovery.Discoverer.{
  place_gateway, place_http_route, place_backend, place_all, discover_namespaces, discover_policies,
  events_of_gateway, discover_events_for_gateways, discover_resources_for_gateway,
}
use gateway_api.Discovery.Connect.{
  connect_backend_with_namespace, connect_gateway_with_gateway_class,
  connect_http_route_with_gateway, connect_http_route_with_backend, connect_gateway_with_namespace,
  connect_http_route_with_namespace,
}
use gateway_api.Discovery.Model.{
  ResourceModel, empty_model, add_gateway_classes, add_namespace, add_gateways, add_http_routes,
  add_backends,
}
use gateway_api.Discovery.Attach.{add_policy_if_target_exists}
use gateway_api.Discovery.Effective.{
  effective_policies_for_backend, merge_backend, merge_route, merge_routes, for_each, policies_of,
  convert_policies_map_to_slice, merge_hierarchies, effective_policies_for_gateway,
  calculate_effective_policies_for_gateways, merge_for_gateways, effective_policies_for_http_route,
  calculate_effective_policies_for_http_routes, calculate_effective_policies_for_backends,
  calculate_effective_policies,
}
use gateway_api.Relations.{
  reference_grant_accepts, or_default, find_gateway_refs_for_http_route,
  find_gateway_class_name_for_gateway, backend_obj_ref, find_backend_refs_for_http_route,
}
use gateway_api.Prelude.Dict.{get, set, set_if_missing}
use gateway_api.Prelude.Sort.{sort_by}
use gateway_api.Policy.Merge.{
  merge_policy, merge_unstructured, merge_policies, merge_into, copy_into, merge_similar,
  merge_policies_of_similar_kind, merge_policies_of_same_hierarchy,
  merge_policies_of_different_hierarchy,
}
use gateway_api.Discovery.Id.{
  ResourceId-discrete, BackendId, HttpRouteId, backend_id, to_string, gateway_class_id,
  namespace_id, gateway_id, http_route_id, backend_id_for_service, policy_id, reference_grant_id,
  marshal_text,
}
use gateway_api.Discovery.Node.{
  new_namespace_node, gateway_class_node_id, gateway_node_id, http_route_node_id, namespace_node_id,
  reference_grant_node_id, backend_node_id, policy_node_id,
}
use gateway_api.Prelude.Text.{str_lt, to_lower}
use gateway_api.Policy.Object.{full_name, policy_crd_id}

abbrev parent_ref : ParentReference
parent_ref = record {
  group = none;
  kind = none;
  namespace = none;
  name = "gw";
  section_name = none;
  port = none;
}

abbrev routed : HttpRoute
routed = record a_route {
  spec = record {
    parent_refs = parent_ref ∷ [];
    hostnames = [];
    rules =
        record {
          filters = [];
          backend_refs =
              record {
                backend_object_reference = record {
                  group = none;
                  kind = some "Service";
                  name = "svc";
                  namespace = none;
                  port = none;
                };
                weight = none;
                filters = [];
              }
              ∷ [];
        }
        ∷ [];
  };
}

abbrev service : Object
service = field "apiVersion" (string "") (
    field "kind" (string "Service") (
      field "metadata"
        (object (field "name" (string "svc") (field "namespace" (string "prod") empty))) empty))

abbrev clients : K8sClients
clients = record {
  Selector = String;
  selector_text = λ s. s;
  everything = "";
  get_object = λ resource namespace name. value empty;
  list_objects = λ resource namespace selector. value (service ∷ []);
  to_gateway_class =
      λ o. value (record { metadata = meta "" "class"; spec = record { controller_name = "c" } });
  to_gateway = λ o. value a_gateway;
  to_http_route = λ o. value routed;
  to_reference_grant = λ o. error "no grant";
  to_gateway_classes = λ l.
      value (record { metadata = meta "" "class"; spec = record { controller_name = "c" } } ∷ []);
  to_gateways = λ l. value (a_gateway ∷ []);
  to_http_routes = λ l. value (routed ∷ []);
  to_reference_grants = λ l. value [];
  get_namespace = λ name. value (record { metadata = meta "" name });
  list_namespaces = λ name selector. value (record { metadata = meta "" "prod" } ∷ []);
  list_events = λ options. value [];
  is_not_found = λ e. false;
  group_of_api_version = λ version. "";
  server_preferred_resources = value [];
  parse_group_version = λ version. error "none";
}

abbrev discoverer : Discoverer
discoverer = record {
  k8s_clients = clients;
  policy_manager = new;
  preferred_gateway_class_group_version = default_gateway_class_group_version;
  preferred_gateway_group_version = default_gateway_group_version;
  preferred_http_route_group_version = default_http_route_group_version;
  preferred_reference_grant_group_version = default_reference_grant_group_version;
}

abbrev everywhere : Filter String
everywhere = record { namespace = ""; name = ""; labels = none }

abbrev model_of : Outcome (ResourceModel × Outcome {0} Unit) → ResourceModel
model_of (ok (rm, _)) = rm
model_of (err _) = empty_model
model_of panic = empty_model

abbrev a_discovery : ResourceModel
a_discovery = model_of (discover machine discoverer gateway everywhere)

discovered : discover machine discoverer gateway everywhere ≡ ok (a_discovery, ok tt)
unfolding fetch_http_routes fetch_gateways fetch_gateway_classes each note_gateway_error
    note_http_route_error note_backend_error note_events gateway_classes_by_id namespaces_by_name
    class_of_gateway discover_gateway_classes_from_gateways attach_to_ref attach_http_route
    discover_http_routes_from_gateways discover_http_routes_from_backends reference_accepted
    permitted include_ref include_http_route place_gateway place_http_route place_backend place_all
    discover_namespaces discover_policies events_of_gateway discover_events_for_gateways
    discover_resources_for_gateway connect_gateway_with_gateway_class
    connect_http_route_with_gateway connect_http_route_with_backend connect_gateway_with_namespace
    connect_http_route_with_namespace add_gateway_classes add_namespace add_gateways add_http_routes
    add_backends add_policy_if_target_exists for_each policies_of convert_policies_map_to_slice
    merge_hierarchies effective_policies_for_gateway calculate_effective_policies_for_gateways
    merge_for_gateways effective_policies_for_http_route
    calculate_effective_policies_for_http_routes calculate_effective_policies_for_backends
    calculate_effective_policies or_default find_gateway_refs_for_http_route
    find_gateway_class_name_for_gateway backend_obj_ref find_backend_refs_for_http_route get set
    set_if_missing sort_by merge_policies merge_into copy_into merge_similar
    merge_policies_of_similar_kind merge_policies_of_same_hierarchy
    merge_policies_of_different_hierarchy ResourceId-discrete backend_id to_string gateway_class_id
    namespace_id gateway_id http_route_id backend_id_for_service policy_id reference_grant_id
    marshal_text new_namespace_node gateway_class_node_id gateway_node_id http_route_node_id
    namespace_node_id reference_grant_node_id backend_node_id policy_node_id text_at String-discrete
    str_lt to_lower member connect_backend_with_namespace merge_policy merge_unstructured full_name
    policy_crd_id reference_grant_accepts get_policies effective_policies_for_backend merge_backend
    merge_route merge_routes
discovered = refl

discover-IsLinked_example : IsLinked a_discovery
discover-IsLinked_example =
    discover-IsLinked machine discoverer gateway everywhere a_discovery (ok tt) discovered

discover-IsComputed_example : IsComputed machine a_discovery
discover-IsComputed_example =
    discover-IsComputed machine discoverer gateway everywhere a_discovery tt discovered

abbrev backends : ResourceModel
backends = add_backends machine (service ∷ []) empty_model

abbrev or_empty_model : Outcome ResourceModel → ResourceModel
or_empty_model (ok rm) = rm
or_empty_model (err _) = empty_model
or_empty_model panic = empty_model

abbrev with_routes : ResourceModel
with_routes = or_empty_model (discover_http_routes_from_backends discoverer backends)

routes_discovered : discover_http_routes_from_backends discoverer backends ≡ ok with_routes
unfolding fetch_http_routes each note_http_route_error note_backend_error
    discover_http_routes_from_backends reference_accepted permitted include_ref include_http_route
    connect_http_route_with_backend add_http_routes add_backends backend_obj_ref
    find_backend_refs_for_http_route get set set_if_missing ResourceId-discrete backend_id
    http_route_id http_route_node_id backend_node_id text_at String-discrete to_lower member
    reference_grant_accepts
routes_discovered = refl

abbrev service_id : BackendId
service_id = backend_id "" "Service" "prod" "svc"

abbrev route_id : HttpRouteId
route_id = id_of_route routed

connected : view route_backends with_routes route_id service_id ≡ true
unfolding fetch_http_routes each note_http_route_error note_backend_error
    discover_http_routes_from_backends reference_accepted permitted include_ref include_http_route
    connect_http_route_with_backend add_http_routes add_backends backend_obj_ref
    find_backend_refs_for_http_route get set set_if_missing ResourceId-discrete backend_id
    http_route_id http_route_node_id backend_node_id text_at String-discrete to_lower member
    reference_grant_accepts
connected = refl

discover_http_routes_from_backends-IsPermitted_example :
    (view route_backends backends route_id service_id ≡ true)
    ⊎ ((routes : List HttpRoute) × (fetch_http_routes discoverer (all_objects discoverer)
          ≡ ok routes)
        × IsPermitted discoverer backends routes route_id service_id)
discover_http_routes_from_backends-IsPermitted_example =
    discover_http_routes_from_backends-IsPermitted discoverer backends with_routes route_id
      service_id routes_discovered connected
