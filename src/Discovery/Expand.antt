-- ===== src/Discovery/Expand.antt =====
-- gwctl/pkg/resourcediscovery/discoverer.go: how the GatewayClasses, Gateways and HTTPRoutes that
-- are related to the nodes of a model join it. A loop over a map of nodes goes through the ids that it has at the start,
-- and reads a node where the code follows the pointer to it. What only is logged is left out.
pub mod Grown
pub mod Grants
pub mod Permitted
use gateway_api.Prelude.{
  ℕ, String, Bool, true, false, none, some, List, [], ◌∷◌, not, ◌≐◌, ◌||◌, string_key,
  if◌then◌else◌,
}
use gateway_api.Prelude.Dict.{Dict, get, has}
use gateway_api.Prelude.Outcome.{
  Outcome, ok, err, panic, Failure, library, exited, Reply, value, error, ◌>>=◌,
}
use gateway_api.Api.Meta.{ObjRef, NamespacedName}
use gateway_api.Api.Route.{HttpRoute}
use gateway_api.Api.Gateway.{Gateway, GatewayClass, Namespace}
use gateway_api.Api.Grant.{ReferenceGrant}
use gateway_api.Relations.{
  find_gateway_refs_for_http_route, find_gateway_class_name_for_gateway,
  find_backend_refs_for_http_route, reference_grant_exposes, reference_grant_accepts,
}
use gateway_api.Policy.Value.{Object}
use gateway_api.Policy.Machinery.{Machinery}
use gateway_api.Policy.Manager.{get_policies}
use gateway_api.Discovery.Errors.{reference_to_non_existent_resource, reference_not_permitted}
use gateway_api.Discovery.Id.{
  GatewayClassId, GatewayId, HttpRouteId, BackendId, ReferenceGrantId, resource_id_key,
  gateway_class_id, gateway_id, http_route_id, backend_id, namespace_id, reference_grant_id,
}
use gateway_api.Discovery.Node.{backend_node_id}
use gateway_api.Discovery.Model.{
  ResourceModel, empty_model, add_gateway_classes, add_namespace, add_gateways, add_http_routes,
  add_backends, add_reference_grants,
}
use gateway_api.Discovery.Connect.{
  connect_gateway_with_gateway_class, connect_http_route_with_gateway,
  connect_http_route_with_backend, connect_gateway_with_namespace,
  connect_http_route_with_namespace, connect_backend_with_namespace,
  connect_reference_grant_with_backend,
}
use gateway_api.Discovery.Attach.{add_policy_if_target_exists}
use gateway_api.Discovery.Effective.{followed, calculate_effective_policies}
use gateway_api.Discovery.Client.{K8sClients, EventOptions, Filter, Discoverer}
use gateway_api.Discovery.Fetch.{
  fetch_gateway_classes, fetch_gateways, fetch_http_routes, fetch_reference_grants, fetch_backends,
  fetch_namespace,
}
use gateway_api.Discovery.Notes.{
  each, keys, note_gateway_error, note_http_route_error, note_backend_error, note_events,
  or_nothing, first, gateway_classes_by_id, namespaces_by_name, namespace_named,
}

abbrev pub gateway_obj_ref : Gateway → ObjRef
gateway_obj_ref gateway = record {
  group = "";
  kind = "Gateway";
  name = gateway.metadata.name;
  namespace = gateway.metadata.namespace;
}

abbrev pub http_route_obj_ref : HttpRoute → ObjRef
http_route_obj_ref http_route = record {
  group = "";
  kind = "HTTPRoute";
  name = http_route.metadata.name;
  namespace = http_route.metadata.namespace;
}

abbrev pub id_of_route : HttpRoute → HttpRouteId
id_of_route route = http_route_id route.metadata.namespace route.metadata.name

module _ (d : Discoverer) where
  open d use {k8s_clients}
  open k8s_clients use {Selector, everything, is_not_found, group_of_api_version}

  -- `Filter{Labels: labels.Everything()}`
  abbrev pub all_objects : Filter Selector
  all_objects = record { namespace = ""; name = ""; labels = some everything }

  -- The body of the loop over the Gateways.
  unfoldable pub class_of_gateway :
      Dict GatewayClassId GatewayClass → GatewayId → ResourceModel → Outcome ResourceModel
  class_of_gateway index id rm = do
    node ← followed (get id rm.gateways)
    gateway ← followed node.gateway
    let name = find_gateway_class_name_for_gateway gateway
    elim (get (gateway_class_id name) index) [
      | none ↦ ok (
          note_gateway_error id
            (reference_to_non_existent_resource (record {
              referring_object = gateway_obj_ref gateway;
              referred_object = record {
                group = "";
                kind = "GatewayClass";
                name = name;
                namespace = "";
              };
            }))
            rm)
      | some gateway_class ↦ ok (
          connect_gateway_with_gateway_class id (gateway_class_id name)
            (add_gateway_classes (gateway_class ∷ []) rm))
    ]

  unfoldable pub discover_gateway_classes_from_gateways : ResourceModel → Outcome ResourceModel
  unfolding class_of_gateway
  discover_gateway_classes_from_gateways rm = do
    gateway_classes ← or_nothing (fetch_gateway_classes d all_objects)
    each (class_of_gateway (gateway_classes_by_id gateway_classes [])) (keys rm.gateways) rm

  -- `apierrors.IsNotFound`: an error of a conversion is none of the API's.
  abbrev not_found : Failure → Bool
  not_found (library e) = is_not_found e
  not_found _ = false

  -- What is done with the answer for a Gateway that is not in the model yet.
  unfoldable pub gateway_fetched :
      HttpRouteId
      → HttpRoute
      → NamespacedName
      → Outcome (List Gateway)
      → ResourceModel
      → Outcome ResourceModel
  gateway_fetched id route ref (ok gateways) rm = do
    gateway ← first gateways
    ok (add_gateways (gateway ∷ []) rm)
  gateway_fetched id route ref (err e) rm = ok (
      if not_found e
      then note_http_route_error id
          (reference_to_non_existent_resource (record {
            referring_object = http_route_obj_ref route;
            referred_object = record {
              group = "";
              kind = "Gateway";
              name = ref.name;
              namespace = ref.namespace;
            };
          }))
          rm
      else rm)
  gateway_fetched id route ref panic rm = panic

  unfoldable pub gateway_from_ref :
      HttpRouteId → HttpRoute → NamespacedName → ResourceModel → Outcome ResourceModel
  unfolding gateway_fetched
  gateway_from_ref id route ref rm =
      if has (gateway_id ref.namespace ref.name) rm.gateways
      then ok rm
      else gateway_fetched id route ref
          (fetch_gateways d
            (record { namespace = ref.namespace; name = ref.name; labels = some everything }))
          rm

  -- The two loops over the HTTPRoutes.
  unfoldable pub gateways_of_http_route : HttpRouteId → ResourceModel → Outcome ResourceModel
  unfolding gateway_from_ref
  gateways_of_http_route id rm = do
    node ← followed (get id rm.http_routes)
    route ← followed node.http_route
    each (gateway_from_ref id route) (find_gateway_refs_for_http_route route) rm

  unfoldable pub connect_http_route : HttpRouteId → ResourceModel → Outcome ResourceModel
  connect_http_route id rm = do
    node ← followed (get id rm.http_routes)
    route ← followed node.http_route
    each
        (λ (ref : NamespacedName) rm.
          ok (connect_http_route_with_gateway id (gateway_id ref.namespace ref.name) rm))
        (find_gateway_refs_for_http_route route) rm

  unfoldable pub discover_gateways_from_http_routes : ResourceModel → Outcome ResourceModel
  unfolding gateways_of_http_route connect_http_route
  discover_gateways_from_http_routes rm = do
    fetched ← each gateways_of_http_route (keys rm.http_routes) rm
    each connect_http_route (keys fetched.http_routes) fetched

  -- The body of the loop over the Gateways that an HTTPRoute refers to.
  unfoldable pub attach_to_ref : HttpRoute → NamespacedName → ResourceModel → Outcome ResourceModel
  attach_to_ref route ref rm =
      let id = gateway_id ref.namespace ref.name in
      if has id rm.gateways
      then ok
          (connect_http_route_with_gateway (id_of_route route) id (add_http_routes (route ∷ []) rm))
      else ok rm

  unfoldable pub attach_http_route : HttpRoute → ResourceModel → Outcome ResourceModel
  unfolding attach_to_ref
  attach_http_route route rm =
      each (attach_to_ref route) (find_gateway_refs_for_http_route route) rm

  unfoldable pub discover_http_routes_from_gateways : ResourceModel → Outcome ResourceModel
  unfolding attach_http_route
  discover_http_routes_from_gateways rm = do
    http_routes ← or_nothing (fetch_http_routes d all_objects)
    each attach_http_route http_routes rm

  -- Whether one of the grants of a backend accepts references from the HTTPRoute.
  unfoldable pub reference_accepted :
      ObjRef → List (ReferenceGrantId × ReferenceGrantId) → ResourceModel → Outcome Bool
  reference_accepted route_ref [] rm = ok false
  reference_accepted route_ref ((_, pointer) ∷ rest) rm = do
    node ← followed (get pointer rm.reference_grants)
    (if reference_grant_accepts node.reference_grant route_ref
        then ok true
        else reference_accepted route_ref rest rm)

  -- The HTTPRoute with its group and kind, as the grants compare it.
  abbrev pub granted_ref : HttpRoute → ObjRef
  granted_ref route = record {
    group = group_of_api_version route.type_meta.api_version;
    kind = route.type_meta.kind;
    name = route.metadata.name;
    namespace = route.metadata.namespace;
  }

  -- A reference within one namespace is permitted, any other if a grant accepts it.
  unfoldable pub permitted :
      HttpRoute → ObjRef → List (ReferenceGrantId × ReferenceGrantId) → ResourceModel → Outcome Bool
  unfolding reference_accepted
  permitted route ref grants rm =
      if route.metadata.namespace ≐ ref.namespace
      then ok true
      else reference_accepted (granted_ref route) grants rm

  -- The body of the loop over the backends that an HTTPRoute refers to.
  unfoldable pub include_ref : HttpRoute → ObjRef → ResourceModel → Outcome ResourceModel
  unfolding permitted
  include_ref route ref rm =
      let id = backend_id ref.group ref.kind ref.namespace ref.name in
      elim (get id rm.backends) [
        | none ↦ ok rm
        | some node ↦ do
          accepted ← permitted route ref node.reference_grants rm
          ok (
              if accepted
              then connect_http_route_with_backend (id_of_route route) id
                  (add_http_routes (route ∷ []) rm)
              else note_backend_error id
                  (reference_not_permitted
                    (record { referring_object = http_route_obj_ref route; referred_object = ref }))
                  rm)
      ]

  unfoldable pub include_http_route : HttpRoute → ResourceModel → Outcome ResourceModel
  unfolding include_ref
  include_http_route route rm = each (include_ref route) (find_backend_refs_for_http_route route) rm

  unfoldable pub discover_http_routes_from_backends : ResourceModel → Outcome ResourceModel
  unfolding include_http_route
  discover_http_routes_from_backends rm = do
    http_routes ← or_nothing (fetch_http_routes d all_objects)
    each include_http_route http_routes rm
