-- ===== src/Discovery/Discoverer.antt =====
-- `Discoverer` of gwctl/pkg/resourcediscovery/discoverer.go: namespaces, grants, policies and events
-- of the nodes of a model, and the discovery of each kind of resource.
pub mod Grown
pub mod Models
use gateway_api.Prelude.{ℕ, Option, none, some, List, [], ◌∷◌, if◌then◌else◌, string_key, ite}
use gateway_api.Prelude.Dict.{Dict, get}
use gateway_api.Prelude.Outcome.{Outcome, ok, err, panic, exited, Reply, value, error, ◌>>=◌}
use gateway_api.Api.Meta.{ObjRef}
use gateway_api.Api.Gateway.{Gateway, Namespace}
use gateway_api.Api.Grant.{ReferenceGrant}
use gateway_api.Relations.{reference_grant_exposes}
use gateway_api.Prelude.{String}
use gateway_api.Policy.Value.{Object}
use gateway_api.Policy.Machinery.{Machinery}
use gateway_api.Policy.Manager.{get_policies}
use gateway_api.Discovery.Id.{
  GatewayId, HttpRouteId, BackendId, resource_id_key, namespace_id, reference_grant_id,
}
use gateway_api.Discovery.Node.{backend_node_id}
use gateway_api.Discovery.Model.{
  ResourceModel, empty_model, add_gateway_classes, add_namespace, add_gateways, add_http_routes,
  add_backends, add_reference_grants,
}
use gateway_api.Discovery.Connect.{
  connect_gateway_with_namespace, connect_http_route_with_namespace, connect_backend_with_namespace,
  connect_reference_grant_with_backend,
}
use gateway_api.Discovery.Attach.{add_policy_if_target_exists}
use gateway_api.Discovery.Effective.{followed, calculate_effective_policies}
use gateway_api.Discovery.Client.{K8sClients, EventOptions, Filter, Discoverer}
use gateway_api.Discovery.Fetch.{
  fetch_gateway_classes, fetch_gateways, fetch_http_routes, fetch_reference_grants, fetch_backends,
  fetch_namespace,
}
use gateway_api.Discovery.Notes.{each, keys, note_events, namespaces_by_name, namespace_named}
use gateway_api.Discovery.Expand.{
  discover_gateway_classes_from_gateways, discover_gateways_from_http_routes,
  discover_http_routes_from_gateways, discover_http_routes_from_backends,
}

-- `maxEventsPerResource`
abbrev pub max_events_per_resource : ℕ
max_events_per_resource = 10

-- The options of the list of a Gateway's events.
abbrev pub event_options : Gateway → EventOptions
event_options gateway = record {
  involved_kind = "Gateway";
  involved_name = gateway.metadata.name;
  involved_namespace = gateway.metadata.namespace;
  involved_uid = gateway.metadata.uid;
  limit = max_events_per_resource;
}

-- The bodies of the three loops of `discoverNamespaces`.
unfoldable pub place_gateway :
    Dict String Namespace → GatewayId → ResourceModel → Outcome ResourceModel
place_gateway index id rm = do
  node ← followed (get id rm.gateways)
  gateway ← followed node.gateway
  let name = gateway.metadata.namespace
  ok (
      connect_gateway_with_namespace id (namespace_id name)
        (add_namespace (namespace_named name index ∷ []) rm))

unfoldable pub place_http_route :
    Dict String Namespace → HttpRouteId → ResourceModel → Outcome ResourceModel
place_http_route index id rm = do
  node ← followed (get id rm.http_routes)
  route ← followed node.http_route
  let name = route.metadata.namespace
  ok (
      connect_http_route_with_namespace id (namespace_id name)
        (add_namespace (namespace_named name index ∷ []) rm))

module _ (k : Machinery) where
  unfoldable pub place_backend :
      Dict String Namespace → BackendId → ResourceModel → Outcome ResourceModel
  place_backend index id rm = do
    node ← followed (get id rm.backends)
    backend ← followed node.backend
    let name = Machinery.namespace k backend
    ok (
        connect_backend_with_namespace id (namespace_id name)
          (add_namespace (namespace_named name index ∷ []) rm))

  -- The three loops.
  unfoldable pub place_all : Dict String Namespace → ResourceModel → Outcome ResourceModel
  unfolding place_gateway place_http_route place_backend
  place_all index rm = do
    gateways_placed ← each (place_gateway index) (keys rm.gateways) rm
    routes_placed ← each (place_http_route index) (keys gateways_placed.http_routes) gateways_placed
    each (place_backend index) (keys routes_placed.backends) routes_placed

  -- A ReferenceGrant that exposes a backend is added and connected.
  unfoldable pub expose :
      Object → BackendId → ReferenceGrant → ResourceModel → Outcome ResourceModel
  expose backend id grant rm =
      let backend_ref : ObjRef = record {
        group = Machinery.group k backend;
        kind = Machinery.kind k backend;
        name = Machinery.name k backend;
        namespace = Machinery.namespace k backend;
      } in
      if reference_grant_exposes grant backend_ref
      then ok (
          connect_reference_grant_with_backend
            (reference_grant_id grant.metadata.namespace grant.metadata.name) id
            (add_reference_grants (grant ∷ []) rm))
      else ok rm

  module _ (d : Discoverer) where
    open d use {k8s_clients, policy_manager}
    open k8s_clients use {Selector, everything, list_namespaces, list_events}

    unfoldable pub discover_namespaces : ResourceModel → Outcome ResourceModel
    unfolding place_all
    discover_namespaces rm = elim (list_namespaces "" none) [
      | error e ↦ err (exited e)
      | value namespaces ↦ place_all (namespaces_by_name namespaces []) rm
    ]

    -- An error ends the program.
    abbrev pub or_exit : {A : Type 0} → Outcome A → Outcome A
    or_exit (ok a) = ok a
    or_exit (err _) = err (exited "failed to fetch list of ReferenceGrants")
    or_exit panic = panic

    -- The body of the loop over the backends. The map of the ReferenceGrants of a namespace is
    -- never written to, so they are fetched for every backend.
    unfoldable pub grants_of_backend : BackendId → ResourceModel → Outcome ResourceModel
    unfolding expose
    grants_of_backend id rm = do
      node ← followed (get id rm.backends)
      backend ← followed node.backend
      grants ← or_exit (
          fetch_reference_grants d (record {
            namespace = Machinery.namespace k backend;
            name = "";
            labels = some everything;
          }))
      each (expose backend (backend_node_id k node)) grants rm

    unfoldable pub discover_reference_grants_from_backends : ResourceModel → Outcome ResourceModel
    unfolding grants_of_backend
    discover_reference_grants_from_backends rm = each grants_of_backend (keys rm.backends) rm

    unfoldable pub discover_policies : ResourceModel → ResourceModel
    discover_policies rm = add_policy_if_target_exists k (get_policies policy_manager) rm

    unfoldable pub events_of_gateway : GatewayId → ResourceModel → Outcome ResourceModel
    events_of_gateway id rm = do
      node ← followed (get id rm.gateways)
      gateway ← followed node.gateway
      elim (list_events (event_options gateway)) [
        | error _ ↦ ok rm
        | value events ↦ ok (note_events id events rm)
      ]

    unfoldable pub discover_events_for_gateways : ResourceModel → Outcome ResourceModel
    unfolding events_of_gateway
    discover_events_for_gateways rm = each events_of_gateway (keys rm.gateways) rm

    -- A discovery returns a model and an error. A panic or an exit ends the program.
    abbrev pub Discovered : Type 0
    Discovered = Outcome (ResourceModel × Outcome {0} Unit)

    -- `if err != nil { return resourceModel, err }` after the first fetch.
    abbrev pub fetched_first : {A : Type 0} → Outcome A → (A → Discovered) → Discovered
    fetched_first (ok a) next = next a
    fetched_first (err e) next = ok (empty_model, err e)
    fetched_first panic next = panic

    -- `return resourceModel, resourceModel.calculateEffectivePolicies()`
    abbrev pub finished : ResourceModel × Outcome {0} Unit → Discovered
    finished (rm, panic) = panic
    finished (rm, ok u) = ok (rm, ok u)
    finished (rm, err e) = ok (rm, err e)

    unfoldable pub discover_resources_for_gateway_class : Filter Selector → Discovered
    unfolding discover_policies
    discover_resources_for_gateway_class filter =
        fetched_first (fetch_gateway_classes d filter) λ gateway_classes.
          ok (discover_policies (add_gateway_classes gateway_classes empty_model), ok tt)

    unfoldable pub discover_resources_for_gateway : Filter Selector → Discovered
    unfolding discover_events_for_gateways discover_namespaces discover_policies
    discover_resources_for_gateway filter = fetched_first (fetch_gateways d filter) λ gateways. do
      with_events ← discover_events_for_gateways (add_gateways gateways empty_model)
      with_routes ← discover_http_routes_from_gateways d with_events
      with_classes ← discover_gateway_classes_from_gateways d with_routes
      with_namespaces ← discover_namespaces with_classes
      finished (calculate_effective_policies k (discover_policies with_namespaces))

    unfoldable pub discover_resources_for_http_route : Filter Selector → Discovered
    unfolding discover_namespaces discover_policies
    discover_resources_for_http_route filter =
        fetched_first (fetch_http_routes d filter) λ http_routes. do
          with_gateways ←
              discover_gateways_from_http_routes d (add_http_routes http_routes empty_model)
          with_classes ← discover_gateway_classes_from_gateways d with_gateways
          with_namespaces ← discover_namespaces with_classes
          finished (calculate_effective_policies k (discover_policies with_namespaces))

    unfoldable pub discover_resources_for_backend : Filter Selector → Discovered
    unfolding discover_reference_grants_from_backends discover_namespaces discover_policies
    discover_resources_for_backend filter = fetched_first (fetch_backends d filter) λ backends. do
      with_grants ← discover_reference_grants_from_backends (add_backends k backends empty_model)
      with_routes ← discover_http_routes_from_backends d with_grants
      with_gateways ← discover_gateways_from_http_routes d with_routes
      with_classes ← discover_gateway_classes_from_gateways d with_gateways
      with_namespaces ← discover_namespaces with_classes
      finished (calculate_effective_policies k (discover_policies with_namespaces))

    unfoldable pub discover_resources_for_namespace : Filter Selector → Discovered
    unfolding discover_policies
    discover_resources_for_namespace filter =
        fetched_first (fetch_namespace d filter)
          λ namespaces. ok (discover_policies (add_namespace namespaces empty_model), ok tt)
