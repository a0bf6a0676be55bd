-- ===== src/Discovery/Discoverer/Grown.antt =====
-- What the Discoverer does to a model is a sequence of calls of the model's methods and of notes on
-- its nodes: namespaces, grants, events and policies.
use gateway_api.Prelude.{String, none, List, [], ◌≡◌, if-elim}
use gateway_api.Prelude.Dict.{Dict, get}
use gateway_api.Prelude.Outcome.{ok, err, Reply, value, error, exited, >>=-cases}
use gateway_api.Api.Gateway.{Namespace}
use gateway_api.Api.Grant.{ReferenceGrant}
use gateway_api.Policy.Value.{Object}
use gateway_api.Policy.Machinery.{Machinery}
use gateway_api.Relations.{reference_grant_exposes}
use gateway_api.Discovery.Id.{GatewayId, HttpRouteId, BackendId, resource_id_key}
use gateway_api.Discovery.Node.{backend_node_id}
use gateway_api.Discovery.Model.{ResourceModel}
use gateway_api.Discovery.Effective.{followed}
use gateway_api.Discovery.Connect.Links.Built.{
  Built, called, namespaces_added, reference_grants_added, policies_added, gateway_placed,
  http_route_placed, backend_placed, reference_grant_connected, events_noted,
}
use gateway_api.Discovery.Client.{K8sClients, Discoverer}
use gateway_api.Discovery.Fetch.{fetch_reference_grants}
use gateway_api.Discovery.Notes.{each, each-keeps, keys, namespaces_by_name}
use gateway_api.Discovery.Expand.Grown.{Built-of_ok}
use gateway_api.Discovery.Discoverer.{
  place_gateway, place_http_route, place_backend, place_all, expose, discover_namespaces,
  grants_of_backend, or_exit, discover_reference_grants_from_backends, discover_policies,
  event_options, events_of_gateway, discover_events_for_gateways,
}
use gateway_api.Api.Gateway.{Gateway}
use gateway_api.Api.Meta.{Event}
use gateway_api.Discovery.Notes.{note_events}

module _ (k : Machinery) where
  place_gateway-Built :
      (index : Dict String Namespace) (id : GatewayId) (rm new : ResourceModel)
      → Built k rm
      → place_gateway index id rm ≡ ok new
      → Built k new
  unfolding place_gateway
  place_gateway-Built index id rm new b h =
      >>=-cases (followed (get id rm.gateways)) h (λ node hn h1.
        >>=-cases (followed node.gateway) h1 (λ gateway hg h2.
          Built-of_ok k (called (called b (namespaces_added _ rm)) (gateway_placed _ _ _)) h2))

  place_http_route-Built :
      (index : Dict String Namespace) (id : HttpRouteId) (rm new : ResourceModel)
      → Built k rm
      → place_http_route index id rm ≡ ok new
      → Built k new
  unfolding place_http_route
  place_http_route-Built index id rm new b h =
      >>=-cases (followed (get id rm.http_routes)) h (λ node hn h1.
        >>=-cases (followed node.http_route) h1 (λ route hr h2.
          Built-of_ok k (called (called b (namespaces_added _ rm)) (http_route_placed _ _ _)) h2))

  place_backend-Built :
      (index : Dict String Namespace) (id : BackendId) (rm new : ResourceModel)
      → Built k rm
      → place_backend k index id rm ≡ ok new
      → Built k new
  unfolding place_backend
  place_backend-Built index id rm new b h =
      >>=-cases (followed (get id rm.backends)) h (λ node hn h1.
        >>=-cases (followed node.backend) h1 (λ backend hb h2.
          Built-of_ok k (called (called b (namespaces_added _ rm)) (backend_placed _ _ _)) h2))

  place_all-Built :
      (index : Dict String Namespace) (rm new : ResourceModel)
      → Built k rm
      → place_all k index rm ≡ ok new
      → Built k new
  unfolding place_all
  place_all-Built index rm new b h =
      >>=-cases (each (place_gateway index) (keys rm.gateways) rm) h (λ one h1 rest1.
        >>=-cases (each (place_http_route index) (keys one.http_routes) one) rest1 (λ two h2 rest2.
          each-keeps (Built k) (place_backend k index) (place_backend-Built index)
            (keys two.backends) two new
            (each-keeps (Built k) (place_http_route index) (place_http_route-Built index)
              (keys one.http_routes) one two
              (each-keeps (Built k) (place_gateway index) (place_gateway-Built index)
                (keys rm.gateways) rm one b h1)
              h2)
            rest2))

  expose-Built :
      (backend : Object) (id : BackendId) (grant : ReferenceGrant) (rm new : ResourceModel)
      → Built k rm
      → expose k backend id grant rm ≡ ok new
      → Built k new
  unfolding expose
  expose-Built backend id grant rm new b h =
      if-elim (reference_grant_exposes grant _) h
        (λ exposed e.
          Built-of_ok k
            (called (called b (reference_grants_added _ rm)) (reference_grant_connected _ _ _)) e)
        (λ hidden e. Built-of_ok k b e)

  module _ (d : Discoverer) where
    pub discover_namespaces-Built :
        (rm new : ResourceModel) → Built k rm → discover_namespaces k d rm ≡ ok new → Built k new
    unfolding discover_namespaces
    discover_namespaces-Built rm new b h =
        listed (K8sClients.list_namespaces d.k8s_clients "" none) h
      where
        listed :
            (reply : Reply (List Namespace))
            → (elim reply [
              | error e ↦ err (exited e)
              | value namespaces ↦ place_all k (namespaces_by_name namespaces []) rm
            ])
              ≡ ok new
            → Built k new
        listed (error e) h = absurd (cc)
        listed (value namespaces) h = place_all-Built (namespaces_by_name namespaces []) rm new b h

    grants_of_backend-Built :
        (id : BackendId) (rm new : ResourceModel)
        → Built k rm
        → grants_of_backend k d id rm ≡ ok new
        → Built k new
    unfolding grants_of_backend
    grants_of_backend-Built id rm new b h =
        >>=-cases (followed (get id rm.backends)) h (λ node hn h1.
          >>=-cases (followed node.backend) h1 (λ backend hb h2.
            >>=-cases (or_exit k d (fetch_reference_grants d _)) h2 (λ grants hg h3.
              each-keeps (Built k) (expose k backend (backend_node_id k node))
                (expose-Built backend (backend_node_id k node)) grants rm new b h3)))

    pub discover_reference_grants_from_backends-Built :
        (rm new : ResourceModel)
        → Built k rm
        → discover_reference_grants_from_backends k d rm ≡ ok new
        → Built k new
    unfolding discover_reference_grants_from_backends
    discover_reference_grants_from_backends-Built rm new b h =
        each-keeps (Built k) (grants_of_backend k d) grants_of_backend-Built (keys rm.backends) rm
          new b h

    events_of_gateway-Built :
        (id : GatewayId) (rm new : ResourceModel)
        → Built k rm
        → events_of_gateway k d id rm ≡ ok new
        → Built k new
    unfolding events_of_gateway
    events_of_gateway-Built id rm new b h =
        >>=-cases (followed (get id rm.gateways)) h (λ node hn h1.
          >>=-cases (followed node.gateway) h1 (λ gateway hg h2.
            listed gateway (K8sClients.list_events d.k8s_clients (event_options gateway)) h2))
      where
        listed :
            (gateway : Gateway) (reply : Reply (List Event))
            → (elim reply [ error _ ↦ ok rm | value events ↦ ok (note_events id events rm) ])
              ≡ ok new
            → Built k new
        listed gateway (error e) h = Built-of_ok k b h
        listed gateway (value events) h = Built-of_ok k (called b (events_noted id events rm)) h

    pub discover_events_for_gateways-Built :
        (rm new : ResourceModel)
        → Built k rm
        → discover_events_for_gateways k d rm ≡ ok new
        → Built k new
    unfolding discover_events_for_gateways
    discover_events_for_gateways-Built rm new b h =
        each-keeps (Built k) (events_of_gateway k d) events_of_gateway-Built (keys rm.gateways) rm
          new b h

    pub discover_policies-Built :
        (rm : ResourceModel) → Built k rm → Built k (discover_policies k d rm)
    unfolding discover_policies
    discover_policies-Built rm b = called b (policies_added _ rm)
