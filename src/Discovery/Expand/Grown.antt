-- ===== src/Discovery/Expand/Grown.antt =====
-- What the Discoverer does to a model is a sequence of calls of the model's methods and of notes on
-- its nodes.
use gateway_api.Prelude.{
  Bool, if-elim, true, false, List, [], ◌∷◌, ◌≡◌, Option-cases, inl, inr, string_key, if◌then◌else◌,
}
use gateway_api.Prelude.Dict.{Dict, get, has}
use gateway_api.Prelude.Outcome.{Outcome, ok, err, panic, >>=-cases}
use gateway_api.Api.Meta.{ObjRef, NamespacedName}
use gateway_api.Api.Route.{HttpRoute}
use gateway_api.Api.Gateway.{Gateway, GatewayClass}
use gateway_api.Relations.{
  find_gateway_refs_for_http_route, find_gateway_class_name_for_gateway,
  find_backend_refs_for_http_route,
}
use gateway_api.Policy.Machinery.{Machinery}
use gateway_api.Discovery.Id.{
  GatewayClassId, GatewayId, HttpRouteId, resource_id_key, gateway_class_id, gateway_id, backend_id,
}
use gateway_api.Discovery.Model.{ResourceModel}
use gateway_api.Discovery.Effective.{followed}
use gateway_api.Discovery.Connect.Links.Built.{
  Built, called, gateway_classes_added, gateways_added, http_routes_added, gateway_class_connected,
  gateway_connected, backend_connected, gateway_error_noted, http_route_error_noted,
  backend_error_noted,
}
use gateway_api.Discovery.Client.{Discoverer}
use gateway_api.Discovery.Fetch.{fetch_gateway_classes, fetch_http_routes}
use gateway_api.Discovery.Notes.{each, each-keeps, keys, or_nothing, first, gateway_classes_by_id}
use gateway_api.Discovery.Expand.{
  class_of_gateway, discover_gateway_classes_from_gateways, gateway_fetched, gateway_from_ref,
  gateways_of_http_route, connect_http_route, discover_gateways_from_http_routes, attach_to_ref,
  attach_http_route, discover_http_routes_from_gateways, permitted, include_ref, include_http_route,
  discover_http_routes_from_backends, all_objects,
}

module _ (k : Machinery) where
  -- A chain of calls that ends in a value has made the model out of a built one.
  Built-if :
      (b : Bool) {l r new : ResourceModel}
      → Built k l
      → Built k r
      → ok (if b then l else r) ≡ ok new
      → Built k new
  Built-if true {l} {r} {new} p q h = let same : l ≡ new = cc in rw (← same) p
  Built-if false {l} {r} {new} p q h = let same : r ≡ new = cc in rw (← same) q

  pub Built-of_ok : {old new : ResourceModel} → Built k old → ok old ≡ ok new → Built k new
  Built-of_ok {old} {new} b h = let same : old ≡ new = cc in rw (← same) b

  module _ (d : Discoverer) where
    class_of_gateway-Built :
        (index : Dict GatewayClassId GatewayClass) (id : GatewayId) (rm new : ResourceModel)
        → Built k rm
        → class_of_gateway d index id rm ≡ ok new
        → Built k new
    unfolding class_of_gateway
    class_of_gateway-Built index id rm new b h =
        >>=-cases (followed (get id rm.gateways)) h (λ node hn h1.
          >>=-cases (followed node.gateway) h1 (λ gateway hg h2.
            elim (Option-cases
              (get (gateway_class_id (find_gateway_class_name_for_gateway gateway)) index)) [
                | inl e ↦ Built-of_ok (called b (gateway_error_noted _ _ rm)) (rw e at h2)
                | inr (gateway_class, e) ↦
                    Built-of_ok
                      (called (called b (gateway_classes_added _ rm))
                        (gateway_class_connected _ _ _))
                      (rw e at h2)
              ]))

    pub discover_gateway_classes_from_gateways-Built :
        (rm new : ResourceModel)
        → Built k rm
        → discover_gateway_classes_from_gateways d rm ≡ ok new
        → Built k new
    unfolding discover_gateway_classes_from_gateways
    discover_gateway_classes_from_gateways-Built rm new b h =
        >>=-cases (or_nothing (fetch_gateway_classes d (all_objects d))) h (λ classes hc h1.
          each-keeps (Built k) (class_of_gateway d (gateway_classes_by_id classes []))
            (λ id s t. class_of_gateway-Built (gateway_classes_by_id classes []) id s t)
            (keys rm.gateways) rm new b h1)

    gateway_fetched-Built :
        (id : HttpRouteId) (route : HttpRoute) (ref : NamespacedName)
        (answer : Outcome (List Gateway)) (rm new : ResourceModel)
        → Built k rm
        → gateway_fetched d id route ref answer rm ≡ ok new
        → Built k new
    unfolding gateway_fetched
    gateway_fetched-Built id route ref (ok gateways) rm new b h =
        >>=-cases (first gateways) h
          (λ gateway hg h1. Built-of_ok (called b (gateways_added (gateway ∷ []) rm)) h1)
    gateway_fetched-Built id route ref (err e) rm new b h =
        Built-if _ (called b (http_route_error_noted _ _ rm)) b h
    gateway_fetched-Built id route ref panic rm new b h = absurd (cc)

    gateway_from_ref-Built :
        (id : HttpRouteId) (route : HttpRoute) (ref : NamespacedName) (rm new : ResourceModel)
        → Built k rm
        → gateway_from_ref d id route ref rm ≡ ok new
        → Built k new
    unfolding gateway_from_ref
    gateway_from_ref-Built id route ref rm new b h =
        if-elim (has (gateway_id ref.namespace ref.name) rm.gateways) h (λ there e. Built-of_ok b e)
          (λ missing e. gateway_fetched-Built id route ref _ rm new b e)

    gateways_of_http_route-Built :
        (id : HttpRouteId) (rm new : ResourceModel)
        → Built k rm
        → gateways_of_http_route d id rm ≡ ok new
        → Built k new
    unfolding gateways_of_http_route
    gateways_of_http_route-Built id rm new b h =
        >>=-cases (followed (get id rm.http_routes)) h (λ node hn h1.
          >>=-cases (followed node.http_route) h1 (λ route hr h2.
            each-keeps (Built k) (gateway_from_ref d id route)
              (λ ref s t. gateway_from_ref-Built id route ref s t)
              (find_gateway_refs_for_http_route route) rm new b h2))

    connect_http_route-Built :
        (id : HttpRouteId) (rm new : ResourceModel)
        → Built k rm
        → connect_http_route d id rm ≡ ok new
        → Built k new
    unfolding connect_http_route
    connect_http_route-Built id rm new b h =
        >>=-cases (followed (get id rm.http_routes)) h (λ node hn h1.
          >>=-cases (followed node.http_route) h1 (λ route hr h2.
            each-keeps (Built k) _
              (λ ref s t before done. Built-of_ok (called before (gateway_connected _ _ s)) done)
              (find_gateway_refs_for_http_route route) rm new b h2))

    pub discover_gateways_from_http_routes-Built :
        (rm new : ResourceModel)
        → Built k rm
        → discover_gateways_from_http_routes d rm ≡ ok new
        → Built k new
    unfolding discover_gateways_from_http_routes
    discover_gateways_from_http_routes-Built rm new b h =
        >>=-cases (each (gateways_of_http_route d) (keys rm.http_routes) rm) h (λ fetched hf h1.
          each-keeps (Built k) (connect_http_route d) connect_http_route-Built
            (keys fetched.http_routes) fetched new
            (each-keeps (Built k) (gateways_of_http_route d) gateways_of_http_route-Built
              (keys rm.http_routes) rm fetched b hf)
            h1)

    attach_to_ref-Built :
        (route : HttpRoute) (ref : NamespacedName) (rm new : ResourceModel)
        → Built k rm
        → attach_to_ref d route ref rm ≡ ok new
        → Built k new
    unfolding attach_to_ref
    attach_to_ref-Built route ref rm new b h =
        if-elim (has (gateway_id ref.namespace ref.name) rm.gateways) h
          (λ there e.
            Built-of_ok (called (called b (http_routes_added _ rm)) (gateway_connected _ _ _)) e)
          (λ missing e. Built-of_ok b e)

    pub discover_http_routes_from_gateways-Built :
        (rm new : ResourceModel)
        → Built k rm
        → discover_http_routes_from_gateways d rm ≡ ok new
        → Built k new
    unfolding discover_http_routes_from_gateways attach_http_route
    discover_http_routes_from_gateways-Built rm new b h =
        >>=-cases (or_nothing (fetch_http_routes d (all_objects d))) h (λ routes hr h1.
          each-keeps (Built k) (attach_http_route d)
            (λ route s t.
              each-keeps (Built k) (attach_to_ref d route) (attach_to_ref-Built route)
                (find_gateway_refs_for_http_route route) s t)
            routes rm new b h1)

    include_ref-Built :
        (route : HttpRoute) (ref : ObjRef) (rm new : ResourceModel)
        → Built k rm
        → include_ref d route ref rm ≡ ok new
        → Built k new
    unfolding include_ref
    include_ref-Built route ref rm new b h =
        elim (Option-cases
          (get (backend_id ref.group ref.kind ref.namespace ref.name) rm.backends)) [
            | inl e ↦ Built-of_ok b (rw (e, include_ref) at h)
            | inr (node, e) ↦
                >>=-cases (permitted d route ref node.reference_grants rm)
                  (rw (e, include_ref) at h)
                  (λ accepted ha h1.
                    Built-if accepted
                      (called (called b (http_routes_added _ rm)) (backend_connected _ _ _))
                      (called b (backend_error_noted _ _ rm)) h1)
          ]

    pub discover_http_routes_from_backends-Built :
        (rm new : ResourceModel)
        → Built k rm
        → discover_http_routes_from_backends d rm ≡ ok new
        → Built k new
    unfolding discover_http_routes_from_backends include_http_route
    discover_http_routes_from_backends-Built rm new b h =
        >>=-cases (or_nothing (fetch_http_routes d (all_objects d))) h (λ routes hr h1.
          each-keeps (Built k) (include_http_route d)
            (λ route s t.
              each-keeps (Built k) (include_ref d route) (include_ref-Built route)
                (find_backend_refs_for_http_route route) s t)
            routes rm new b h1)
