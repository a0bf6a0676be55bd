-- ===== src/Discovery/Proper/Steps.antt =====
-- The methods that add and connect nodes, and the notes on nodes, keep a model proper.
use gateway_api.Prelude.{List, [], ◌∷◌, some, refl, Option-cases, inl, inr}
use gateway_api.Prelude.Dict.{get, set_if_missing, set-Distinct}
use gateway_api.Api.Meta.{Event}
use gateway_api.Api.Route.{HttpRoute}
use gateway_api.Api.Gateway.{Gateway, GatewayClass, Namespace}
use gateway_api.Api.Grant.{ReferenceGrant}
use gateway_api.Policy.Value.{Object}
use gateway_api.Policy.Machinery.{Machinery}
use gateway_api.Discovery.Errors.{NodeError}
use gateway_api.Discovery.Id.{
  GatewayClassId, NamespaceId, GatewayId, HttpRouteId, BackendId, ReferenceGrantId, resource_id_key,
}
use gateway_api.Discovery.Node.{
  new_gateway_node, new_http_route_node, new_backend_node, gateway_node_id, http_route_node_id,
  backend_node_id,
}
use gateway_api.Discovery.Model.{
  ResourceModel, add_gateway_classes, add_namespace, add_gateways, add_http_routes, add_backends,
  add_reference_grants,
}
use gateway_api.Discovery.Connect.{
  connect_gateway_with_gateway_class, connect_http_route_with_gateway,
  connect_http_route_with_backend, connect_gateway_with_namespace,
  connect_http_route_with_namespace, connect_backend_with_namespace,
  connect_reference_grant_with_backend,
}
use gateway_api.Discovery.Notes.{
  note_gateway_error, note_http_route_error, note_backend_error, note_events,
}
use gateway_api.Discovery.Proper.{
  IsProper, IsFreshGateway, IsFreshRoute, IsFreshBackend, set_if_missing-IsSound,
  set_gateway-IsProper, set_http_route-IsProper, set_backend-IsProper, IsProper-of_same,
}

pub add_gateway_classes-IsProper :
    (l : List GatewayClass) (rm : ResourceModel) → IsProper rm → IsProper (add_gateway_classes l rm)
unfolding add_gateway_classes
add_gateway_classes-IsProper [] rm h = h
add_gateway_classes-IsProper (x ∷ rest) rm h =
    add_gateway_classes-IsProper rest _ (IsProper-of_same rm h _ refl refl refl)

pub add_namespace-IsProper :
    (l : List Namespace) (rm : ResourceModel) → IsProper rm → IsProper (add_namespace l rm)
unfolding add_namespace
add_namespace-IsProper [] rm h = h
add_namespace-IsProper (x ∷ rest) rm h =
    add_namespace-IsProper rest _ (IsProper-of_same rm h _ refl refl refl)

pub add_reference_grants-IsProper :
    (l : List ReferenceGrant) (rm : ResourceModel)
    → IsProper rm
    → IsProper (add_reference_grants l rm)
unfolding add_reference_grants
add_reference_grants-IsProper [] rm h = h
add_reference_grants-IsProper (x ∷ rest) rm h =
    add_reference_grants-IsProper rest _ (IsProper-of_same rm h _ refl refl refl)

pub add_gateways-IsProper :
    (l : List Gateway) (rm : ResourceModel) → IsProper rm → IsProper (add_gateways l rm)
unfolding add_gateways
add_gateways-IsProper [] rm h = h
add_gateways-IsProper (x ∷ rest) rm h =
    let node = new_gateway_node (some x) in
    add_gateways-IsProper rest
      (record rm { gateways = set_if_missing (gateway_node_id node) node rm.gateways })
      (record {
        gateways =
            set_if_missing-IsSound IsFreshGateway (gateway_node_id node) node rm.gateways refl
              h.gateways;
        http_routes = h.http_routes;
        backends = h.backends;
      })

pub add_http_routes-IsProper :
    (l : List HttpRoute) (rm : ResourceModel) → IsProper rm → IsProper (add_http_routes l rm)
unfolding add_http_routes
add_http_routes-IsProper [] rm h = h
add_http_routes-IsProper (x ∷ rest) rm h =
    let node = new_http_route_node (some x) in
    add_http_routes-IsProper rest
      (record rm { http_routes = set_if_missing (http_route_node_id node) node rm.http_routes })
      (record {
        gateways = h.gateways;
        http_routes =
            set_if_missing-IsSound IsFreshRoute (http_route_node_id node) node rm.http_routes tt
              h.http_routes;
        backends = h.backends;
      })

pub add_backends-IsProper :
    (k : Machinery) (l : List Object) (rm : ResourceModel)
    → IsProper rm
    → IsProper (add_backends k l rm)
unfolding add_backends
add_backends-IsProper k [] rm h = h
add_backends-IsProper k (x ∷ rest) rm h =
    let node = new_backend_node (some x) in
    add_backends-IsProper k rest
      (record rm { backends = set_if_missing (backend_node_id k node) node rm.backends })
      (record {
        gateways = h.gateways;
        http_routes = h.http_routes;
        backends =
            set_if_missing-IsSound IsFreshBackend (backend_node_id k node) node rm.backends tt
              h.backends;
      })

module _ (rm : ResourceModel) (h : IsProper rm) where
  pub connect_gateway_with_gateway_class-IsProper :
      (a : GatewayId) (b : GatewayClassId) → IsProper (connect_gateway_with_gateway_class a b rm)
  unfolding connect_gateway_with_gateway_class
  connect_gateway_with_gateway_class-IsProper a b = elim (Option-cases (get a rm.gateways)) [
    | inl e ↦ rw (e, connect_gateway_with_gateway_class) h
    | inr (n, e) ↦ elim (Option-cases (get b rm.gateway_classes)) [
      | inl f ↦ rw (e, f, connect_gateway_with_gateway_class) h
      | inr (m, f) ↦
          rw (e, connect_gateway_with_gateway_class, f)
            (IsProper-of_same _ (set_gateway-IsProper rm h a n _ e refl) _ refl refl refl)
    ]
  ]

  pub connect_gateway_with_namespace-IsProper :
      (a : GatewayId) (b : NamespaceId) → IsProper (connect_gateway_with_namespace a b rm)
  unfolding connect_gateway_with_namespace
  connect_gateway_with_namespace-IsProper a b = elim (Option-cases (get a rm.gateways)) [
    | inl e ↦ rw (e, connect_gateway_with_namespace) h
    | inr (n, e) ↦ elim (Option-cases (get b rm.namespaces)) [
      | inl f ↦ rw (e, f, connect_gateway_with_namespace) h
      | inr (m, f) ↦
          rw (e, connect_gateway_with_namespace, f)
            (IsProper-of_same _ (set_gateway-IsProper rm h a n _ e refl) _ refl refl refl)
    ]
  ]

  pub connect_http_route_with_namespace-IsProper :
      (a : HttpRouteId) (b : NamespaceId) → IsProper (connect_http_route_with_namespace a b rm)
  unfolding connect_http_route_with_namespace
  connect_http_route_with_namespace-IsProper a b = elim (Option-cases (get a rm.http_routes)) [
    | inl e ↦ rw (e, connect_http_route_with_namespace) h
    | inr (n, e) ↦ elim (Option-cases (get b rm.namespaces)) [
      | inl f ↦ rw (e, f, connect_http_route_with_namespace) h
      | inr (m, f) ↦
          rw (e, connect_http_route_with_namespace, f)
            (IsProper-of_same _ (set_http_route-IsProper rm h a _ (h.http_routes.every a n e)) _
              refl refl refl)
    ]
  ]

  pub connect_backend_with_namespace-IsProper :
      (a : BackendId) (b : NamespaceId) → IsProper (connect_backend_with_namespace a b rm)
  unfolding connect_backend_with_namespace
  connect_backend_with_namespace-IsProper a b = elim (Option-cases (get a rm.backends)) [
    | inl e ↦ rw (e, connect_backend_with_namespace) h
    | inr (n, e) ↦ elim (Option-cases (get b rm.namespaces)) [
      | inl f ↦ rw (e, f, connect_backend_with_namespace) h
      | inr (m, f) ↦
          rw (e, connect_backend_with_namespace, f)
            (IsProper-of_same _ (set_backend-IsProper rm h a _) _ refl refl refl)
    ]
  ]

  pub connect_reference_grant_with_backend-IsProper :
      (a : ReferenceGrantId) (b : BackendId)
      → IsProper (connect_reference_grant_with_backend a b rm)
  unfolding connect_reference_grant_with_backend
  connect_reference_grant_with_backend-IsProper a b =
      elim (Option-cases (get a rm.reference_grants)) [
        | inl e ↦ rw (e, connect_reference_grant_with_backend) h
        | inr (n, e) ↦ elim (Option-cases (get b rm.backends)) [
          | inl f ↦ rw (e, f, connect_reference_grant_with_backend) h
          | inr (m, f) ↦
              rw (e, connect_reference_grant_with_backend, f)
                (IsProper-of_same _ (set_backend-IsProper rm h b _) _ refl refl refl)
        ]
      ]

  pub connect_http_route_with_gateway-IsProper :
      (a : HttpRouteId) (b : GatewayId) → IsProper (connect_http_route_with_gateway a b rm)
  unfolding connect_http_route_with_gateway
  connect_http_route_with_gateway-IsProper a b = elim (Option-cases (get a rm.http_routes)) [
    | inl e ↦ rw (e, connect_http_route_with_gateway) h
    | inr (n, e) ↦ elim (Option-cases (get b rm.gateways)) [
      | inl f ↦ rw (e, f, connect_http_route_with_gateway) h
      | inr (m, f) ↦
          rw (e, connect_http_route_with_gateway, f)
            (set_http_route-IsProper _ (set_gateway-IsProper rm h b m _ f refl) a _
              (set-Distinct b b n.gateways (h.http_routes.every a n e)))
    ]
  ]

  pub connect_http_route_with_backend-IsProper :
      (a : HttpRouteId) (b : BackendId) → IsProper (connect_http_route_with_backend a b rm)
  unfolding connect_http_route_with_backend
  connect_http_route_with_backend-IsProper a b = elim (Option-cases (get a rm.http_routes)) [
    | inl e ↦ rw (e, connect_http_route_with_backend) h
    | inr (n, e) ↦ elim (Option-cases (get b rm.backends)) [
      | inl f ↦ rw (e, f, connect_http_route_with_backend) h
      | inr (m, f) ↦
          rw (e, connect_http_route_with_backend, f)
            (set_http_route-IsProper _ (set_backend-IsProper rm h b _) a _
              (h.http_routes.every a n e))
    ]
  ]

  pub note_gateway_error-IsProper :
      (a : GatewayId) (error : NodeError) → IsProper (note_gateway_error a error rm)
  unfolding note_gateway_error
  note_gateway_error-IsProper a error = elim (Option-cases (get a rm.gateways)) [
    | inl e ↦ rw (e, note_gateway_error) h
    | inr (n, e) ↦ rw (e, note_gateway_error) (set_gateway-IsProper rm h a n _ e refl)
  ]

  pub note_events-IsProper :
      (a : GatewayId) (events : List Event) → IsProper (note_events a events rm)
  unfolding note_events
  note_events-IsProper a events = elim (Option-cases (get a rm.gateways)) [
    | inl e ↦ rw (e, note_events) h
    | inr (n, e) ↦ rw (e, note_events) (set_gateway-IsProper rm h a n _ e refl)
  ]

  pub note_http_route_error-IsProper :
      (a : HttpRouteId) (error : NodeError) → IsProper (note_http_route_error a error rm)
  unfolding note_http_route_error
  note_http_route_error-IsProper a error = elim (Option-cases (get a rm.http_routes)) [
    | inl e ↦ rw (e, note_http_route_error) h
    | inr (n, e) ↦
        rw (e, note_http_route_error) (set_http_route-IsProper rm h a _ (h.http_routes.every a n e))
  ]

  pub note_backend_error-IsProper :
      (a : BackendId) (error : NodeError) → IsProper (note_backend_error a error rm)
  unfolding note_backend_error
  note_backend_error-IsProper a error = elim (Option-cases (get a rm.backends)) [
    | inl e ↦ rw (e, note_backend_error) h
    | inr (n, e) ↦ rw (e, note_backend_error) (set_backend-IsProper rm h a _)
  ]
