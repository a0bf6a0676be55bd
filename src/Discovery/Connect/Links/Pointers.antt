-- ===== src/Discovery/Connect/Links/Pointers.antt =====
-- The `connect…` methods that set a pointer leave the lists that mirror each other alone.
use gateway_api.Prelude.{some, ◌≡◌, refl, Option-cases, inl, inr}
use gateway_api.Prelude.Dict.{get}
use gateway_api.Discovery.Id.{
  GatewayClassId, NamespaceId, GatewayId, HttpRouteId, BackendId, resource_id_key,
}
use gateway_api.Discovery.Node.{
  GatewayClassNode, NamespaceNode, GatewayNode, HttpRouteNode, BackendNode,
}
use gateway_api.Discovery.Model.{ResourceModel}
use gateway_api.Discovery.Connect.{
  connect_gateway_with_gateway_class, connect_gateway_with_namespace,
  connect_http_route_with_namespace, connect_backend_with_namespace,
}
use gateway_api.Discovery.Connect.Links.Views.{
  route_gateways, gateway_routes, route_backends, backend_routes, grant_backends, backend_grants,
  AreSame, lists-set_same,
}

pub connect_gateway_with_gateway_class-AreSame :
    (a : GatewayId) (b : GatewayClassId) (rm : ResourceModel)
    → AreSame rm (connect_gateway_with_gateway_class a b rm)
unfolding connect_gateway_with_gateway_class
connect_gateway_with_gateway_class-AreSame a b rm = elim (Option-cases (get a rm.gateways)) [
  | inl e ↦ rw (e, connect_gateway_with_gateway_class) (λ v i j. refl)
  | inr (gateway, e) ↦ elim (Option-cases (get b rm.gateway_classes)) [
    | inl f ↦ rw (e, f, connect_gateway_with_gateway_class) (λ v i j. refl)
    | inr (class, f) ↦ both gateway class e f
  ]
]
  where
    both :
        (gateway : GatewayNode) (class : GatewayClassNode)
        → get a rm.gateways ≡ some gateway
        → get b rm.gateway_classes ≡ some class
        → AreSame rm (connect_gateway_with_gateway_class a b rm)
    both gateway class e f route_gateways i j = rw (e, connect_gateway_with_gateway_class, f) (refl)
    both gateway class e f gateway_routes i j =
        rw (e, connect_gateway_with_gateway_class, f)
          (lists-set_same (λ (n : GatewayNode). n.http_routes) rm.gateways a gateway _ e refl i j)
    both gateway class e f route_backends i j = rw (e, connect_gateway_with_gateway_class, f) (refl)
    both gateway class e f backend_routes i j = rw (e, connect_gateway_with_gateway_class, f) (refl)
    both gateway class e f grant_backends i j = rw (e, connect_gateway_with_gateway_class, f) (refl)
    both gateway class e f backend_grants i j = rw (e, connect_gateway_with_gateway_class, f) (refl)

pub connect_gateway_with_namespace-AreSame :
    (a : GatewayId) (b : NamespaceId) (rm : ResourceModel)
    → AreSame rm (connect_gateway_with_namespace a b rm)
unfolding connect_gateway_with_namespace
connect_gateway_with_namespace-AreSame a b rm = elim (Option-cases (get a rm.gateways)) [
  | inl e ↦ rw (e, connect_gateway_with_namespace) (λ v i j. refl)
  | inr (gateway, e) ↦ elim (Option-cases (get b rm.namespaces)) [
    | inl f ↦ rw (e, f, connect_gateway_with_namespace) (λ v i j. refl)
    | inr (namespace, f) ↦ both gateway namespace e f
  ]
]
  where
    both :
        (gateway : GatewayNode) (namespace : NamespaceNode)
        → get a rm.gateways ≡ some gateway
        → get b rm.namespaces ≡ some namespace
        → AreSame rm (connect_gateway_with_namespace a b rm)
    both gateway namespace e f route_gateways i j = rw (e, connect_gateway_with_namespace, f) (refl)
    both gateway namespace e f gateway_routes i j =
        rw (e, connect_gateway_with_namespace, f)
          (lists-set_same (λ (n : GatewayNode). n.http_routes) rm.gateways a gateway _ e refl i j)
    both gateway namespace e f route_backends i j = rw (e, connect_gateway_with_namespace, f) (refl)
    both gateway namespace e f backend_routes i j = rw (e, connect_gateway_with_namespace, f) (refl)
    both gateway namespace e f grant_backends i j = rw (e, connect_gateway_with_namespace, f) (refl)
    both gateway namespace e f backend_grants i j = rw (e, connect_gateway_with_namespace, f) (refl)

pub connect_http_route_with_namespace-AreSame :
    (a : HttpRouteId) (b : NamespaceId) (rm : ResourceModel)
    → AreSame rm (connect_http_route_with_namespace a b rm)
unfolding connect_http_route_with_namespace
connect_http_route_with_namespace-AreSame a b rm = elim (Option-cases (get a rm.http_routes)) [
  | inl e ↦ rw (e, connect_http_route_with_namespace) (λ v i j. refl)
  | inr (route, e) ↦ elim (Option-cases (get b rm.namespaces)) [
    | inl f ↦ rw (e, f, connect_http_route_with_namespace) (λ v i j. refl)
    | inr (namespace, f) ↦ both route namespace e f
  ]
]
  where
    both :
        (route : HttpRouteNode) (namespace : NamespaceNode)
        → get a rm.http_routes ≡ some route
        → get b rm.namespaces ≡ some namespace
        → AreSame rm (connect_http_route_with_namespace a b rm)
    both route namespace e f route_gateways i j =
        rw (e, connect_http_route_with_namespace, f)
          (lists-set_same (λ (n : HttpRouteNode). n.gateways) rm.http_routes a route _ e refl i j)
    both route namespace e f gateway_routes i j =
        rw (e, connect_http_route_with_namespace, f) (refl)
    both route namespace e f route_backends i j =
        rw (e, connect_http_route_with_namespace, f)
          (lists-set_same (λ (n : HttpRouteNode). n.backends) rm.http_routes a route _ e refl i j)
    both route namespace e f backend_routes i j =
        rw (e, connect_http_route_with_namespace, f) (refl)
    both route namespace e f grant_backends i j =
        rw (e, connect_http_route_with_namespace, f) (refl)
    both route namespace e f backend_grants i j =
        rw (e, connect_http_route_with_namespace, f) (refl)

pub connect_backend_with_namespace-AreSame :
    (a : BackendId) (b : NamespaceId) (rm : ResourceModel)
    → AreSame rm (connect_backend_with_namespace a b rm)
unfolding connect_backend_with_namespace
connect_backend_with_namespace-AreSame a b rm = elim (Option-cases (get a rm.backends)) [
  | inl e ↦ rw (e, connect_backend_with_namespace) (λ v i j. refl)
  | inr (backend, e) ↦ elim (Option-cases (get b rm.namespaces)) [
    | inl f ↦ rw (e, f, connect_backend_with_namespace) (λ v i j. refl)
    | inr (namespace, f) ↦ both backend namespace e f
  ]
]
  where
    both :
        (backend : BackendNode) (namespace : NamespaceNode)
        → get a rm.backends ≡ some backend
        → get b rm.namespaces ≡ some namespace
        → AreSame rm (connect_backend_with_namespace a b rm)
    both backend namespace e f route_gateways i j = rw (e, connect_backend_with_namespace, f) (refl)
    both backend namespace e f gateway_routes i j = rw (e, connect_backend_with_namespace, f) (refl)
    both backend namespace e f route_backends i j = rw (e, connect_backend_with_namespace, f) (refl)
    both backend namespace e f backend_routes i j =
        rw (e, connect_backend_with_namespace, f)
          (lists-set_same (λ (n : BackendNode). n.http_routes) rm.backends a backend _ e refl i j)
    both backend namespace e f grant_backends i j = rw (e, connect_backend_with_namespace, f) (refl)
    both backend namespace e f backend_grants i j =
        rw (e, connect_backend_with_namespace, f)
          (lists-set_same (λ (n : BackendNode). n.reference_grants) rm.backends a backend _ e refl i
            j)
