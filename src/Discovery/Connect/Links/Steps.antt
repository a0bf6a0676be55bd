-- ===== src/Discovery/Connect/Links/Steps.antt =====
-- The `connect…` methods that link two lists keep them in agreement.
use gateway_api.Prelude.{some, ◌≡◌, refl, sym, ◌∙◌, arith, Option-cases, inl, inr, ◌≐◌, ◌&&◌, ◌||◌}
use gateway_api.Prelude.Dict.{get}
use gateway_api.Discovery.Id.{
  ResourceId, GatewayId, HttpRouteId, BackendId, ReferenceGrantId, resource_id_key,
}
use gateway_api.Discovery.Node.{GatewayNode, HttpRouteNode, BackendNode, ReferenceGrantNode}
use gateway_api.Discovery.Model.{ResourceModel}
use gateway_api.Discovery.Connect.{
  connect_http_route_with_gateway, connect_http_route_with_backend,
  connect_reference_grant_with_backend,
}
use gateway_api.Discovery.Connect.Links.Views.{
  route_gateways, gateway_routes, route_backends, backend_routes, grant_backends, backend_grants,
  view, IsLinked, lists-set, lists-set_same,
}

-- Where both nodes exist, `connect_http_route_with_gateway` makes each list the other, and changes
-- nothing else in what HTTPRoutes and Gateways list of one another.
pub connect_http_route_with_gateway-view :
    (a : HttpRouteId) (b : GatewayId) (rm : ResourceModel) (route : HttpRouteNode)
    (gateway : GatewayNode)
    → get a rm.http_routes ≡ some route
    → get b rm.gateways ≡ some gateway
    → (i j : ResourceId)
    → (view route_gateways (connect_http_route_with_gateway a b rm) i j
        ≡ ((a ≐ i && b ≐ j) || view route_gateways rm i j))
      × (view gateway_routes (connect_http_route_with_gateway a b rm) j i
          ≡ ((b ≐ j && a ≐ i) || view gateway_routes rm j i))
unfolding connect_http_route_with_gateway
connect_http_route_with_gateway-view a b rm route gateway e f i j =
    rw (e, connect_http_route_with_gateway, f)
      (
        lists-set (λ (n : HttpRouteNode). n.gateways) rm.http_routes a b route _ e refl i j,
        lists-set (λ (n : GatewayNode). n.http_routes) rm.gateways b a gateway _ f refl j i,
      )

pub connect_http_route_with_gateway-IsLinked :
    (a : HttpRouteId) (b : GatewayId) (rm : ResourceModel)
    → IsLinked rm
    → IsLinked (connect_http_route_with_gateway a b rm)
unfolding connect_http_route_with_gateway
connect_http_route_with_gateway-IsLinked a b rm linked =
    elim (Option-cases (get a rm.http_routes)) [
      | inl e ↦ rw (e, connect_http_route_with_gateway) linked
      | inr (route, e) ↦ elim (Option-cases (get b rm.gateways)) [
        | inl f ↦ rw (e, f, connect_http_route_with_gateway) linked
        | inr (gateway, f) ↦ both route gateway e f
      ]
    ]
  where
    both :
        (route : HttpRouteNode) (gateway : GatewayNode)
        → get a rm.http_routes ≡ some route
        → get b rm.gateways ≡ some gateway
        → IsLinked (connect_http_route_with_gateway a b rm)
    both route gateway e f route_gateways i j =
        let joined = connect_http_route_with_gateway-view a b rm route gateway e f i j in
        let before = linked route_gateways i j in ground arith
    both route gateway e f gateway_routes i j =
        let joined = connect_http_route_with_gateway-view a b rm route gateway e f j i in
        let before = linked gateway_routes i j in ground arith
    both route gateway e f route_backends i j =
        rw (e, connect_http_route_with_gateway, f)
          (lists-set_same (λ (n : HttpRouteNode). n.backends) rm.http_routes a route _ e refl i j
            ∙ linked route_backends i j)
    both route gateway e f backend_routes i j =
        rw (e, connect_http_route_with_gateway, f)
          (linked backend_routes i j
            ∙ sym (
                lists-set_same (λ (n : HttpRouteNode). n.backends) rm.http_routes a route _ e refl j
                  i))
    both route gateway e f grant_backends i j =
        rw (e, connect_http_route_with_gateway, f) (linked grant_backends i j)
    both route gateway e f backend_grants i j =
        rw (e, connect_http_route_with_gateway, f) (linked backend_grants i j)

-- Where both nodes exist, `connect_http_route_with_backend` makes each list the other, and changes
-- nothing else in what HTTPRoutes and backends list of one another.
pub connect_http_route_with_backend-view :
    (a : HttpRouteId) (b : BackendId) (rm : ResourceModel) (route : HttpRouteNode)
    (backend : BackendNode)
    → get a rm.http_routes ≡ some route
    → get b rm.backends ≡ some backend
    → (i j : ResourceId)
    → (view route_backends (connect_http_route_with_backend a b rm) i j
        ≡ ((a ≐ i && b ≐ j) || view route_backends rm i j))
      × (view backend_routes (connect_http_route_with_backend a b rm) j i
          ≡ ((b ≐ j && a ≐ i) || view backend_routes rm j i))
unfolding connect_http_route_with_backend
connect_http_route_with_backend-view a b rm route backend e f i j =
    rw (e, connect_http_route_with_backend, f)
      (
        lists-set (λ (n : HttpRouteNode). n.backends) rm.http_routes a b route _ e refl i j,
        lists-set (λ (n : BackendNode). n.http_routes) rm.backends b a backend _ f refl j i,
      )

pub connect_http_route_with_backend-IsLinked :
    (a : HttpRouteId) (b : BackendId) (rm : ResourceModel)
    → IsLinked rm
    → IsLinked (connect_http_route_with_backend a b rm)
unfolding connect_http_route_with_backend
connect_http_route_with_backend-IsLinked a b rm linked =
    elim (Option-cases (get a rm.http_routes)) [
      | inl e ↦ rw (e, connect_http_route_with_backend) linked
      | inr (route, e) ↦ elim (Option-cases (get b rm.backends)) [
        | inl f ↦ rw (e, f, connect_http_route_with_backend) linked
        | inr (backend, f) ↦ both route backend e f
      ]
    ]
  where
    both :
        (route : HttpRouteNode) (backend : BackendNode)
        → get a rm.http_routes ≡ some route
        → get b rm.backends ≡ some backend
        → IsLinked (connect_http_route_with_backend a b rm)
    both route backend e f route_backends i j =
        let joined = connect_http_route_with_backend-view a b rm route backend e f i j in
        let before = linked route_backends i j in ground arith
    both route backend e f backend_routes i j =
        let joined = connect_http_route_with_backend-view a b rm route backend e f j i in
        let before = linked backend_routes i j in ground arith
    both route backend e f route_gateways i j =
        rw (e, connect_http_route_with_backend, f)
          (lists-set_same (λ (n : HttpRouteNode). n.gateways) rm.http_routes a route _ e refl i j
            ∙ linked route_gateways i j)
    both route backend e f gateway_routes i j =
        rw (e, connect_http_route_with_backend, f)
          (linked gateway_routes i j
            ∙ sym (
                lists-set_same (λ (n : HttpRouteNode). n.gateways) rm.http_routes a route _ e refl j
                  i))
    both route backend e f grant_backends i j =
        rw (e, connect_http_route_with_backend, f)
          (linked grant_backends i j
            ∙ sym (
                lists-set_same (λ (n : BackendNode). n.reference_grants) rm.backends b backend _ f
                  refl j i))
    both route backend e f backend_grants i j =
        rw (e, connect_http_route_with_backend, f)
          (lists-set_same (λ (n : BackendNode). n.reference_grants) rm.backends b backend _ f refl i
              j
            ∙ linked backend_grants i j)

-- Where both nodes exist, `connect_reference_grant_with_backend` makes each list the other, and
-- changes nothing else in what ReferenceGrants and backends list of one another.
pub connect_reference_grant_with_backend-view :
    (a : ReferenceGrantId) (b : BackendId) (rm : ResourceModel) (grant : ReferenceGrantNode)
    (backend : BackendNode)
    → get a rm.reference_grants ≡ some grant
    → get b rm.backends ≡ some backend
    → (i j : ResourceId)
    → (view grant_backends (connect_reference_grant_with_backend a b rm) i j
        ≡ ((a ≐ i && b ≐ j) || view grant_backends rm i j))
      × (view backend_grants (connect_reference_grant_with_backend a b rm) j i
          ≡ ((b ≐ j && a ≐ i) || view backend_grants rm j i))
unfolding connect_reference_grant_with_backend
connect_reference_grant_with_backend-view a b rm grant backend e f i j =
    rw (e, connect_reference_grant_with_backend, f)
      (
        lists-set (λ (n : ReferenceGrantNode). n.backends) rm.reference_grants a b grant _ e refl i
            j,
        lists-set (λ (n : BackendNode). n.reference_grants) rm.backends b a backend _ f refl j i,
      )

pub connect_reference_grant_with_backend-IsLinked :
    (a : ReferenceGrantId) (b : BackendId) (rm : ResourceModel)
    → IsLinked rm
    → IsLinked (connect_reference_grant_with_backend a b rm)
unfolding connect_reference_grant_with_backend
connect_reference_grant_with_backend-IsLinked a b rm linked =
    elim (Option-cases (get a rm.reference_grants)) [
      | inl e ↦ rw (e, connect_reference_grant_with_backend) linked
      | inr (grant, e) ↦ elim (Option-cases (get b rm.backends)) [
        | inl f ↦ rw (e, f, connect_reference_grant_with_backend) linked
        | inr (backend, f) ↦ both grant backend e f
      ]
    ]
  where
    both :
        (grant : ReferenceGrantNode) (backend : BackendNode)
        → get a rm.reference_grants ≡ some grant
        → get b rm.backends ≡ some backend
        → IsLinked (connect_reference_grant_with_backend a b rm)
    both grant backend e f grant_backends i j =
        let joined = connect_reference_grant_with_backend-view a b rm grant backend e f i j in
        let before = linked grant_backends i j in ground arith
    both grant backend e f backend_grants i j =
        let joined = connect_reference_grant_with_backend-view a b rm grant backend e f j i in
        let before = linked backend_grants i j in ground arith
    both grant backend e f route_gateways i j =
        rw (e, connect_reference_grant_with_backend, f) (linked route_gateways i j)
    both grant backend e f gateway_routes i j =
        rw (e, connect_reference_grant_with_backend, f) (linked gateway_routes i j)
    both grant backend e f route_backends i j =
        rw (e, connect_reference_grant_with_backend, f)
          (linked route_backends i j
            ∙ sym (
                lists-set_same (λ (n : BackendNode). n.http_routes) rm.backends b backend _ f refl j
                  i))
    both grant backend e f backend_routes i j =
        rw (e, connect_reference_grant_with_backend, f)
          (lists-set_same (λ (n : BackendNode). n.http_routes) rm.backends b backend _ f refl i j
            ∙ linked backend_routes i j)
