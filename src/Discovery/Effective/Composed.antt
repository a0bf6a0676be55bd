-- ===== src/Discovery/Effective/Composed.antt =====
-- `calculateEffectivePolicies` as a whole: Gateways, then HTTPRoutes, then backends.
use gateway_api.Prelude.{some, ◌≡◌, refl, string_key}
use gateway_api.Prelude.Dict.{get}
use gateway_api.Prelude.Outcome.{Outcome, ok, err, panic}
use gateway_api.Policy.Machinery.{Machinery}
use gateway_api.Discovery.Id.{GatewayId, GatewayClassId, HttpRouteId, BackendId, resource_id_key}
use gateway_api.Discovery.Node.{GatewayNode, HttpRouteNode, BackendNode}
use gateway_api.Discovery.Model.{ResourceModel}
use gateway_api.Discovery.Proper.{IsProper}
use gateway_api.Discovery.Effective.{
  and_then, calculate_effective_policies_for_gateways, calculate_effective_policies_for_http_routes,
  calculate_effective_policies_for_backends, calculate_effective_policies,
}
use gateway_api.Discovery.Effective.Gateways.{
  IsEffective, calculate_effective_policies_for_gateways-IsEffective,
}
use gateway_api.Discovery.Effective.Routes.{
  IsRouteEffective, calculate_effective_policies_for_http_routes-IsRouteEffective,
}
use gateway_api.Discovery.Effective.Backends.{
  IsBackendEffective, calculate_effective_policies_for_backends-IsBackendEffective,
}
use gateway_api.Discovery.Effective.Before.{
  gateway_before, with_gateways-AreDistinct, http_route_before, with_routes-AreRoutesDistinct,
  backend_before,
}

module _ (k : Machinery) where
  -- The effective policies of a model's nodes are those that the model's own policies give.
  pub record IsComputed (rm : ResourceModel) : Type 0 where
    pub gateways :
        (id : GatewayId) (node : GatewayNode) (class_id : GatewayClassId)
        → get id rm.gateways ≡ some node
        → node.gateway_class ≡ some class_id
        → IsEffective k rm node class_id node.effective_policies
    pub http_routes :
        (id : HttpRouteId) (node : HttpRouteNode)
        → get id rm.http_routes ≡ some node
        → IsRouteEffective k rm node node.effective_policies
    pub backends :
        (id : BackendId) (node : BackendNode)
        → get id rm.backends ≡ some node
        → IsBackendEffective k rm node node.effective_policies

  -- The model after the three loops.
  abbrev after_gateways : ResourceModel → ResourceModel
  after_gateways rm = (calculate_effective_policies_for_gateways k rm).0

  abbrev after_routes : ResourceModel → ResourceModel
  after_routes rm = (calculate_effective_policies_for_http_routes k (after_gateways rm)).0

  abbrev after_backends : ResourceModel → ResourceModel
  after_backends rm = (calculate_effective_policies_for_backends k (after_routes rm)).0

  module _ (rm : ResourceModel) (proper : IsProper rm) where
    after-gateways :
        (calculate_effective_policies_for_gateways k rm).1 ≡ ok tt
        → (id : GatewayId) (node : GatewayNode) (class_id : GatewayClassId)
        → get id (after_backends rm).gateways ≡ some node
        → node.gateway_class ≡ some class_id
        → IsEffective k (after_backends rm) node class_id node.effective_policies
    unfolding calculate_effective_policies_for_http_routes calculate_effective_policies_for_backends
        calculate_effective_policies_for_gateways
    after-gateways done id new class_id found has_class =
        let (node, result, old, same, distinct) = gateway_before k rm proper id new done found in
        let (computed, now, effective) =
          calculate_effective_policies_for_gateways-IsEffective k rm id node class_id
            proper.gateways.once old (rw same at has_class) done in
        let this : new ≡ record node { effective_policies = computed } = cc in rw this effective

    after-http_routes :
        (calculate_effective_policies_for_gateways k rm).1 ≡ ok tt
        → (calculate_effective_policies_for_http_routes k (after_gateways rm)).1 ≡ ok tt
        → (id : HttpRouteId) (node : HttpRouteNode)
        → get id (after_backends rm).http_routes ≡ some node
        → IsRouteEffective k (after_backends rm) node node.effective_policies
    unfolding calculate_effective_policies_for_http_routes calculate_effective_policies_for_backends
        calculate_effective_policies_for_gateways
    after-http_routes first done id new found =
        let (node, result, old, same, distinct) =
          http_route_before k (after_gateways rm) proper.http_routes.once id new done found in
        let (computed, now, effective) =
          calculate_effective_policies_for_http_routes-IsRouteEffective k (after_gateways rm) id
            node (with_gateways-AreDistinct k rm proper first) proper.http_routes.once
            (proper.http_routes.every id node old) old done in
        let this : new ≡ record node { effective_policies = computed } = cc in rw this effective

    after-backends :
        (calculate_effective_policies_for_http_routes k (after_gateways rm)).1 ≡ ok tt
        → (calculate_effective_policies_for_backends k (after_routes rm)).1 ≡ ok tt
        → (id : BackendId) (node : BackendNode) → get id (after_backends rm).backends ≡ some node
        → IsBackendEffective k (after_backends rm) node node.effective_policies
    unfolding calculate_effective_policies_for_http_routes calculate_effective_policies_for_backends
        calculate_effective_policies_for_gateways
    after-backends second done id new found =
        let (node, old) =
          backend_before k (after_routes rm) proper.backends.once id new done found in
        let (computed, now, effective) =
          calculate_effective_policies_for_backends-IsBackendEffective k (after_routes rm) id node
            (with_routes-AreRoutesDistinct k (after_gateways rm) proper.http_routes.once second)
            proper.backends.once old done in
        let this : new ≡ record node { effective_policies = computed } = cc in rw this effective

  and_then-ok :
      (s : ResourceModel × Outcome {0} Unit)
      (next : ResourceModel → ResourceModel × Outcome {0} Unit)
      → (and_then k s next).1 ≡ ok tt
      → (s.1 ≡ ok tt) × (and_then k s next ≡ next s.0)
  and_then-ok (rm, ok u) next h = (refl, refl)
  and_then-ok (rm, err e) next h = absurd (cc)
  and_then-ok (rm, panic) next h = absurd (cc)

  pub calculate_effective_policies-IsComputed :
      (rm : ResourceModel)
      → IsProper rm
      → (calculate_effective_policies k rm).1 ≡ ok tt
      → IsComputed (calculate_effective_policies k rm).0
  unfolding calculate_effective_policies
  calculate_effective_policies-IsComputed rm proper done =
      let (first_two, last) =
        and_then-ok
          (and_then k (calculate_effective_policies_for_gateways k rm)
            (calculate_effective_policies_for_http_routes k))
          (calculate_effective_policies_for_backends k) done in
      let (first, second) =
        and_then-ok (calculate_effective_policies_for_gateways k rm)
          (calculate_effective_policies_for_http_routes k) first_two in
      let routes_done = rw second at first_two in
      let backends_done = rw (last, second) at done in
      rw (last, second)
        (record {
          gateways = after-gateways rm proper first;
          http_routes = after-http_routes rm proper first routes_done;
          backends = after-backends rm proper routes_done backends_done;
        })
