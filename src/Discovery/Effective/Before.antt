-- ===== src/Discovery/Effective/Before.antt =====
-- Where a node comes from after a loop of `calculateEffectivePolicies` that did not stop.
use gateway_api.Prelude.{Option, none, some, ◌≡◌, refl, ◌∙◌, string_key}
use gateway_api.Prelude.Dict.{Dict, get, Distinct}
use gateway_api.Prelude.Outcome.{Outcome, ok}
use gateway_api.Policy.Machinery.{Machinery}
use gateway_api.Policy.Merge.{Policies}
use gateway_api.Discovery.Id.{GatewayId, HttpRouteId, BackendId, resource_id_key}
use gateway_api.Discovery.Node.{GatewayNode, HttpRouteNode, BackendNode}
use gateway_api.Discovery.Model.{ResourceModel}
use gateway_api.Discovery.Proper.{IsProper}
use gateway_api.Discovery.Effective.{
  effective_policies_for_gateway, effective_policies_for_http_route, effective_policies_for_backend,
  calculate_effective_policies_for_gateways, calculate_effective_policies_for_http_routes,
  calculate_effective_policies_for_backends,
}
use gateway_api.Discovery.Effective.Loops.{for_each-IsStepped, kept_or, IsStepped}
use gateway_api.Discovery.Effective.Bodies.{
  effective_policies_for_gateway-result, effective_policies_for_http_route-result,
}
use gateway_api.Discovery.Effective.Routes.{AreDistinct}
use gateway_api.Discovery.Effective.Gathered.{AreRoutesDistinct}

-- A node after a loop that did not stop comes from one before it.
stepped_from :
    {N : Type 0} (step : N → Outcome (Option N)) (old : Option N) {new : N}
    → IsStepped step old (some new)
    → (node : N) × (o : Option N) × (old ≡ some node) × (step node ≡ ok o) × (new ≡ kept_or node o)
stepped_from step none h = absurd (cc)
stepped_from step (some node) (o, e, f) = (node, o, refl, e, cc)

module _ (k : Machinery) (rm : ResourceModel) (proper : IsProper rm) where
  -- A Gateway after its loop is one of before with other effective policies, if with any.
  changed_gateway :
      (id : GatewayId) (node new : GatewayNode) (o : Option GatewayNode)
      → get id rm.gateways ≡ some node
      → effective_policies_for_gateway k rm node ≡ ok o
      → new ≡ kept_or node o
      → (result : Policies) × (new ≡ record node { effective_policies = result }) × Distinct result
  changed_gateway id node new none old stepped now =
      (node.effective_policies, now, rw (proper.gateways.every id node old) tt)
  changed_gateway id node new (some changed) old stepped now =
      let (result, same, distinct) = effective_policies_for_gateway-result k rm node stepped in
      (result, now ∙ same, distinct)

  pub gateway_before :
      (id : GatewayId) (new : GatewayNode)
      → (calculate_effective_policies_for_gateways k rm).1 ≡ ok tt
      → get id (calculate_effective_policies_for_gateways k rm).0.gateways ≡ some new
      → (node : GatewayNode) × (result : Policies) × (get id rm.gateways ≡ some node)
        × (new ≡ record node { effective_policies = result })
        × Distinct result
  unfolding calculate_effective_policies_for_gateways
  gateway_before id new done found =
      let each =
        for_each-IsStepped (effective_policies_for_gateway k rm) rm.gateways proper.gateways.once
          done id in
      let (node, o, old, stepped, now) =
        stepped_from (effective_policies_for_gateway k rm) (get id rm.gateways)
          (rw found at each) in
      let (result, same, distinct) = changed_gateway id node new o old stepped now in
      (node, result, old, same, distinct)

  pub with_gateways-AreDistinct :
      (calculate_effective_policies_for_gateways k rm).1 ≡ ok tt
      → AreDistinct (calculate_effective_policies_for_gateways k rm).0
  with_gateways-AreDistinct done id gateway found =
      let (node, result, old, same, distinct) = gateway_before id gateway done found in
      rw same distinct

module _ (k : Machinery) (rm : ResourceModel) (once : Distinct rm.http_routes) where
  pub http_route_before :
      (id : HttpRouteId) (new : HttpRouteNode)
      → (calculate_effective_policies_for_http_routes k rm).1 ≡ ok tt
      → get id (calculate_effective_policies_for_http_routes k rm).0.http_routes ≡ some new
      → (node : HttpRouteNode) × (result : Dict GatewayId Policies) × (get id rm.http_routes
          ≡ some node)
        × (new ≡ record node { effective_policies = result })
        × Distinct result
  unfolding calculate_effective_policies_for_http_routes
  http_route_before id new done found =
      let each =
        for_each-IsStepped (effective_policies_for_http_route k rm) rm.http_routes once done id in
      let (node, o, old, stepped, now) =
        stepped_from (effective_policies_for_http_route k rm) (get id rm.http_routes)
          (rw found at each) in
      let (result, changed, distinct) =
        effective_policies_for_http_route-result k rm node stepped in
      let merged : kept_or node o ≡ record node { effective_policies = result } = rw changed refl in
      (node, result, old, now ∙ merged, distinct)

  pub with_routes-AreRoutesDistinct :
      (calculate_effective_policies_for_http_routes k rm).1 ≡ ok tt
      → AreRoutesDistinct (calculate_effective_policies_for_http_routes k rm).0
  with_routes-AreRoutesDistinct done id route found =
      let (node, result, old, same, distinct) = http_route_before id route done found in
      rw same distinct

module _ (k : Machinery) (rm : ResourceModel) (once : Distinct rm.backends) where
  pub backend_before :
      (id : BackendId) (new : BackendNode)
      → (calculate_effective_policies_for_backends k rm).1 ≡ ok tt
      → get id (calculate_effective_policies_for_backends k rm).0.backends ≡ some new
      → (node : BackendNode) × (get id rm.backends ≡ some node)
  unfolding calculate_effective_policies_for_backends
  backend_before id new done found =
      let each =
        for_each-IsStepped (effective_policies_for_backend k rm) rm.backends once done id in
      let (node, o, old, stepped, now) =
        stepped_from (effective_policies_for_backend k rm) (get id rm.backends)
          (rw found at each) in
      (node, old)
