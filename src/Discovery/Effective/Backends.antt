-- ===== src/Discovery/Effective/Backends.antt =====
-- The effective policies of the backends, Gateway by Gateway.
use gateway_api.Prelude.{Option, none, some, List, [], ◌≡◌}
use gateway_api.Prelude.Dict.{Dict, get, Distinct}
use gateway_api.Prelude.Outcome.{ok, ◌>>=◌, >>=-cases}
use gateway_api.Policy.Machinery.{Machinery}
use gateway_api.Policy.Object.{Policy}
use gateway_api.Policy.Merge.{Policies, merge_policies_of_similar_kind}
use gateway_api.Discovery.Id.{GatewayId, BackendId, NamespaceId, resource_id_key}
use gateway_api.Discovery.Node.{BackendNode, NamespaceNode}
use gateway_api.Discovery.Model.{ResourceModel}
use gateway_api.Discovery.Effective.{
  node_at, convert_policies_map_to_slice, merge_routes, merge_backend,
  effective_policies_for_backend, calculate_effective_policies_for_backends,
}
use gateway_api.Discovery.Effective.Loops.{for_each-IsStepped}
use gateway_api.Discovery.Effective.Gateways.{node_at-eq-ok}
use gateway_api.Discovery.Effective.Gathered.{
  AreRoutesDistinct, of_routes, with_backend, merge_routes-at, merge_backend-at,
  merge_routes-Distinct, with_backend_of_IsLowered,
}

module _ (k : Machinery) where
  -- The backend's policies for each Gateway: what its routes give, and below it what its Namespace
  -- and itself give.
  abbrev pub IsBackendEffective : ResourceModel → BackendNode → Dict GatewayId Policies → Type 0
  IsBackendEffective rm node result =
      (namespace_id : NamespaceId) × (namespace : NamespaceNode) × (namespace_policies : List
        Policy)
      × (own : List Policy) × (middle : Policies) × (lower : Policies) × (node.namespace
          ≡ some namespace_id)
      × (get namespace_id rm.namespaces ≡ some namespace)
      × (convert_policies_map_to_slice k namespace.policies ≡ ok namespace_policies)
      × (convert_policies_map_to_slice k node.policies ≡ ok own)
      × (merge_policies_of_similar_kind k namespace_policies ≡ ok middle)
      × (merge_policies_of_similar_kind k own ≡ ok lower)
      × ((id : GatewayId)
          → (of_routes k rm id node.http_routes none >>= with_backend k middle lower)
            ≡ ok (get id result))

  effective_policies_for_backend-IsBackendEffective :
      (rm : ResourceModel) (node : BackendNode) {o : Option BackendNode}
      → AreRoutesDistinct rm
      → effective_policies_for_backend k rm node ≡ ok o
      → (result : Dict GatewayId Policies) × (o
          ≡ some (record node { effective_policies = result }))
        × IsBackendEffective rm node result
  unfolding effective_policies_for_backend get
  effective_policies_for_backend-IsBackendEffective rm node {o} each h =
      >>=-cases (convert_policies_map_to_slice k node.policies) h (λ own hown h1.
        >>=-cases (node_at node.namespace rm.namespaces) h1 (λ namespace hn h2.
          >>=-cases (convert_policies_map_to_slice k namespace.policies) h2 (λ ns hns h3.
            >>=-cases (merge_policies_of_similar_kind k own) h3 (λ lower hl h4.
              >>=-cases (merge_policies_of_similar_kind k ns) h4 (λ middle hm h5.
                >>=-cases (merge_routes k rm node.http_routes []) h5 (λ inherited hi h6.
                  >>=-cases (merge_backend k middle lower inherited inherited) h6 (λ result hr h7.
                    let (namespace_id, points, there) =
                      node_at-eq-ok node.namespace rm.namespaces hn in
                    (
                      result,
                      cc,
                      (
                        namespace_id,
                        namespace,
                        ns,
                        own,
                        middle,
                        lower,
                        points,
                        there,
                        hns,
                        hown,
                        hm,
                        hl,
                        λ id. rw (merge_routes-at k rm id node.http_routes [] each hi) (
                            with_backend_of_IsLowered k middle lower (get id inherited)
                              (get id result)
                              (merge_backend-at k middle lower id inherited inherited
                                (merge_routes-Distinct k rm node.http_routes [] tt hi) hr)),
                      ),
                    ))))))))

  -- Where `calculate_effective_policies_for_backends` returns no error and does not panic, and the
  -- maps of backends and of the effective policies of the HTTPRoutes have each key once: the
  -- backend has a Namespace node, and its effective policies for a Gateway are those of its
  -- HTTPRoutes for that Gateway, merged by precedence in the order of the HTTPRoutes, and patched
  -- by what the Namespace and then the backend itself give; they have no entry for a Gateway of
  -- none of its HTTPRoutes. Nothing else of the backend changes.
  pub calculate_effective_policies_for_backends-IsBackendEffective :
      (rm : ResourceModel) (id : BackendId) (node : BackendNode)
      → AreRoutesDistinct rm
      → Distinct rm.backends
      → get id rm.backends ≡ some node
      → (calculate_effective_policies_for_backends k rm).1 ≡ ok tt
      → (result : Dict GatewayId Policies) × (get id
            (calculate_effective_policies_for_backends k rm).0.backends
          ≡ some (record node { effective_policies = result }))
        × IsBackendEffective rm node result
  unfolding calculate_effective_policies_for_backends
  calculate_effective_policies_for_backends-IsBackendEffective rm id node routes distinct found
        done =
      let each =
        for_each-IsStepped (effective_policies_for_backend k rm) rm.backends distinct done id in
      let (o, stepped, now) = rw found at each in
      let (result, same, effective) =
        effective_policies_for_backend-IsBackendEffective rm node routes stepped in
      (result, rw same at now, effective)
