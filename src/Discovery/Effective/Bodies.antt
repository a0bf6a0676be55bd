-- ===== src/Discovery/Effective/Bodies.antt =====
-- What the bodies of the loops of `calculateEffectivePolicies` change: nothing but the effective
-- policies, which have each key once.
use gateway_api.Prelude.{Option, some, List, [], ◌∷◌, ◌≡◌, Option-cases, inl, inr, string_key}
use gateway_api.Prelude.Dict.{Dict, get, set, Distinct, set-Distinct}
use gateway_api.Prelude.Outcome.{ok, >>=-cases}
use gateway_api.Policy.Machinery.{Machinery}
use gateway_api.Policy.Object.{Policy}
use gateway_api.Policy.Merge.{
  Policies, merge_policies_of_similar_kind, merge_policies_of_different_hierarchy,
}
use gateway_api.Policy.Merge.Union.{merge_policies-Distinct}
use gateway_api.Discovery.Id.{GatewayId, resource_id_key}
use gateway_api.Discovery.Node.{GatewayNode, HttpRouteNode, BackendNode}
use gateway_api.Discovery.Model.{ResourceModel}
use gateway_api.Discovery.Effective.{
  followed, node_at, convert_policies_map_to_slice, merge_hierarchies,
  effective_policies_for_gateway, merge_for_gateways, effective_policies_for_http_route,
  merge_routes, merge_backend, effective_policies_for_backend,
}

module _ (k : Machinery) where
  merge_hierarchies-Distinct :
      (upper middle lower : List Policy) {r : Policies}
      → merge_hierarchies k upper middle lower ≡ ok r
      → Distinct r
  unfolding merge_hierarchies merge_policies_of_different_hierarchy
  merge_hierarchies-Distinct upper middle lower h =
      >>=-cases (merge_policies_of_similar_kind k upper) h (λ u hu h1.
        >>=-cases (merge_policies_of_similar_kind k middle) h1 (λ m hm h2.
          >>=-cases (merge_policies_of_similar_kind k lower) h2 (λ l hl h3.
            >>=-cases (merge_policies_of_different_hierarchy k u m) h3
              (λ um hum h4. merge_policies-Distinct k (λ a b. (a, b)) um l h4))))

  -- A Gateway without a GatewayClass is passed over.
  pub effective_policies_for_gateway-result :
      (rm : ResourceModel) (node : GatewayNode) {new : GatewayNode}
      → effective_policies_for_gateway k rm node ≡ ok (some new)
      → (result : Policies) × (new ≡ record node { effective_policies = result }) × Distinct result
  unfolding effective_policies_for_gateway
  effective_policies_for_gateway-result rm node {new} h = elim (Option-cases node.gateway_class) [
    | inl e ↦ absurd (cc (rw (e, effective_policies_for_gateway) at h))
    | inr (class_id, e) ↦
        >>=-cases (followed (get class_id rm.gateway_classes))
          (rw (e, effective_policies_for_gateway) at h)
          (λ class hc h1.
            >>=-cases (convert_policies_map_to_slice k class.policies) h1 (λ cs hcs h2.
              >>=-cases (node_at node.namespace rm.namespaces) h2 (λ namespace hn h3.
                >>=-cases (convert_policies_map_to_slice k namespace.policies) h3 (λ ns hns h4.
                  >>=-cases (convert_policies_map_to_slice k node.policies) h4 (λ own hown h5.
                    >>=-cases (merge_hierarchies k cs ns own) h5
                      (λ result hr h6. (result, cc, merge_hierarchies-Distinct cs ns own hr)))))))
  ]

  merge_for_gateways-Distinct :
      (rm : ResourceModel) (middle lower : Policies) (gateways : List (GatewayId × GatewayId))
      (result : Dict GatewayId Policies) {r : Dict GatewayId Policies}
      → Distinct result
      → merge_for_gateways k rm middle lower gateways result ≡ ok r
      → Distinct r
  unfolding merge_for_gateways
  merge_for_gateways-Distinct rm middle lower [] result {r} distinct h =
      let same : result ≡ r = cc in rw (← same) distinct
  merge_for_gateways-Distinct rm middle lower ((id, pointer) ∷ rest) result distinct h =
      >>=-cases (followed (get pointer rm.gateways)) h (λ gateway hg h1.
        >>=-cases (merge_policies_of_different_hierarchy k gateway.effective_policies middle) h1
          (λ inherited hi h2.
            >>=-cases (merge_policies_of_different_hierarchy k inherited lower) h2 (λ merged hm h3.
              merge_for_gateways-Distinct rm middle lower rest (set id merged result)
                (set-Distinct id merged result distinct) h3)))

  pub effective_policies_for_http_route-result :
      (rm : ResourceModel) (node : HttpRouteNode) {o : Option HttpRouteNode}
      → effective_policies_for_http_route k rm node ≡ ok o
      → (result : Dict GatewayId Policies) × (o
          ≡ some (record node { effective_policies = result }))
        × Distinct result
  unfolding effective_policies_for_http_route
  effective_policies_for_http_route-result rm node h =
      >>=-cases (convert_policies_map_to_slice k node.policies) h (λ own hown h1.
        >>=-cases (node_at node.namespace rm.namespaces) h1 (λ namespace hn h2.
          >>=-cases (convert_policies_map_to_slice k namespace.policies) h2 (λ ns hns h3.
            >>=-cases (merge_policies_of_similar_kind k own) h3 (λ lower hl h4.
              >>=-cases (merge_policies_of_similar_kind k ns) h4 (λ middle hm h5.
                >>=-cases (merge_for_gateways k rm middle lower node.gateways []) h5
                  (λ result hr h6. (
                    result,
                    cc,
                    merge_for_gateways-Distinct rm middle lower node.gateways [] tt hr,
                  )))))))

  pub effective_policies_for_backend-result :
      (rm : ResourceModel) (node : BackendNode) {o : Option BackendNode}
      → effective_policies_for_backend k rm node ≡ ok o
      → (result : Dict GatewayId Policies) × (o
          ≡ some (record node { effective_policies = result }))
  unfolding effective_policies_for_backend
  effective_policies_for_backend-result rm node h =
      >>=-cases (convert_policies_map_to_slice k node.policies) h (λ own hown h1.
        >>=-cases (node_at node.namespace rm.namespaces) h1 (λ namespace hn h2.
          >>=-cases (convert_policies_map_to_slice k namespace.policies) h2 (λ ns hns h3.
            >>=-cases (merge_policies_of_similar_kind k own) h3 (λ lower hl h4.
              >>=-cases (merge_policies_of_similar_kind k ns) h4 (λ middle hm h5.
                >>=-cases (merge_routes k rm node.http_routes []) h5 (λ inherited hi h6.
                  >>=-cases (merge_backend k middle lower inherited inherited) h6
                    (λ result hr h7. (result, cc))))))))
