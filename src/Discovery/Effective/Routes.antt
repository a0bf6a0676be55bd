-- ===== src/Discovery/Effective/Routes.antt =====
-- The effective policies of the HTTPRoutes, Gateway by Gateway and kind by kind.
use gateway_api.Prelude.{Option, none, some, List, [], ◌∷◌, ◌≡◌, ◌∙◌, arith, string_key}
use gateway_api.Prelude.Dict.{
  get-cons_self, get-cons_ne, Dict, get, set, get-set, get-set_ne, Distinct,
}
use gateway_api.Prelude.Outcome.{Outcome, ok, ◌>>=◌, >>=-cases}
use gateway_api.Policy.Machinery.{Machinery}
use gateway_api.Policy.Object.{Policy}
use gateway_api.Policy.Crd.{PolicyCrdId}
use gateway_api.Policy.Merge.{
  Policies, merge_policies_of_similar_kind, merge_policies_of_different_hierarchy,
}
use gateway_api.Policy.Merge.Union.{merge_policies-at, merge_policies-Distinct}
use gateway_api.Policy.Merge.Kinds.{
  fold_kind, merge_policies_of_similar_kind-at, merge_policies_of_similar_kind-Distinct,
}
use gateway_api.Discovery.Id.{GatewayId, HttpRouteId, NamespaceId, resource_id_key}
use gateway_api.Discovery.Node.{GatewayNode, HttpRouteNode, NamespaceNode}
use gateway_api.Discovery.Model.{ResourceModel}
use gateway_api.Discovery.Effective.{
  followed, node_at, convert_policies_map_to_slice, effective_policies_for_http_route,
  merge_for_gateways, calculate_effective_policies_for_http_routes,
}
use gateway_api.Discovery.Effective.Loops.{for_each-IsStepped}
use gateway_api.Discovery.Effective.Gateways.{followed-eq-ok, node_at-eq-ok, below}

-- The effective policies of each Gateway have each kind once.
abbrev pub AreDistinct : ResourceModel → Type 0
AreDistinct rm =
    (id : GatewayId) (gateway : GatewayNode)
    → get id rm.gateways ≡ some gateway
    → Distinct gateway.effective_policies

module _ (k : Machinery) where
  -- What a kind comes to below its effective policy for the Gateway: first the policies of the
  -- route's Namespace, then the route's own.
  abbrev pub of_kind_below :
      PolicyCrdId → Policies → (middle lower : List Policy) → Outcome (Option Policy)
  of_kind_below id upper middle lower = do
    b ← fold_kind k id middle none
    c ← fold_kind k id lower none
    d ← below k (get id upper) b
    below k d c

  -- The entry of one Gateway: its node exists, and the merges below it succeed.
  abbrev pub IsMerged : ResourceModel → Policies → Policies → GatewayId → Option Policies → Type 0
  IsMerged rm middle lower pointer entry =
      (gateway : GatewayNode) × (inherited : Policies) × (merged : Policies) × (get pointer
          rm.gateways
        ≡ some gateway)
      × (merge_policies_of_different_hierarchy k gateway.effective_policies middle ≡ ok inherited)
      × (merge_policies_of_different_hierarchy k inherited lower ≡ ok merged)
      × (entry ≡ some merged)

  abbrev IsEntry :
      ResourceModel → Policies → Policies → Option GatewayId → (old new : Option Policies) → Type 0
  IsEntry rm middle lower none old new = new ≡ old
  IsEntry rm middle lower (some pointer) old new = IsMerged rm middle lower pointer new

  merge_for_gateways-IsEntry :
      (rm : ResourceModel) (middle lower : Policies) (gateways : List (GatewayId × GatewayId))
      (result : Dict GatewayId Policies) {r : Dict GatewayId Policies}
      → Distinct gateways
      → merge_for_gateways k rm middle lower gateways result ≡ ok r
      → (id : GatewayId) → IsEntry rm middle lower (get id gateways) (get id result) (get id r)
  unfolding merge_for_gateways get
  merge_for_gateways-IsEntry rm middle lower [] result distinct h id = cc
  merge_for_gateways-IsEntry rm middle lower ((j, pointer) ∷ rest) result {r} distinct h id =
      >>=-cases (followed (get pointer rm.gateways)) h (λ gateway hg h1.
        >>=-cases (merge_policies_of_different_hierarchy k gateway.effective_policies middle) h1
          (λ inherited hi h2.
            >>=-cases (merge_policies_of_different_hierarchy k inherited lower) h2 (λ merged hm h3.
              let next =
                merge_for_gateways-IsEntry rm middle lower rest (set j merged result) distinct.1 h3
                  id in
              elim (resource_id_key.dec j id) [
                | yes e ↦
                    let missed : get id rest ≡ none = rw e at distinct.0 in
                    let there : get id (set j merged result) ≡ some merged =
                      ground (arith, get-set j id merged result) in
                    rw (get-cons_self j id pointer rest e) (
                      gateway,
                      inherited,
                      merged,
                      followed-eq-ok (get pointer rm.gateways) hg,
                      hi,
                      hm,
                      (rw missed at next) ∙ there,
                    )
                | no n ↦
                    rw (get-cons_ne j id pointer rest n)
                      (rw (get-set_ne j id merged result n) at next)
              ])))

  -- The policies of the route for one of its Gateways, kind by kind.
  abbrev pub IsEffectiveFor :
      ResourceModel → (middle lower : List Policy) → GatewayId → Option Policies → Type 0
  IsEffectiveFor rm middle lower pointer entry =
      (gateway : GatewayNode) × (merged : Policies) × (get pointer rm.gateways ≡ some gateway)
      × (entry ≡ some merged)
      × ((id : PolicyCrdId)
          → of_kind_below id gateway.effective_policies middle lower ≡ ok (get id merged))

  IsMerged-IsEffectiveFor :
      (rm : ResourceModel) (ms ls : List Policy) (middle lower : Policies) (pointer : GatewayId)
      (entry : Option Policies)
      → AreDistinct rm
      → merge_policies_of_similar_kind k ms ≡ ok middle
      → merge_policies_of_similar_kind k ls ≡ ok lower
      → IsMerged rm middle lower pointer entry
      → IsEffectiveFor rm ms ls pointer entry
  unfolding merge_policies_of_different_hierarchy
  IsMerged-IsEffectiveFor rm ms ls middle lower pointer entry each hm hl
        (gateway, inherited, merged, found, h1, h2, e) =
      let dm = merge_policies_of_similar_kind-Distinct k ms hm in
      let dl = merge_policies_of_similar_kind-Distinct k ls hl in
      let di = merge_policies-Distinct k (λ a b. (a, b)) gateway.effective_policies middle h1 in
      (
        gateway,
        merged,
        found,
        e,
        λ id.
            rw
              (
                merge_policies_of_similar_kind-at k id ms hm,
                merge_policies_of_similar_kind-at k id ls hl,
                merge_policies-at k (λ a b. (a, b)) id gateway.effective_policies middle
                    (each pointer gateway found) dm h1,
              )
              (merge_policies-at k (λ a b. (a, b)) id inherited lower di dl h2),
      )

  -- The entry of a Gateway in the route's effective policies: none for a Gateway that the route is
  -- not connected with.
  abbrev pub IsRouteEntry :
      ResourceModel → (middle lower : List Policy) → Option GatewayId → Option Policies → Type 0
  IsRouteEntry rm middle lower none entry = entry ≡ none
  IsRouteEntry rm middle lower (some pointer) entry = IsEffectiveFor rm middle lower pointer entry

  IsEntry-IsRouteEntry :
      (rm : ResourceModel) (ms ls : List Policy) (middle lower : Policies)
      (pointer : Option GatewayId) (entry : Option Policies)
      → AreDistinct rm
      → merge_policies_of_similar_kind k ms ≡ ok middle
      → merge_policies_of_similar_kind k ls ≡ ok lower
      → IsEntry rm middle lower pointer none entry
      → IsRouteEntry rm ms ls pointer entry
  IsEntry-IsRouteEntry rm ms ls middle lower none entry each hm hl h = h
  IsEntry-IsRouteEntry rm ms ls middle lower (some pointer) entry each hm hl h =
      IsMerged-IsEffectiveFor rm ms ls middle lower pointer entry each hm hl h

  abbrev pub IsRouteEffective : ResourceModel → HttpRouteNode → Dict GatewayId Policies → Type 0
  IsRouteEffective rm node result =
      (namespace_id : NamespaceId) × (namespace : NamespaceNode) × (namespace_policies : List
        Policy)
      × (own : List Policy) × (node.namespace ≡ some namespace_id)
      × (get namespace_id rm.namespaces ≡ some namespace)
      × (convert_policies_map_to_slice k namespace.policies ≡ ok namespace_policies)
      × (convert_policies_map_to_slice k node.policies ≡ ok own)
      × ((id : GatewayId)
          → IsRouteEntry rm namespace_policies own (get id node.gateways) (get id result))

  effective_policies_for_http_route-IsRouteEffective :
      (rm : ResourceModel) (node : HttpRouteNode) {o : Option HttpRouteNode}
      → AreDistinct rm
      → Distinct node.gateways
      → effective_policies_for_http_route k rm node ≡ ok o
      → (result : Dict GatewayId Policies) × (o
          ≡ some (record node { effective_policies = result }))
        × IsRouteEffective rm node result
  unfolding effective_policies_for_http_route get
  effective_policies_for_http_route-IsRouteEffective rm node {o} each distinct h =
      >>=-cases (convert_policies_map_to_slice k node.policies) h (λ own hown h1.
        >>=-cases (node_at node.namespace rm.namespaces) h1 (λ namespace hn h2.
          >>=-cases (convert_policies_map_to_slice k namespace.policies) h2 (λ ns hns h3.
            >>=-cases (merge_policies_of_similar_kind k own) h3 (λ lower hl h4.
              >>=-cases (merge_policies_of_similar_kind k ns) h4 (λ middle hm h5.
                >>=-cases (merge_for_gateways k rm middle lower node.gateways []) h5
                  (λ result hr h6.
                    let (namespace_id, points, there) =
                      node_at-eq-ok node.namespace rm.namespaces hn in
                    (
                      result,
                      cc,
                      (
                        namespace_id,
                        namespace,
                        ns,
                        own,
                        points,
                        there,
                        hns,
                        hown,
                        λ id.
                            IsEntry-IsRouteEntry rm ns own middle lower (get id node.gateways)
                              (get id result) each hm hl
                              (merge_for_gateways-IsEntry rm middle lower node.gateways [] distinct
                                hr id),
                      ),
                    )))))))

  -- Where `calculate_effective_policies_for_http_routes` returns no error and does not panic, and
  -- the maps of HTTPRoutes, of the Gateways of the HTTPRoute and of the effective policies of the
  -- Gateways have each key once: the HTTPRoute has a Namespace node, and its effective policies
  -- have an entry for exactly the Gateways that it is connected with, which is, of every kind, the
  -- Gateway's effective policy patched by what the Namespace and then the HTTPRoute itself give.
  -- Nothing else of the HTTPRoute changes.
  pub calculate_effective_policies_for_http_routes-IsRouteEffective :
      (rm : ResourceModel) (id : HttpRouteId) (node : HttpRouteNode)
      → AreDistinct rm
      → Distinct rm.http_routes
      → Distinct node.gateways
      → get id rm.http_routes ≡ some node
      → (calculate_effective_policies_for_http_routes k rm).1 ≡ ok tt
      → (result : Dict GatewayId Policies) × (get id
            (calculate_effective_policies_for_http_routes k rm).0.http_routes
          ≡ some (record node { effective_policies = result }))
        × IsRouteEffective rm node result
  unfolding calculate_effective_policies_for_http_routes
  calculate_effective_policies_for_http_routes-IsRouteEffective rm id node policies distinct
        gateways found done =
      let each =
        for_each-IsStepped (effective_policies_for_http_route k rm) rm.http_routes distinct done
          id in
      let (o, stepped, now) = rw found at each in
      let (result, same, effective) =
        effective_policies_for_http_route-IsRouteEffective rm node policies gateways stepped in
      (result, rw same at now, effective)
