-- ===== src/Discovery/Effective/Gateways.antt =====
-- The effective policies of the Gateways, kind by kind.
use gateway_api.Prelude.{Option, none, some, List, ◌≡◌, refl, string_key, Key}
use gateway_api.Prelude.Dict.{Dict, get, Distinct}
use gateway_api.Prelude.Outcome.{Outcome, ok, ◌>>=◌, >>=-cases}
use gateway_api.Policy.Machinery.{Machinery}
use gateway_api.Policy.Object.{Policy}
use gateway_api.Policy.Crd.{PolicyCrdId}
use gateway_api.Policy.Merge.{
  Policies, merge_policies_of_similar_kind, merge_policies_of_different_hierarchy,
}
use gateway_api.Policy.Merge.Union.{combine, merge_policies-at, merge_policies-Distinct}
use gateway_api.Policy.Merge.Kinds.{
  fold_kind, merge_policies_of_similar_kind-at, merge_policies_of_similar_kind-Distinct,
}
use gateway_api.Discovery.Id.{GatewayId, GatewayClassId, NamespaceId, resource_id_key}
use gateway_api.Discovery.Node.{GatewayNode, GatewayClassNode, NamespaceNode}
use gateway_api.Discovery.Model.{ResourceModel}
use gateway_api.Discovery.Effective.{
  merge_hierarchies, followed, node_at, convert_policies_map_to_slice,
  effective_policies_for_gateway, calculate_effective_policies_for_gateways,
}
use gateway_api.Discovery.Effective.Loops.{for_each-IsStepped}

pub followed-eq-ok : {A : Type 0} (o : Option A) {a : A} → followed o ≡ ok a → o ≡ some a
followed-eq-ok none h = cc
followed-eq-ok (some b) h = cc

pub node_at-eq-ok :
    {K V : Type 0} ⦃key : Key K⦄ (pointer : Option K) (nodes : Dict K V) {v : V}
    → node_at pointer nodes ≡ ok v
    → (id : K) × (pointer ≡ some id) × (get id nodes ≡ some v)
node_at-eq-ok none nodes h = cc
node_at-eq-ok (some id) nodes h = (id, refl, followed-eq-ok (get id nodes) h)

module _ (k : Machinery) where
  -- The policies of a hierarchy patch those of the one above.
  abbrev pub below : Option Policy → Option Policy → Outcome (Option Policy)
  below = combine k (λ a b. (a, b))

  -- What three hierarchies give for one kind: each merges its own policies by precedence, and the
  -- lower ones patch the higher ones.
  abbrev pub of_kind : PolicyCrdId → (upper middle lower : List Policy) → Outcome (Option Policy)
  of_kind id upper middle lower = do
    a ← fold_kind k id upper none
    b ← fold_kind k id middle none
    c ← fold_kind k id lower none
    d ← below a b
    below d c

  merged-at :
      (upper middle lower : List Policy) (u m l um r : Policies)
      → merge_policies_of_similar_kind k upper ≡ ok u
      → merge_policies_of_similar_kind k middle ≡ ok m
      → merge_policies_of_similar_kind k lower ≡ ok l
      → merge_policies_of_different_hierarchy k u m ≡ ok um
      → merge_policies_of_different_hierarchy k um l ≡ ok r
      → (id : PolicyCrdId) → of_kind id upper middle lower ≡ ok (get id r)
  unfolding merge_policies_of_different_hierarchy
  merged-at upper middle lower u m l um r hu hm hl h1 h2 id =
      let du = merge_policies_of_similar_kind-Distinct k upper hu in
      let dm = merge_policies_of_similar_kind-Distinct k middle hm in
      let dl = merge_policies_of_similar_kind-Distinct k lower hl in
      let dum = merge_policies-Distinct k (λ a b. (a, b)) u m h1 in
      rw
        (
          merge_policies_of_similar_kind-at k id upper hu,
          merge_policies_of_similar_kind-at k id middle hm,
          merge_policies_of_similar_kind-at k id lower hl,
          merge_policies-at k (λ a b. (a, b)) id u m du dm h1,
        )
        (merge_policies-at k (λ a b. (a, b)) id um l dum dl h2)

  -- The merges for a Gateway, kind by kind.
  pub merge_hierarchies-at :
      (upper middle lower : List Policy) {r : Policies}
      → merge_hierarchies k upper middle lower ≡ ok r
      → (id : PolicyCrdId) → of_kind id upper middle lower ≡ ok (get id r)
  unfolding merge_hierarchies
  merge_hierarchies-at upper middle lower {r} h id =
      >>=-cases (merge_policies_of_similar_kind k upper) h (λ u hu h1.
        >>=-cases (merge_policies_of_similar_kind k middle) h1 (λ m hm h2.
          >>=-cases (merge_policies_of_similar_kind k lower) h2 (λ l hl h3.
            >>=-cases (merge_policies_of_different_hierarchy k u m) h3
              (λ um hum h4. merged-at upper middle lower u m l um r hu hm hl hum h4 id))))

  -- The effective policies of the Gateway: of every kind, what its GatewayClass, its Namespace and
  -- itself give, all of which exist.
  abbrev pub IsEffective : ResourceModel → GatewayNode → GatewayClassId → Policies → Type 0
  IsEffective rm node class_id result =
      (class : GatewayClassNode) × (namespace_id : NamespaceId) × (namespace : NamespaceNode)
      × (class_policies : List Policy) × (namespace_policies : List Policy) × (own : List Policy)
      × (get class_id rm.gateway_classes ≡ some class)
      × (node.namespace ≡ some namespace_id)
      × (get namespace_id rm.namespaces ≡ some namespace)
      × (convert_policies_map_to_slice k class.policies ≡ ok class_policies)
      × (convert_policies_map_to_slice k namespace.policies ≡ ok namespace_policies)
      × (convert_policies_map_to_slice k node.policies ≡ ok own)
      × ((id : PolicyCrdId) → of_kind id class_policies namespace_policies own ≡ ok (get id result))

  pub effective_policies_for_gateway-IsEffective :
      (rm : ResourceModel) (node : GatewayNode) (class_id : GatewayClassId) {o : Option GatewayNode}
      → node.gateway_class ≡ some class_id
      → effective_policies_for_gateway k rm node ≡ ok o
      → (result : Policies) × (o ≡ some (record node { effective_policies = result }))
        × IsEffective rm node class_id result
  unfolding effective_policies_for_gateway
  effective_policies_for_gateway-IsEffective rm node class_id {o} has_class h =
      >>=-cases (followed (get class_id rm.gateway_classes))
        (rw (has_class, effective_policies_for_gateway) at h)
        (λ class hc h1. >>=-cases (convert_policies_map_to_slice k class.policies) h1 (λ cs hcs h2.
          >>=-cases (node_at node.namespace rm.namespaces) h2 (λ namespace hn h3.
            >>=-cases (convert_policies_map_to_slice k namespace.policies) h3 (λ ns hns h4.
              >>=-cases (convert_policies_map_to_slice k node.policies) h4 (λ own hown h5.
                >>=-cases (merge_hierarchies k cs ns own) h5 (λ result hr h6.
                  let (namespace_id, points, there) =
                    node_at-eq-ok node.namespace rm.namespaces hn in
                  (
                    result,
                    cc,
                    (
                      class,
                      namespace_id,
                      namespace,
                      cs,
                      ns,
                      own,
                      followed-eq-ok (get class_id rm.gateway_classes) hc,
                      points,
                      there,
                      hcs,
                      hns,
                      hown,
                      merge_hierarchies-at cs ns own hr,
                    ),
                  )))))))

  -- Where `calculate_effective_policies_for_gateways` returns no error and does not panic, and the
  -- map of Gateways has each key once: a Gateway with a GatewayClass has a Namespace node, and of
  -- every kind its effective policies are what its GatewayClass, its Namespace and itself give.
  -- Each of the three merges its own policies of the kind by precedence, and the lower ones patch
  -- the higher ones. Nothing else of the Gateway changes.
  pub calculate_effective_policies_for_gateways-IsEffective :
      (rm : ResourceModel) (id : GatewayId) (node : GatewayNode) (class_id : GatewayClassId)
      → Distinct rm.gateways
      → get id rm.gateways ≡ some node
      → node.gateway_class ≡ some class_id
      → (calculate_effective_policies_for_gateways k rm).1 ≡ ok tt
      → (result : Policies) × (get id (calculate_effective_policies_for_gateways k rm).0.gateways
          ≡ some (record node { effective_policies = result }))
        × IsEffective rm node class_id result
  unfolding calculate_effective_policies_for_gateways
  calculate_effective_policies_for_gateways-IsEffective rm id node class_id distinct found has_class
        done =
      let each =
        for_each-IsStepped (effective_policies_for_gateway k rm) rm.gateways distinct done id in
      let (o, stepped, now) = rw found at each in
      let (result, same, effective) =
        effective_policies_for_gateway-IsEffective rm node class_id has_class stepped in
      (result, rw same at now, effective)
