-- ===== src/Discovery/Effective.antt =====
-- `calculateEffectivePolicies` of gwctl/pkg/resourcediscovery/resourcemodel.go: each node of the
-- model is given the policies of its ancestors and its own, merged. A nil pointer that is followed
-- panics. A loop that stops leaves what it has written.
pub mod Slices
pub mod Loops
pub mod Gateways
pub mod Routes
pub mod Overrides
pub mod Gathered
pub mod Backends
pub mod Bodies
pub mod Before
pub mod Composed
pub mod Linked
use gateway_api.Prelude.{Option, none, some, List, [], ◌∷◌, map}
use gateway_api.Prelude.Dict.{Dict, get, set, values}
use gateway_api.Prelude.Outcome.{Outcome, ok, err, panic, ◌>>=◌}
use gateway_api.Prelude.Sort.{sort_by}
use gateway_api.Prelude.{Key}
use gateway_api.Api.Meta.{ObjRef}
use gateway_api.Policy.Machinery.{Machinery}
use gateway_api.Policy.Object.{Policy, full_name, policy_ref}
use gateway_api.Policy.Merge.{
  Policies, merge_policies_of_similar_kind, merge_policies_of_same_hierarchy,
  merge_policies_of_different_hierarchy,
}
use gateway_api.Discovery.Id.{GatewayId, HttpRouteId, PolicyId, resource_id_key}
use gateway_api.Discovery.Node.{PolicyNode, GatewayNode, HttpRouteNode, BackendNode}
use gateway_api.Discovery.Model.{ResourceModel}

-- A pointer is followed.
abbrev pub followed {ℓ} : {A : Type ℓ} → Option A → Outcome A
followed none = panic
followed (some a) = ok a

-- `namespace.Policies` and the like, by the id that the pointer is.
abbrev pub node_at {ℓ} : {K V : Type ℓ} ⦃key : Key K⦄ → Option K → Dict K V → Outcome V
node_at none nodes = panic
node_at (some id) nodes = followed (get id nodes)

unfoldable pub policies_of : List PolicyNode → Outcome (List Policy)
policies_of [] = ok []
policies_of (node ∷ rest) = do
  policy ← followed node.policy
  policies ← policies_of rest
  ok (policy ∷ policies)

-- A loop that puts a node in place of the node it meets, or goes on without (`continue`).
unfoldable pub for_each {ℓ} :
    {K V : Type ℓ} ⦃key : Key K⦄
    → (V → Outcome (Option V))
    → List (K × V)
    → Dict K V
    → Dict K V × Outcome {0} Unit
for_each step [] nodes = (nodes, ok tt)
for_each step ((id, node) ∷ rest) nodes = elim (step node) [
  | ok none ↦ for_each step rest nodes
  | ok (some changed) ↦ for_each step rest (set id changed nodes)
  | err e ↦ (nodes, err e)
  | panic ↦ (nodes, panic)
]

module _ (k : Machinery) where
  -- `convertPoliciesMapToSlice`
  unfoldable pub convert_policies_map_to_slice : Dict PolicyId PolicyNode → Outcome (List Policy)
  unfolding policies_of sort_by full_name
  convert_policies_map_to_slice policies = do
    result ← policies_of (values policies)
    ok (sort_by (full_name k) result)

  -- `ConvertPoliciesMapToPolicyRefs`
  unfoldable pub convert_policies_map_to_policy_refs :
      Dict PolicyId PolicyNode → Outcome (List ObjRef)
  unfolding policies_of policy_ref
  convert_policies_map_to_policy_refs policies = do
    result ← policies_of (values policies)
    ok (map (policy_ref k) result)

  -- The merges for a Gateway: each hierarchy by kind, then the lower ones into the higher ones.
  unfoldable pub merge_hierarchies : (upper middle lower : List Policy) → Outcome Policies
  unfolding merge_policies_of_similar_kind merge_policies_of_different_hierarchy
  merge_hierarchies gateway_class_policies namespace_policies gateway_policies = do
    gateway_class_by_kind ← merge_policies_of_similar_kind k gateway_class_policies
    namespace_by_kind ← merge_policies_of_similar_kind k namespace_policies
    gateway_by_kind ← merge_policies_of_similar_kind k gateway_policies
    result ← merge_policies_of_different_hierarchy k gateway_class_by_kind namespace_by_kind
    merge_policies_of_different_hierarchy k result gateway_by_kind

  -- The body of the loop over the Gateways.
  unfoldable pub effective_policies_for_gateway :
      ResourceModel → GatewayNode → Outcome (Option GatewayNode)
  unfolding convert_policies_map_to_slice merge_policies_of_similar_kind
      merge_policies_of_different_hierarchy
  effective_policies_for_gateway rm node = elim node.gateway_class [
    | none ↦ ok none
    | some gateway_class_id ↦ do
      gateway_class ← followed (get gateway_class_id rm.gateway_classes)
      gateway_class_policies ← convert_policies_map_to_slice gateway_class.policies
      namespace ← node_at node.namespace rm.namespaces
      namespace_policies ← convert_policies_map_to_slice namespace.policies
      gateway_policies ← convert_policies_map_to_slice node.policies
      result ← merge_hierarchies gateway_class_policies namespace_policies gateway_policies
      ok (some (record node { effective_policies = result }))
  ]

  unfoldable pub calculate_effective_policies_for_gateways :
      ResourceModel → ResourceModel × Outcome {0} Unit
  unfolding effective_policies_for_gateway for_each
  calculate_effective_policies_for_gateways rm =
      let (gateways, outcome) =
        for_each (effective_policies_for_gateway rm) rm.gateways rm.gateways in
      (record rm { gateways = gateways }, outcome)

  -- Step 3 for the routes: the loop over the Gateways of the route.
  unfoldable pub merge_for_gateways :
      ResourceModel
      → (namespace_by_kind route_by_kind : Policies) → List (GatewayId × GatewayId)
      → Dict GatewayId Policies
      → Outcome (Dict GatewayId Policies)
  unfolding merge_policies_of_different_hierarchy
  merge_for_gateways rm namespace_by_kind route_by_kind [] result = ok result
  merge_for_gateways rm namespace_by_kind route_by_kind ((id, pointer) ∷ rest) result = do
    gateway ← followed (get pointer rm.gateways)
    inherited ← merge_policies_of_different_hierarchy k gateway.effective_policies namespace_by_kind
    merged ← merge_policies_of_different_hierarchy k inherited route_by_kind
    merge_for_gateways rm namespace_by_kind route_by_kind rest (set id merged result)

  unfoldable pub effective_policies_for_http_route :
      ResourceModel → HttpRouteNode → Outcome (Option HttpRouteNode)
  unfolding convert_policies_map_to_slice merge_policies_of_similar_kind merge_for_gateways
  effective_policies_for_http_route rm node = do
    route_policies ← convert_policies_map_to_slice node.policies
    namespace ← node_at node.namespace rm.namespaces
    namespace_policies ← convert_policies_map_to_slice namespace.policies
    route_by_kind ← merge_policies_of_similar_kind k route_policies
    namespace_by_kind ← merge_policies_of_similar_kind k namespace_policies
    result ← merge_for_gateways rm namespace_by_kind route_by_kind node.gateways []
    ok (some (record node { effective_policies = result }))

  unfoldable pub calculate_effective_policies_for_http_routes :
      ResourceModel → ResourceModel × Outcome {0} Unit
  unfolding effective_policies_for_http_route for_each
  calculate_effective_policies_for_http_routes rm =
      let (http_routes, outcome) =
        for_each (effective_policies_for_http_route rm) rm.http_routes rm.http_routes in
      (record rm { http_routes = http_routes }, outcome)

  -- `result[gatewayID]`: a missing key reads as the nil map.
  abbrev pub policies_for : GatewayId → Dict GatewayId Policies → Policies
  policies_for id result = elim (get id result) [ none ↦ [] | some policies ↦ policies ]

  -- Step 3 for the backends: the loop over the effective policies of one route.
  unfoldable pub merge_route :
      List (GatewayId × Policies) → Dict GatewayId Policies → Outcome (Dict GatewayId Policies)
  unfolding merge_policies_of_same_hierarchy
  merge_route [] result = ok result
  merge_route ((id, policies) ∷ rest) result = do
    merged ← merge_policies_of_same_hierarchy k (policies_for id result) policies
    merge_route rest (set id merged result)

  -- The loop over the routes of the backend.
  unfoldable pub merge_routes :
      ResourceModel
      → List (HttpRouteId × HttpRouteId)
      → Dict GatewayId Policies
      → Outcome (Dict GatewayId Policies)
  unfolding merge_route
  merge_routes rm [] result = ok result
  merge_routes rm ((_, pointer) ∷ rest) result = do
    http_route ← followed (get pointer rm.http_routes)
    merged ← merge_route http_route.effective_policies result
    merge_routes rm rest merged

  -- Step 4: the loop over the Gateways of the result.
  unfoldable pub merge_backend :
      (namespace_by_kind backend_by_kind : Policies)
      → List (GatewayId × Policies)
      → Dict GatewayId Policies
      → Outcome (Dict GatewayId Policies)
  unfolding merge_policies_of_different_hierarchy
  merge_backend namespace_by_kind backend_by_kind [] result = ok result
  merge_backend namespace_by_kind backend_by_kind ((id, _) ∷ rest) result = do
    inherited ← merge_policies_of_different_hierarchy k (policies_for id result) namespace_by_kind
    merged ← merge_policies_of_different_hierarchy k inherited backend_by_kind
    merge_backend namespace_by_kind backend_by_kind rest (set id merged result)

  unfoldable pub effective_policies_for_backend :
      ResourceModel → BackendNode → Outcome (Option BackendNode)
  unfolding convert_policies_map_to_slice merge_policies_of_similar_kind merge_routes merge_backend
  effective_policies_for_backend rm node = do
    backend_policies ← convert_policies_map_to_slice node.policies
    namespace ← node_at node.namespace rm.namespaces
    namespace_policies ← convert_policies_map_to_slice namespace.policies
    backend_by_kind ← merge_policies_of_similar_kind k backend_policies
    namespace_by_kind ← merge_policies_of_similar_kind k namespace_policies
    inherited ← merge_routes rm node.http_routes []
    result ← merge_backend namespace_by_kind backend_by_kind inherited inherited
    ok (some (record node { effective_policies = result }))

  unfoldable pub calculate_effective_policies_for_backends :
      ResourceModel → ResourceModel × Outcome {0} Unit
  unfolding effective_policies_for_backend for_each
  calculate_effective_policies_for_backends rm =
      let (backends, outcome) =
        for_each (effective_policies_for_backend rm) rm.backends rm.backends in
      (record rm { backends = backends }, outcome)

  -- `if err := …; err != nil { return err }`
  abbrev and_then :
      ResourceModel × Outcome {0} Unit
      → (ResourceModel → ResourceModel × Outcome {0} Unit)
      → ResourceModel × Outcome {0} Unit
  and_then (rm, ok _) next = next rm
  and_then (rm, err e) next = (rm, err e)
  and_then (rm, panic) next = (rm, panic)

  unfoldable pub calculate_effective_policies : ResourceModel → ResourceModel × Outcome {0} Unit
  unfolding calculate_effective_policies_for_gateways calculate_effective_policies_for_http_routes
      calculate_effective_policies_for_backends
  calculate_effective_policies rm =
      and_then
        (and_then (calculate_effective_policies_for_gateways rm)
          calculate_effective_policies_for_http_routes)
        calculate_effective_policies_for_backends
