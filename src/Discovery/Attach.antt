-- ===== src/Discovery/Attach.antt =====
-- `addPolicyIfTargetExists` of gwctl/pkg/resourcediscovery/resourcemodel.go: the policy joins the
-- model, and the policies of its target, only where the target is a node of the model.
pub mod Targets
use gateway_api.Prelude.{
  String, Option, none, some, List, [], ◌∷◌, ◌≐◌, ◌&&◌, string_key, if◌then◌else◌,
}
use gateway_api.Prelude.Dict.{get, set}
use gateway_api.Policy.Machinery.{Machinery}
use gateway_api.Policy.Object.{Policy}
use gateway_api.Discovery.Id.{
  GatewayClassId, NamespaceId, GatewayId, HttpRouteId, BackendId, resource_id_key, gateway_class_id,
  namespace_id, gateway_id, http_route_id, backend_id,
}
use gateway_api.Discovery.Node.{
  PolicyNode, GatewayClassNode, GatewayNode, HttpRouteNode, BackendNode, NamespaceNode,
  new_policy_node, policy_node_id,
}
use gateway_api.Discovery.Model.{ResourceModel}

-- `GroupName` of apis/v1
abbrev pub group_name : String
group_name = "gateway.networking.k8s.io"

module _ (k : Machinery) where
  -- The cases of the switch, one for each kind of target.
  unfoldable pub attach_to_gateway_class : Policy → GatewayClassId → ResourceModel → ResourceModel
  unfolding policy_node_id
  attach_to_gateway_class policy id rm =
      let node : PolicyNode = record (new_policy_node (some policy)) { gateway_class = some id } in
      let key = policy_node_id k (new_policy_node (some policy)) in
      elim (get id rm.gateway_classes) [
        | none ↦ rm
        | some target ↦ record rm {
          policies = set key node rm.policies;
          gateway_classes =
              set id (record target { policies = set key node target.policies }) rm.gateway_classes;
        }
      ]

  unfoldable pub attach_to_gateway : Policy → GatewayId → ResourceModel → ResourceModel
  unfolding policy_node_id
  attach_to_gateway policy id rm =
      let node : PolicyNode = record (new_policy_node (some policy)) { gateway = some id } in
      let key = policy_node_id k (new_policy_node (some policy)) in
      elim (get id rm.gateways) [
        | none ↦ rm
        | some target ↦ record rm {
          policies = set key node rm.policies;
          gateways = set id (record target { policies = set key node target.policies }) rm.gateways;
        }
      ]

  unfoldable pub attach_to_http_route : Policy → HttpRouteId → ResourceModel → ResourceModel
  unfolding policy_node_id
  attach_to_http_route policy id rm =
      let node : PolicyNode = record (new_policy_node (some policy)) { http_route = some id } in
      let key = policy_node_id k (new_policy_node (some policy)) in
      elim (get id rm.http_routes) [
        | none ↦ rm
        | some target ↦ record rm {
          policies = set key node rm.policies;
          http_routes =
              set id (record target { policies = set key node target.policies }) rm.http_routes;
        }
      ]

  unfoldable pub attach_to_namespace : Policy → NamespaceId → ResourceModel → ResourceModel
  unfolding policy_node_id
  attach_to_namespace policy id rm =
      let node : PolicyNode = record (new_policy_node (some policy)) { namespace = some id } in
      let key = policy_node_id k (new_policy_node (some policy)) in
      elim (get id rm.namespaces) [
        | none ↦ rm
        | some target ↦ record rm {
          policies = set key node rm.policies;
          namespaces =
              set id (record target { policies = set key node target.policies }) rm.namespaces;
        }
      ]

  unfoldable pub attach_to_backend : Policy → BackendId → ResourceModel → ResourceModel
  unfolding policy_node_id
  attach_to_backend policy id rm =
      let node : PolicyNode = record (new_policy_node (some policy)) { backend = some id } in
      let key = policy_node_id k (new_policy_node (some policy)) in
      elim (get id rm.backends) [
        | none ↦ rm
        | some target ↦ record rm {
          policies = set key node rm.policies;
          backends = set id (record target { policies = set key node target.policies }) rm.backends;
        }
      ]

  -- What is done for one policy.
  unfoldable pub attach_policy : Policy → ResourceModel → ResourceModel
  unfolding attach_to_gateway_class attach_to_gateway attach_to_http_route attach_to_namespace
      attach_to_backend gateway_class_id gateway_id http_route_id namespace_id backend_id
  attach_policy policy rm =
      let ref = policy.target_ref in
      if ref.group ≐ group_name
      then (if ref.kind ≐ "GatewayClass"
          then attach_to_gateway_class policy (gateway_class_id ref.name) rm
          else if ref.kind ≐ "Gateway"
          then attach_to_gateway policy (gateway_id ref.namespace ref.name) rm
          else if ref.kind ≐ "HTTPRoute"
          then attach_to_http_route policy (http_route_id ref.namespace ref.name) rm
          else rm)
      else if ref.group ≐ "" && ref.kind ≐ "Namespace"
      then attach_to_namespace policy (namespace_id ref.name) rm
      else attach_to_backend policy (backend_id ref.group ref.kind ref.namespace ref.name) rm

  unfoldable pub add_policy_if_target_exists : List Policy → ResourceModel → ResourceModel
  unfolding attach_policy
  add_policy_if_target_exists [] rm = rm
  add_policy_if_target_exists (policy ∷ rest) rm =
      add_policy_if_target_exists rest (attach_policy policy rm)
