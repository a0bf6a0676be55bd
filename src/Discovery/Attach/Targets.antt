-- ===== src/Discovery/Attach/Targets.antt =====
-- What `addPolicyIfTargetExists` does to the Gateways.
use text.Mathlib.TextEquality.{eq_iff}
use gateway_api.Prelude.{
  Bool, true, false, List, [], ◌∷◌, some, ◌≡◌, refl, ◌∙◌, ap, String, arith, Option-cases, inl, inr,
  if◌then◌else◌, ◌≐◌, ◌&&◌, string_key,
}
use gateway_api.Prelude.Dict.{Dict, get, set, get-set}
use gateway_api.Policy.Object.{Policy}
use gateway_api.Policy.Machinery.{Machinery}
use gateway_api.Discovery.Id.{
  GatewayClassId, NamespaceId, GatewayId, HttpRouteId, BackendId, PolicyId, resource_id_key,
  gateway_class_id, namespace_id, gateway_id, http_route_id, backend_id,
}
use gateway_api.Discovery.Node.{GatewayNode, PolicyNode, new_policy_node, policy_node_id}
use gateway_api.Discovery.Model.{ResourceModel}
use gateway_api.Discovery.Attach.{
  group_name, attach_to_gateway_class, attach_to_gateway, attach_to_http_route, attach_to_namespace,
  attach_to_backend, attach_policy, add_policy_if_target_exists,
}

-- The policy's target is the Gateway with the id.
abbrev pub targets_gateway : Policy → GatewayId → Bool
targets_gateway p id =
    p.target_ref.group ≐ group_name
    && p.target_ref.kind ≐ "Gateway"
    && gateway_id p.target_ref.namespace p.target_ref.name ≐ id

two_kinds : (kind : String) → kind ≐ "GatewayClass" ≡ true → kind ≐ "Gateway" ≡ false
two_kinds kind h = ground (arith, eq_iff "GatewayClass" "Gateway")

-- The switch, with a case that may change the Gateway's policies and others that leave it.
through_switch :
    (id : GatewayId) (node : GatewayNode) (added : Dict PolicyId PolicyNode)
    (b1 b2 b3 b4 b5 hit : Bool) (x1 x2 x3 x4 x5 x6 : ResourceModel)
    → (b2 ≡ true → b3 ≡ false)
    → get id x1.gateways ≡ some node
    → get id x2.gateways ≡ some (record node { policies = if hit then added else node.policies })
    → get id x3.gateways ≡ some node
    → get id x4.gateways ≡ some node
    → get id x5.gateways ≡ some node
    → get id x6.gateways ≡ some node
    → get id
        (if b1
          then (if b2 then x1 else if b3 then x2 else if b4 then x3 else x4)
          else if b5
          then x5
          else x6).gateways
      ≡ some (record node { policies = if b1 && b3 && hit then added else node.policies })
through_switch id node added false b2 b3 b4 true hit x1 x2 x3 x4 x5 x6 ne h1 h2 h3 h4 h5 h6 = h5
through_switch id node added false b2 b3 b4 false hit x1 x2 x3 x4 x5 x6 ne h1 h2 h3 h4 h5 h6 = h6
through_switch id node added true true b3 b4 b5 hit x1 x2 x3 x4 x5 x6 ne h1 h2 h3 h4 h5 h6 =
    let off = ne refl in rw off h1
through_switch id node added true false true b4 b5 hit x1 x2 x3 x4 x5 x6 ne h1 h2 h3 h4 h5 h6 = h2
through_switch id node added true false false true b5 hit x1 x2 x3 x4 x5 x6 ne h1 h2 h3 h4 h5 h6 =
    h3
through_switch id node added true false false false b5 hit x1 x2 x3 x4 x5 x6 ne h1 h2 h3 h4 h5 h6 =
    h4

module _ (k : Machinery) where
  -- The policies of the Gateway after those that target it have been added, in their order.
  abbrev pub with_targeting :
      GatewayId → List Policy → Dict PolicyId PolicyNode → Dict PolicyId PolicyNode
  with_targeting id [] policies = policies
  with_targeting id (p ∷ rest) policies =
      let node = new_policy_node (some p) in
      with_targeting id rest (
        if targets_gateway p id
        then set (policy_node_id k node) (record node { gateway = some id }) policies
        else policies)

  gateways-attach_to_gateway_class :
      (p : Policy) (id : GatewayClassId) (rm : ResourceModel)
      → (attach_to_gateway_class k p id rm).gateways ≡ rm.gateways
  unfolding attach_to_gateway_class
  gateways-attach_to_gateway_class p id rm = ground arith

  gateways-attach_to_http_route :
      (p : Policy) (id : HttpRouteId) (rm : ResourceModel)
      → (attach_to_http_route k p id rm).gateways ≡ rm.gateways
  unfolding attach_to_http_route
  gateways-attach_to_http_route p id rm = ground arith

  gateways-attach_to_namespace :
      (p : Policy) (id : NamespaceId) (rm : ResourceModel)
      → (attach_to_namespace k p id rm).gateways ≡ rm.gateways
  unfolding attach_to_namespace
  gateways-attach_to_namespace p id rm = ground arith

  gateways-attach_to_backend :
      (p : Policy) (id : BackendId) (rm : ResourceModel)
      → (attach_to_backend k p id rm).gateways ≡ rm.gateways
  unfolding attach_to_backend
  gateways-attach_to_backend p id rm = ground arith

  get-attach_to_gateway :
      (p : Policy) (a id : GatewayId) (rm : ResourceModel) (node : GatewayNode)
      → get id rm.gateways ≡ some node
      → get id (attach_to_gateway k p a rm).gateways
        ≡ some (record node {
          policies =
              if a ≐ id
              then set
                  (policy_node_id k (new_policy_node (some p)))
                  (record (new_policy_node (some p)) { gateway = some id })
                  node.policies
              else node.policies;
        })
  unfolding attach_to_gateway
  get-attach_to_gateway p a id rm node e = elim (Option-cases (get a rm.gateways)) [
    | inl missing ↦ elim (resource_id_key.dec a id) [
      | yes same ↦ absurd (cc (rw same at missing, e))
      | no n ↦ ground arith
    ]
    | inr (target, f) ↦ elim (resource_id_key.dec a id) [
      | yes same ↦ ground (
        arith,
        get-set a id
            (record target {
              policies =
                  set (policy_node_id k (new_policy_node (some p)))
                    (record (new_policy_node (some p)) { gateway = some a }) target.policies;
            })
            rm.gateways,
      )
      | no n ↦ ground (
        arith,
        get-set a id
            (record target {
              policies =
                  set (policy_node_id k (new_policy_node (some p)))
                    (record (new_policy_node (some p)) { gateway = some a }) target.policies;
            })
            rm.gateways,
      )
    ]
  ]

  -- The policies of the Gateway after one policy.
  abbrev one : Policy → GatewayId → Dict PolicyId PolicyNode → Dict PolicyId PolicyNode
  one p id policies =
      let node = new_policy_node (some p) in
      if targets_gateway p id
      then set (policy_node_id k node) (record node { gateway = some id }) policies
      else policies

  get-attach_policy :
      (p : Policy) (id : GatewayId) (rm : ResourceModel) (node : GatewayNode)
      → get id rm.gateways ≡ some node
      → get id (attach_policy k p rm).gateways
        ≡ some (record node { policies = one p id node.policies })
  unfolding attach_policy
  get-attach_policy p id rm node e =
      let ref = p.target_ref in
      let a = gateway_id ref.namespace ref.name in
      let added =
        set (policy_node_id k (new_policy_node (some p)))
          (record (new_policy_node (some p)) { gateway = some id }) node.policies in
      through_switch id node added (ref.group ≐ group_name) (ref.kind ≐ "GatewayClass")
        (ref.kind ≐ "Gateway") (ref.kind ≐ "HTTPRoute") (ref.group ≐ "" && ref.kind ≐ "Namespace")
        (a ≐ id) _ _ _ _ _ _ (two_kinds ref.kind)
        (ap (get id) (gateways-attach_to_gateway_class p (gateway_class_id ref.name) rm) ∙ e)
        (get-attach_to_gateway p a id rm node e)
        (ap (get id) (gateways-attach_to_http_route p (http_route_id ref.namespace ref.name) rm)
          ∙ e)
        e (ap (get id) (gateways-attach_to_namespace p (namespace_id ref.name) rm) ∙ e)
        (ap (get id)
            (gateways-attach_to_backend p (backend_id ref.group ref.kind ref.namespace ref.name) rm)
          ∙ e)

  -- For a Gateway of the model, `add_policy_if_target_exists` adds to its policies exactly those
  -- that target it, in their order and under their own ids, and changes nothing else of the
  -- Gateway.
  pub add_policy_if_target_exists-get :
      (policies : List Policy) (id : GatewayId) (rm : ResourceModel) (node : GatewayNode)
      → get id rm.gateways ≡ some node
      → get id (add_policy_if_target_exists k policies rm).gateways
        ≡ some (record node { policies = with_targeting id policies node.policies })
  unfolding add_policy_if_target_exists
  add_policy_if_target_exists-get [] id rm node e = e
  add_policy_if_target_exists-get (p ∷ rest) id rm node e =
      add_policy_if_target_exists-get rest id (attach_policy k p rm) _
        (get-attach_policy p id rm node e)
