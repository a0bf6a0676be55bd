-- ===== src/Discovery/Connect/Links/Attached.antt =====
-- Attaching policies leaves the connections alone.
use gateway_api.Prelude.{
  List, [], ◌∷◌, some, ◌≡◌, refl, ◌∙◌, Option-cases, inl, inr, Bool, true, false, if◌then◌else◌,
  ◌≐◌, ◌&&◌, string_key,
}
use gateway_api.Prelude.Dict.{get}
use gateway_api.Policy.Object.{Policy}
use gateway_api.Policy.Machinery.{Machinery}
use gateway_api.Discovery.Id.{
  GatewayClassId, NamespaceId, GatewayId, HttpRouteId, BackendId, resource_id_key, gateway_class_id,
  namespace_id, gateway_id, http_route_id, backend_id,
}
use gateway_api.Discovery.Node.{
  GatewayClassNode, NamespaceNode, GatewayNode, HttpRouteNode, BackendNode,
}
use gateway_api.Discovery.Model.{ResourceModel}
use gateway_api.Discovery.Attach.{
  group_name, attach_to_gateway_class, attach_to_gateway, attach_to_http_route, attach_to_namespace,
  attach_to_backend, attach_policy, add_policy_if_target_exists,
}
use gateway_api.Discovery.Connect.Links.Views.{
  route_gateways, gateway_routes, route_backends, backend_routes, grant_backends, backend_grants,
  AreSame, lists-set_same,
}

AreSame-if :
    (b : Bool) {rm x y : ResourceModel}
    → AreSame rm x
    → AreSame rm y
    → AreSame rm (if b then x else y)
AreSame-if true h g = h
AreSame-if false h g = g

module _ (k : Machinery) where
  attach_to_gateway_class-AreSame :
      (p : Policy) (id : GatewayClassId) (rm : ResourceModel)
      → AreSame rm (attach_to_gateway_class k p id rm)
  unfolding attach_to_gateway_class
  attach_to_gateway_class-AreSame p id rm = elim (Option-cases (get id rm.gateway_classes)) [
    | inl e ↦ rw (e, attach_to_gateway_class) (λ v i j. refl)
    | inr (target, e) ↦ at_target target e
  ]
    where
      at_target :
          (target : GatewayClassNode)
          → get id rm.gateway_classes ≡ some target
          → AreSame rm (attach_to_gateway_class k p id rm)
      at_target target e route_gateways i j = rw (e, attach_to_gateway_class) (refl)
      at_target target e gateway_routes i j = rw (e, attach_to_gateway_class) (refl)
      at_target target e route_backends i j = rw (e, attach_to_gateway_class) (refl)
      at_target target e backend_routes i j = rw (e, attach_to_gateway_class) (refl)
      at_target target e grant_backends i j = rw (e, attach_to_gateway_class) (refl)
      at_target target e backend_grants i j = rw (e, attach_to_gateway_class) (refl)

  attach_to_gateway-AreSame :
      (p : Policy) (id : GatewayId) (rm : ResourceModel) → AreSame rm (attach_to_gateway k p id rm)
  unfolding attach_to_gateway
  attach_to_gateway-AreSame p id rm = elim (Option-cases (get id rm.gateways)) [
    | inl e ↦ rw (e, attach_to_gateway) (λ v i j. refl)
    | inr (target, e) ↦ at_target target e
  ]
    where
      at_target :
          (target : GatewayNode)
          → get id rm.gateways ≡ some target
          → AreSame rm (attach_to_gateway k p id rm)
      at_target target e route_gateways i j = rw (e, attach_to_gateway) (refl)
      at_target target e gateway_routes i j =
          rw (e, attach_to_gateway)
            (lists-set_same (λ (n : GatewayNode). n.http_routes) rm.gateways id target _ e refl i j)
      at_target target e route_backends i j = rw (e, attach_to_gateway) (refl)
      at_target target e backend_routes i j = rw (e, attach_to_gateway) (refl)
      at_target target e grant_backends i j = rw (e, attach_to_gateway) (refl)
      at_target target e backend_grants i j = rw (e, attach_to_gateway) (refl)

  attach_to_http_route-AreSame :
      (p : Policy) (id : HttpRouteId) (rm : ResourceModel)
      → AreSame rm (attach_to_http_route k p id rm)
  unfolding attach_to_http_route
  attach_to_http_route-AreSame p id rm = elim (Option-cases (get id rm.http_routes)) [
    | inl e ↦ rw (e, attach_to_http_route) (λ v i j. refl)
    | inr (target, e) ↦ at_target target e
  ]
    where
      at_target :
          (target : HttpRouteNode)
          → get id rm.http_routes ≡ some target
          → AreSame rm (attach_to_http_route k p id rm)
      at_target target e route_gateways i j =
          rw (e, attach_to_http_route)
            (lists-set_same (λ (n : HttpRouteNode). n.gateways) rm.http_routes id target _ e refl i
              j)
      at_target target e gateway_routes i j = rw (e, attach_to_http_route) (refl)
      at_target target e route_backends i j =
          rw (e, attach_to_http_route)
            (lists-set_same (λ (n : HttpRouteNode). n.backends) rm.http_routes id target _ e refl i
              j)
      at_target target e backend_routes i j = rw (e, attach_to_http_route) (refl)
      at_target target e grant_backends i j = rw (e, attach_to_http_route) (refl)
      at_target target e backend_grants i j = rw (e, attach_to_http_route) (refl)

  attach_to_namespace-AreSame :
      (p : Policy) (id : NamespaceId) (rm : ResourceModel)
      → AreSame rm (attach_to_namespace k p id rm)
  unfolding attach_to_namespace
  attach_to_namespace-AreSame p id rm = elim (Option-cases (get id rm.namespaces)) [
    | inl e ↦ rw (e, attach_to_namespace) (λ v i j. refl)
    | inr (target, e) ↦ at_target target e
  ]
    where
      at_target :
          (target : NamespaceNode)
          → get id rm.namespaces ≡ some target
          → AreSame rm (attach_to_namespace k p id rm)
      at_target target e route_gateways i j = rw (e, attach_to_namespace) (refl)
      at_target target e gateway_routes i j = rw (e, attach_to_namespace) (refl)
      at_target target e route_backends i j = rw (e, attach_to_namespace) (refl)
      at_target target e backend_routes i j = rw (e, attach_to_namespace) (refl)
      at_target target e grant_backends i j = rw (e, attach_to_namespace) (refl)
      at_target target e backend_grants i j = rw (e, attach_to_namespace) (refl)

  attach_to_backend-AreSame :
      (p : Policy) (id : BackendId) (rm : ResourceModel) → AreSame rm (attach_to_backend k p id rm)
  unfolding attach_to_backend
  attach_to_backend-AreSame p id rm = elim (Option-cases (get id rm.backends)) [
    | inl e ↦ rw (e, attach_to_backend) (λ v i j. refl)
    | inr (target, e) ↦ at_target target e
  ]
    where
      at_target :
          (target : BackendNode)
          → get id rm.backends ≡ some target
          → AreSame rm (attach_to_backend k p id rm)
      at_target target e route_gateways i j = rw (e, attach_to_backend) (refl)
      at_target target e gateway_routes i j = rw (e, attach_to_backend) (refl)
      at_target target e route_backends i j = rw (e, attach_to_backend) (refl)
      at_target target e backend_routes i j =
          rw (e, attach_to_backend)
            (lists-set_same (λ (n : BackendNode). n.http_routes) rm.backends id target _ e refl i j)
      at_target target e grant_backends i j = rw (e, attach_to_backend) (refl)
      at_target target e backend_grants i j =
          rw (e, attach_to_backend)
            (lists-set_same (λ (n : BackendNode). n.reference_grants) rm.backends id target _ e refl
              i j)

  attach_policy-AreSame : (p : Policy) (rm : ResourceModel) → AreSame rm (attach_policy k p rm)
  unfolding attach_policy
  attach_policy-AreSame p rm =
      let ref = p.target_ref in
      AreSame-if (ref.group ≐ group_name)
        (AreSame-if (ref.kind ≐ "GatewayClass")
          (attach_to_gateway_class-AreSame p (gateway_class_id ref.name) rm)
          (AreSame-if (ref.kind ≐ "Gateway")
            (attach_to_gateway-AreSame p (gateway_id ref.namespace ref.name) rm)
            (AreSame-if (ref.kind ≐ "HTTPRoute")
              (attach_to_http_route-AreSame p (http_route_id ref.namespace ref.name) rm)
              (λ v i j. refl))))
        (AreSame-if (ref.group ≐ "" && ref.kind ≐ "Namespace")
          (attach_to_namespace-AreSame p (namespace_id ref.name) rm)
          (attach_to_backend-AreSame p (backend_id ref.group ref.kind ref.namespace ref.name) rm))

  pub add_policy_if_target_exists-AreSame :
      (policies : List Policy) (rm : ResourceModel)
      → AreSame rm (add_policy_if_target_exists k policies rm)
  unfolding add_policy_if_target_exists
  add_policy_if_target_exists-AreSame [] rm v i j = refl
  add_policy_if_target_exists-AreSame (p ∷ rest) rm v i j =
      add_policy_if_target_exists-AreSame rest (attach_policy k p rm) v i j
      ∙ attach_policy-AreSame p rm v i j
