-- ===== src/Discovery/Proper/Attached.antt =====
-- `addPolicyIfTargetExists` keeps a model proper.
use gateway_api.Prelude.{
  Bool, true, false, List, [], ◌∷◌, refl, Option-cases, inl, inr, ◌≐◌, ◌&&◌, string_key,
  if◌then◌else◌,
}
use gateway_api.Prelude.Dict.{get}
use gateway_api.Policy.Machinery.{Machinery}
use gateway_api.Policy.Object.{Policy}
use gateway_api.Discovery.Id.{
  ResourceId, resource_id_key, gateway_class_id, namespace_id, gateway_id, http_route_id,
  backend_id,
}
use gateway_api.Discovery.Model.{ResourceModel}
use gateway_api.Discovery.Attach.{
  group_name, attach_to_gateway_class, attach_to_gateway, attach_to_http_route, attach_to_namespace,
  attach_to_backend, attach_policy, add_policy_if_target_exists,
}
use gateway_api.Discovery.Proper.{
  IsProper, set_gateway-IsProper, set_http_route-IsProper, set_backend-IsProper, IsProper-of_same,
}

IsProper-if :
    (b : Bool) {l r : ResourceModel} → IsProper l → IsProper r → IsProper (if b then l else r)
IsProper-if true p q = p
IsProper-if false p q = q

module _ (k : Machinery) where
  module _ (p : Policy) (id : ResourceId) (rm : ResourceModel) (h : IsProper rm) where
    attach_to_gateway_class-IsProper : IsProper (attach_to_gateway_class k p id rm)
    unfolding attach_to_gateway_class
    attach_to_gateway_class-IsProper = elim (Option-cases (get id rm.gateway_classes)) [
      | inl e ↦ rw (e, attach_to_gateway_class) h
      | inr (n, e) ↦ rw (e, attach_to_gateway_class) (IsProper-of_same rm h _ refl refl refl)
    ]

    attach_to_namespace-IsProper : IsProper (attach_to_namespace k p id rm)
    unfolding attach_to_namespace
    attach_to_namespace-IsProper = elim (Option-cases (get id rm.namespaces)) [
      | inl e ↦ rw (e, attach_to_namespace) h
      | inr (n, e) ↦ rw (e, attach_to_namespace) (IsProper-of_same rm h _ refl refl refl)
    ]

    attach_to_gateway-IsProper : IsProper (attach_to_gateway k p id rm)
    unfolding attach_to_gateway
    attach_to_gateway-IsProper = elim (Option-cases (get id rm.gateways)) [
      | inl e ↦ rw (e, attach_to_gateway) h
      | inr (n, e) ↦
          rw (e, attach_to_gateway)
            (IsProper-of_same _ (set_gateway-IsProper rm h id n _ e refl) _ refl refl refl)
    ]

    attach_to_http_route-IsProper : IsProper (attach_to_http_route k p id rm)
    unfolding attach_to_http_route
    attach_to_http_route-IsProper = elim (Option-cases (get id rm.http_routes)) [
      | inl e ↦ rw (e, attach_to_http_route) h
      | inr (n, e) ↦
          rw (e, attach_to_http_route)
            (IsProper-of_same _ (set_http_route-IsProper rm h id _ (h.http_routes.every id n e)) _
              refl refl refl)
    ]

    attach_to_backend-IsProper : IsProper (attach_to_backend k p id rm)
    unfolding attach_to_backend
    attach_to_backend-IsProper = elim (Option-cases (get id rm.backends)) [
      | inl e ↦ rw (e, attach_to_backend) h
      | inr (n, e) ↦
          rw (e, attach_to_backend)
            (IsProper-of_same _ (set_backend-IsProper rm h id _) _ refl refl refl)
    ]

  attach_policy-IsProper :
      (p : Policy) (rm : ResourceModel) → IsProper rm → IsProper (attach_policy k p rm)
  unfolding attach_policy
  attach_policy-IsProper p rm h =
      let ref = p.target_ref in
      IsProper-if (ref.group ≐ group_name)
        (IsProper-if (ref.kind ≐ "GatewayClass")
          (attach_to_gateway_class-IsProper p (gateway_class_id ref.name) rm h)
          (IsProper-if (ref.kind ≐ "Gateway")
            (attach_to_gateway-IsProper p (gateway_id ref.namespace ref.name) rm h)
            (IsProper-if (ref.kind ≐ "HTTPRoute")
              (attach_to_http_route-IsProper p (http_route_id ref.namespace ref.name) rm h) h)))
        (IsProper-if (ref.group ≐ "" && ref.kind ≐ "Namespace")
          (attach_to_namespace-IsProper p (namespace_id ref.name) rm h)
          (attach_to_backend-IsProper p (backend_id ref.group ref.kind ref.namespace ref.name) rm
            h))

  pub add_policy_if_target_exists-IsProper :
      (l : List Policy) (rm : ResourceModel)
      → IsProper rm
      → IsProper (add_policy_if_target_exists k l rm)
  unfolding add_policy_if_target_exists
  add_policy_if_target_exists-IsProper [] rm h = h
  add_policy_if_target_exists-IsProper (p ∷ rest) rm h =
      add_policy_if_target_exists-IsProper rest (attach_policy k p rm)
        (attach_policy-IsProper p rm h)
