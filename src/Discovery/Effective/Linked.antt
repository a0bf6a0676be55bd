-- ===== src/Discovery/Effective/Linked.antt =====
-- `calculateEffectivePolicies` leaves the lists that mirror each other alone, however it ends.
use gateway_api.Prelude.{Option, none, some, List, [], ◌∷◌, ◌≡◌, refl, ◌∙◌, inl, inr}
use gateway_api.Prelude.Dict.{Dict, set, Distinct, get-cons_self}
use gateway_api.Prelude.Outcome.{Outcome, ok, err, panic, Outcome-cases}
use gateway_api.Policy.Machinery.{Machinery}
use gateway_api.Discovery.Id.{ResourceId, resource_id_key}
use gateway_api.Discovery.Node.{GatewayNode, HttpRouteNode, BackendNode}
use gateway_api.Discovery.Model.{ResourceModel}
use gateway_api.Discovery.Connect.Links.Views.{
  route_gateways, gateway_routes, route_backends, backend_routes, grant_backends, backend_grants,
  lists, lists-set_same, AreSame,
}
use gateway_api.Discovery.Effective.{
  for_each, and_then, effective_policies_for_gateway, effective_policies_for_http_route,
  effective_policies_for_backend, calculate_effective_policies_for_gateways,
  calculate_effective_policies_for_http_routes, calculate_effective_policies_for_backends,
  calculate_effective_policies,
}
use gateway_api.Discovery.Effective.Loops.{Holds, Holds-set, Holds-rest}
use gateway_api.Discovery.Effective.Bodies.{
  effective_policies_for_gateway-result, effective_policies_for_http_route-result,
  effective_policies_for_backend-result,
}
use gateway_api.Discovery.Proper.{IsProper}

module _ {N : Type 0} (step : N → Outcome (Option N)) (field : N → Dict ResourceId ResourceId)
    (keeps : (v w : N) → step v ≡ ok (some w) → field w ≡ field v) where
  for_each-lists :
      (entries : List (ResourceId × N)) (nodes : Dict ResourceId N)
      → Distinct entries
      → Holds entries nodes
      → (i j : ResourceId) → lists field (for_each step entries nodes).0 i j ≡ lists field nodes i j
  unfolding for_each
  for_each-lists [] nodes distinct held i j = refl
  for_each-lists ((a, v) ∷ rest) nodes distinct held i j = elim (Outcome-cases (step v)) [
    | inl (none, e) ↦
        rw (e, for_each)
          (for_each-lists rest nodes distinct.1 (Holds-rest a v rest nodes distinct.0 held) i j)
    | inl (some w, e) ↦
        rw (e, for_each)
          (for_each-lists rest (set a w nodes) distinct.1
              (Holds-set a v w rest nodes distinct.0 held) i j
            ∙ lists-set_same field nodes a v w (held a v (get-cons_self a a v rest refl))
                (keeps v w e) i j)
    | inr (inl (failure, e)) ↦ rw (e, for_each) refl
    | inr (inr e) ↦ rw (e, for_each) refl
  ]

module _ (k : Machinery) (rm : ResourceModel) where
  calculate_effective_policies_for_gateways-AreSame :
      Distinct rm.gateways → AreSame rm (calculate_effective_policies_for_gateways k rm).0
  unfolding calculate_effective_policies_for_gateways
  calculate_effective_policies_for_gateways-AreSame once route_gateways i j = refl
  calculate_effective_policies_for_gateways-AreSame once gateway_routes i j =
      for_each-lists (effective_policies_for_gateway k rm) (λ (n : GatewayNode). n.http_routes)
        (λ v w e.
          let (result, same, distinct) = effective_policies_for_gateway-result k rm v e in
          rw same refl)
        rm.gateways rm.gateways once (λ id v h. h) i j
  calculate_effective_policies_for_gateways-AreSame once route_backends i j = refl
  calculate_effective_policies_for_gateways-AreSame once backend_routes i j = refl
  calculate_effective_policies_for_gateways-AreSame once grant_backends i j = refl
  calculate_effective_policies_for_gateways-AreSame once backend_grants i j = refl

  route_after :
      (v w : HttpRouteNode)
      → effective_policies_for_http_route k rm v ≡ ok (some w)
      → (w.gateways ≡ v.gateways) × (w.backends ≡ v.backends)
  route_after v w e =
      let (result, same, distinct) = effective_policies_for_http_route-result k rm v e in
      let this : w ≡ record v { effective_policies = result } = cc in (rw this refl, rw this refl)

  calculate_effective_policies_for_http_routes-AreSame :
      Distinct rm.http_routes → AreSame rm (calculate_effective_policies_for_http_routes k rm).0
  unfolding calculate_effective_policies_for_http_routes
  calculate_effective_policies_for_http_routes-AreSame once route_gateways i j =
      for_each-lists (effective_policies_for_http_route k rm) (λ (n : HttpRouteNode). n.gateways)
        (λ v w e. (route_after v w e).0) rm.http_routes rm.http_routes once (λ id v h. h) i j
  calculate_effective_policies_for_http_routes-AreSame once gateway_routes i j = refl
  calculate_effective_policies_for_http_routes-AreSame once route_backends i j =
      for_each-lists (effective_policies_for_http_route k rm) (λ (n : HttpRouteNode). n.backends)
        (λ v w e. (route_after v w e).1) rm.http_routes rm.http_routes once (λ id v h. h) i j
  calculate_effective_policies_for_http_routes-AreSame once backend_routes i j = refl
  calculate_effective_policies_for_http_routes-AreSame once grant_backends i j = refl
  calculate_effective_policies_for_http_routes-AreSame once backend_grants i j = refl

  backend_after :
      (v w : BackendNode)
      → effective_policies_for_backend k rm v ≡ ok (some w)
      → (w.http_routes ≡ v.http_routes) × (w.reference_grants ≡ v.reference_grants)
  backend_after v w e =
      let (result, same) = effective_policies_for_backend-result k rm v e in
      let this : w ≡ record v { effective_policies = result } = cc in (rw this refl, rw this refl)

  calculate_effective_policies_for_backends-AreSame :
      Distinct rm.backends → AreSame rm (calculate_effective_policies_for_backends k rm).0
  unfolding calculate_effective_policies_for_backends
  calculate_effective_policies_for_backends-AreSame once route_gateways i j = refl
  calculate_effective_policies_for_backends-AreSame once gateway_routes i j = refl
  calculate_effective_policies_for_backends-AreSame once route_backends i j = refl
  calculate_effective_policies_for_backends-AreSame once backend_routes i j =
      for_each-lists (effective_policies_for_backend k rm) (λ (n : BackendNode). n.http_routes)
        (λ v w e. (backend_after v w e).0) rm.backends rm.backends once (λ id v h. h) i j
  calculate_effective_policies_for_backends-AreSame once grant_backends i j = refl
  calculate_effective_policies_for_backends-AreSame once backend_grants i j =
      for_each-lists (effective_policies_for_backend k rm) (λ (n : BackendNode). n.reference_grants)
        (λ v w e. (backend_after v w e).1) rm.backends rm.backends once (λ id v h. h) i j

module _ (k : Machinery) where
  and_then-keeps :
      (P : ResourceModel → Type 0) (s : ResourceModel × Outcome {0} Unit)
      (next : ResourceModel → ResourceModel × Outcome {0} Unit)
      → P s.0
      → P (next s.0).0
      → P (and_then k s next).0
  and_then-keeps P (rm, ok u) next now later = later
  and_then-keeps P (rm, err e) next now later = now
  and_then-keeps P (rm, panic) next now later = now

  AreSame-trans : (a b c : ResourceModel) → AreSame a b → AreSame b c → AreSame a c
  AreSame-trans a b c p q v i j = q v i j ∙ p v i j

  -- The model of before, as far as the lists go, with each backend once.
  record IsAlike (rm new : ResourceModel) : Type 0 where
    same : AreSame rm new
    once : Distinct new.backends

  pub calculate_effective_policies-AreSame :
      (rm : ResourceModel) → IsProper rm → AreSame rm (calculate_effective_policies k rm).0
  unfolding calculate_effective_policies calculate_effective_policies_for_gateways
      calculate_effective_policies_for_http_routes
  calculate_effective_policies-AreSame rm proper =
      let one = (calculate_effective_policies_for_gateways k rm).0 in
      let first : IsAlike rm one = record {
        same = calculate_effective_policies_for_gateways-AreSame k rm proper.gateways.once;
        once = proper.backends.once;
      } in
      let two = (calculate_effective_policies_for_http_routes k one).0 in
      let second : IsAlike rm two = record {
        same =
            AreSame-trans rm one two first.same
              (calculate_effective_policies_for_http_routes-AreSame k one proper.http_routes.once);
        once = proper.backends.once;
      } in
      let both =
        and_then-keeps (IsAlike rm) (calculate_effective_policies_for_gateways k rm)
          (calculate_effective_policies_for_http_routes k) first second in
      and_then-keeps (AreSame rm) _ (calculate_effective_policies_for_backends k) both.same (
        AreSame-trans rm _ _ both.same
          (calculate_effective_policies_for_backends-AreSame k _ both.once))
