-- ===== src/Discovery/Connect/Links/Noted.antt =====
-- The errors and events that the Discoverer puts on nodes leave the lists alone.
use gateway_api.Prelude.{List, some, refl, Option-cases, inl, inr, ◌≡◌}
use gateway_api.Prelude.Dict.{get, set}
use gateway_api.Api.Meta.{Event}
use gateway_api.Discovery.Errors.{NodeError}
use gateway_api.Discovery.Id.{GatewayId, HttpRouteId, BackendId, resource_id_key}
use gateway_api.Discovery.Node.{GatewayNode, HttpRouteNode, BackendNode}
use gateway_api.Discovery.Model.{ResourceModel}
use gateway_api.Discovery.Notes.{
  note_gateway_error, note_http_route_error, note_backend_error, note_events,
}
use gateway_api.Discovery.Connect.Links.Views.{
  route_gateways, gateway_routes, route_backends, backend_routes, grant_backends, backend_grants,
  AreSame, lists-set_same,
}

-- A Gateway in place of one with the same HTTPRoutes, and so for the other nodes.
set_gateway-AreSame :
    (rm : ResourceModel) (a : GatewayId) (old new : GatewayNode)
    → get a rm.gateways ≡ some old
    → new.http_routes ≡ old.http_routes
    → AreSame rm (record rm { gateways = set a new rm.gateways })
set_gateway-AreSame rm a old new e same route_gateways i j = refl
set_gateway-AreSame rm a old new e same gateway_routes i j =
    lists-set_same (λ (n : GatewayNode). n.http_routes) rm.gateways a old new e same i j
set_gateway-AreSame rm a old new e same route_backends i j = refl
set_gateway-AreSame rm a old new e same backend_routes i j = refl
set_gateway-AreSame rm a old new e same grant_backends i j = refl
set_gateway-AreSame rm a old new e same backend_grants i j = refl

set_http_route-AreSame :
    (rm : ResourceModel) (a : HttpRouteId) (old new : HttpRouteNode)
    → get a rm.http_routes ≡ some old
    → new.gateways ≡ old.gateways
    → new.backends ≡ old.backends
    → AreSame rm (record rm { http_routes = set a new rm.http_routes })
set_http_route-AreSame rm a old new e same also route_gateways i j =
    lists-set_same (λ (n : HttpRouteNode). n.gateways) rm.http_routes a old new e same i j
set_http_route-AreSame rm a old new e same also gateway_routes i j = refl
set_http_route-AreSame rm a old new e same also route_backends i j =
    lists-set_same (λ (n : HttpRouteNode). n.backends) rm.http_routes a old new e also i j
set_http_route-AreSame rm a old new e same also backend_routes i j = refl
set_http_route-AreSame rm a old new e same also grant_backends i j = refl
set_http_route-AreSame rm a old new e same also backend_grants i j = refl

set_backend-AreSame :
    (rm : ResourceModel) (a : BackendId) (old new : BackendNode)
    → get a rm.backends ≡ some old
    → new.http_routes ≡ old.http_routes
    → new.reference_grants ≡ old.reference_grants
    → AreSame rm (record rm { backends = set a new rm.backends })
set_backend-AreSame rm a old new e same also route_gateways i j = refl
set_backend-AreSame rm a old new e same also gateway_routes i j = refl
set_backend-AreSame rm a old new e same also route_backends i j = refl
set_backend-AreSame rm a old new e same also backend_routes i j =
    lists-set_same (λ (n : BackendNode). n.http_routes) rm.backends a old new e same i j
set_backend-AreSame rm a old new e same also grant_backends i j = refl
set_backend-AreSame rm a old new e same also backend_grants i j =
    lists-set_same (λ (n : BackendNode). n.reference_grants) rm.backends a old new e also i j

pub note_gateway_error-AreSame :
    (a : GatewayId) (error : NodeError) (rm : ResourceModel)
    → AreSame rm (note_gateway_error a error rm)
unfolding note_gateway_error
note_gateway_error-AreSame a error rm = elim (Option-cases (get a rm.gateways)) [
  | inl e ↦ rw (e, note_gateway_error) (λ v i j. refl)
  | inr (node, e) ↦ rw (e, note_gateway_error) (set_gateway-AreSame rm a node _ e refl)
]

pub note_http_route_error-AreSame :
    (a : HttpRouteId) (error : NodeError) (rm : ResourceModel)
    → AreSame rm (note_http_route_error a error rm)
unfolding note_http_route_error
note_http_route_error-AreSame a error rm = elim (Option-cases (get a rm.http_routes)) [
  | inl e ↦ rw (e, note_http_route_error) (λ v i j. refl)
  | inr (node, e) ↦ rw (e, note_http_route_error) (set_http_route-AreSame rm a node _ e refl refl)
]

pub note_backend_error-AreSame :
    (a : BackendId) (error : NodeError) (rm : ResourceModel)
    → AreSame rm (note_backend_error a error rm)
unfolding note_backend_error
note_backend_error-AreSame a error rm = elim (Option-cases (get a rm.backends)) [
  | inl e ↦ rw (e, note_backend_error) (λ v i j. refl)
  | inr (node, e) ↦ rw (e, note_backend_error) (set_backend-AreSame rm a node _ e refl refl)
]

pub note_events-AreSame :
    (a : GatewayId) (events : List Event) (rm : ResourceModel)
    → AreSame rm (note_events a events rm)
unfolding note_events
note_events-AreSame a events rm = elim (Option-cases (get a rm.gateways)) [
  | inl e ↦ rw (e, note_events) (λ v i j. refl)
  | inr (node, e) ↦ rw (e, note_events) (set_gateway-AreSame rm a node _ e refl)
]
