-- ===== src/Discovery/Notes.antt =====
-- What the discovery functions of gwctl/pkg/resourcediscovery/discoverer.go share: loops that may
-- stop the program, the temporary indices, and the errors and events that nodes are given.
use gateway_api.Prelude.{
  String, none, some, List, [], ◌∷◌, ◌++◌, map, string_key, ◌≡◌, refl, inl, inr,
}
use gateway_api.Prelude.Dict.{Dict, get, set}
use gateway_api.Prelude.Outcome.{Outcome, ok, err, panic, ◌>>=◌, >>=-cases}
use gateway_api.Prelude.Lists.{In}
use gateway_api.Api.Meta.{Event}
use gateway_api.Api.Gateway.{GatewayClass, Namespace}
use gateway_api.Discovery.Errors.{NodeError}
use gateway_api.Discovery.Id.{
  GatewayClassId, GatewayId, HttpRouteId, BackendId, resource_id_key, gateway_class_id,
}
use gateway_api.Discovery.Model.{ResourceModel}

-- A loop whose body may stop the program.
unfoldable pub each : {A S : Type 0} → (A → S → Outcome S) → List A → S → Outcome S
each body [] s = ok s
each body (x ∷ xs) s = body x s >>= each body xs

-- What the body keeps, a loop that does not stop keeps.
pub each-keeps :
    {A S : Type 0} (P : S → Type 0) (body : A → S → Outcome S)
    → ((x : A) (s t : S) → P s → body x s ≡ ok t → P t)
    → (xs : List A) (s t : S) → P s
    → each body xs s ≡ ok t
    → P t
unfolding each
each-keeps P body keep [] s t p h = let same : s ≡ t = cc in rw (← same) p
each-keeps P body keep (x ∷ xs) s t p h =
    >>=-cases (body x s) h (λ u hu rest. each-keeps P body keep xs u t (keep x s u p hu) rest)

-- The same where the body's argument is known to stand in the list.
pub each-keeps_in :
    {A S : Type 0} (P : S → Type 0) (body : A → S → Outcome S) (xs : List A)
    → ((x : A) → In x xs → (s t : S) → P s → body x s ≡ ok t → P t)
    → (s t : S) → P s
    → each body xs s ≡ ok t
    → P t
unfolding each
each-keeps_in P body [] keep s t p h = let same : s ≡ t = cc in rw (← same) p
each-keeps_in P body (x ∷ xs) keep s t p h = >>=-cases (body x s) h (λ u hu rest.
    each-keeps_in P body xs (λ y m. keep y (inr m)) u t (keep x (inl refl) s u p hu) rest)

-- The keys of a map, in the order of the loop.
abbrev pub keys : {K V : Type 0} → Dict K V → List K
keys {K} {V} = map (λ (e : K × V). e.0)

-- `node.Errors = append(node.Errors, err)`
unfoldable pub note_gateway_error : GatewayId → NodeError → ResourceModel → ResourceModel
note_gateway_error id e rm = elim (get id rm.gateways) [
  | none ↦ rm
  | some node ↦ record rm {
    gateways = set id (record node { errors = node.errors ++ e ∷ [] }) rm.gateways;
  }
]

unfoldable pub note_http_route_error : HttpRouteId → NodeError → ResourceModel → ResourceModel
note_http_route_error id e rm = elim (get id rm.http_routes) [
  | none ↦ rm
  | some node ↦ record rm {
    http_routes = set id (record node { errors = node.errors ++ e ∷ [] }) rm.http_routes;
  }
]

unfoldable pub note_backend_error : BackendId → NodeError → ResourceModel → ResourceModel
note_backend_error id e rm = elim (get id rm.backends) [
  | none ↦ rm
  | some node ↦ record rm {
    backends = set id (record node { errors = node.errors ++ e ∷ [] }) rm.backends;
  }
]

-- `gatewayNode.Events = append(gatewayNode.Events, eventList.Items...)`
unfoldable pub note_events : GatewayId → List Event → ResourceModel → ResourceModel
note_events id events rm = elim (get id rm.gateways) [
  | none ↦ rm
  | some node ↦ record rm {
    gateways = set id (record node { events = node.events ++ events }) rm.gateways;
  }
]

-- The error of a listing is logged, and the list that it returns is empty.
abbrev pub or_nothing : {A : Type 0} → Outcome (List A) → Outcome (List A)
or_nothing (ok l) = ok l
or_nothing (err _) = ok []
or_nothing panic = panic

-- `l[0]`
abbrev pub first : {A : Type 0} → List A → Outcome A
first [] = panic
first (x ∷ _) = ok x

-- The temporary index: of two GatewayClasses with one id the later one stands.
unfoldable pub gateway_classes_by_id :
    List GatewayClass → Dict GatewayClassId GatewayClass → Dict GatewayClassId GatewayClass
gateway_classes_by_id [] index = index
gateway_classes_by_id (gateway_class ∷ rest) index =
    gateway_classes_by_id rest
      (set (gateway_class_id gateway_class.metadata.name) gateway_class index)

unfoldable pub namespaces_by_name : List Namespace → Dict String Namespace → Dict String Namespace
namespaces_by_name [] index = index
namespaces_by_name (namespace ∷ rest) index =
    namespaces_by_name rest (set namespace.metadata.name namespace index)

-- `namespaceMap[name]`: a missing key reads as the zero Namespace.
abbrev pub namespace_named : String → Dict String Namespace → Namespace
namespace_named name index = elim (get name index) [
  | none ↦ record { metadata = record { name = ""; namespace = ""; uid = "" } }
  | some namespace ↦ namespace
]
