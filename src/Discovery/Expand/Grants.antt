-- ===== src/Discovery/Expand/Grants.antt =====
-- What the Discoverer changes of the ReferenceGrants of backends and of their HTTPRoutes.
use gateway_api.Prelude.{
  Bool, true, false, Option, none, some, ◌≡◌, refl, ◌∙◌, sym, ◌⊎◌, inl, inr, Option-cases, arith,
  ◌&&◌, ◌||◌, string_key, Key,
}
use gateway_api.Prelude.Dict.{Dict, get, set, get-set}
use gateway_api.Discovery.Errors.{NodeError}
use gateway_api.Discovery.Id.{ResourceId, HttpRouteId, BackendId, ReferenceGrantId, resource_id_key}
use gateway_api.Discovery.Node.{BackendNode}
use gateway_api.Discovery.Model.{ResourceModel}
use gateway_api.Discovery.Connect.{connect_http_route_with_backend}
use gateway_api.Discovery.Connect.Links.Views.{view, route_backends}
use gateway_api.Discovery.Connect.Links.Steps.{connect_http_route_with_backend-view}
use gateway_api.Discovery.Notes.{note_backend_error}

-- The ReferenceGrants that a backend of the model lists.
abbrev pub grants_of : BackendId → ResourceModel → Option (Dict ReferenceGrantId ReferenceGrantId)
grants_of id rm = elim (get id rm.backends) [ none ↦ none | some node ↦ some node.reference_grants ]

set-grants_of :
    (rm : ResourceModel) (b : BackendId) (old new : BackendNode) (j : BackendId)
    → get b rm.backends ≡ some old
    → new.reference_grants ≡ old.reference_grants
    → grants_of j (record rm { backends = set b new rm.backends }) ≡ grants_of j rm
set-grants_of rm b old new j found same = ground (arith, get-set b j new rm.backends)

-- Nothing but the backend's list of HTTPRoutes changes.
pub connect-grants_of :
    (a : HttpRouteId) (b : BackendId) (rm : ResourceModel) (j : BackendId)
    → grants_of j (connect_http_route_with_backend a b rm) ≡ grants_of j rm
unfolding connect_http_route_with_backend
connect-grants_of a b rm j = elim (Option-cases (get a rm.http_routes)) [
  | inl e ↦ rw (e, connect_http_route_with_backend) refl
  | inr (route, e) ↦ elim (Option-cases (get b rm.backends)) [
    | inl f ↦ rw (e, f, connect_http_route_with_backend) refl
    | inr (backend, f) ↦
        rw (e, connect_http_route_with_backend, f) (set-grants_of rm b backend _ j f refl)
  ]
]

pub connect-reference_grants :
    (a : HttpRouteId) (b : BackendId) (rm : ResourceModel)
    → (connect_http_route_with_backend a b rm).reference_grants ≡ rm.reference_grants
unfolding connect_http_route_with_backend
connect-reference_grants a b rm = elim (Option-cases (get a rm.http_routes)) [
  | inl e ↦ rw (e, connect_http_route_with_backend) refl
  | inr (route, e) ↦ elim (Option-cases (get b rm.backends)) [
    | inl f ↦ rw (e, f, connect_http_route_with_backend) refl
    | inr (backend, f) ↦ rw (e, connect_http_route_with_backend, f) refl
  ]
]

pub note-grants_of :
    (a : BackendId) (error : NodeError) (rm : ResourceModel) (j : BackendId)
    → grants_of j (note_backend_error a error rm) ≡ grants_of j rm
unfolding note_backend_error
note-grants_of a error rm j = elim (Option-cases (get a rm.backends)) [
  | inl e ↦ rw (e, note_backend_error) refl
  | inr (node, e) ↦ rw (e, note_backend_error) (set-grants_of rm a node _ j e refl)
]

pub note-reference_grants :
    (a : BackendId) (error : NodeError) (rm : ResourceModel)
    → (note_backend_error a error rm).reference_grants ≡ rm.reference_grants
unfolding note_backend_error
note-reference_grants a error rm = elim (Option-cases (get a rm.backends)) [
  | inl e ↦ rw (e, note_backend_error) refl
  | inr (node, e) ↦ rw (e, note_backend_error) refl
]

tests_cases :
    {a i b j : ResourceId} (p : Dec (a ≡ i)) (q : Dec (b ≡ j)) (v : Bool)
    → ((elim p [ yes _ ↦ true | no _ ↦ false ] && elim q [ yes _ ↦ true | no _ ↦ false ]) || v)
      ≡ true
    → ((a ≡ i) × (b ≡ j)) ⊎ (v ≡ true)
tests_cases (yes p) (yes q) v h = inl (p, q)
tests_cases (yes p) (no q) v h = inr h
tests_cases (no p) q v h = inr h

-- A connection is the new one or an old one.
pub connect-view_cases :
    (a : HttpRouteId) (b : BackendId) (rm : ResourceModel) (i j : ResourceId)
    → view route_backends (connect_http_route_with_backend a b rm) i j ≡ true
    → ((a ≡ i) × (b ≡ j)) ⊎ (view route_backends rm i j ≡ true)
unfolding connect_http_route_with_backend
connect-view_cases a b rm i j h = elim (Option-cases (get a rm.http_routes)) [
  | inl e ↦ inr (rw (e, connect_http_route_with_backend) at h)
  | inr (route, e) ↦ elim (Option-cases (get b rm.backends)) [
    | inl f ↦ inr (rw (e, f, connect_http_route_with_backend) at h)
    | inr (backend, f) ↦
        let joined = (connect_http_route_with_backend-view a b rm route backend e f i j).0 in
        tests_cases (Key.dec resource_id_key a i) (Key.dec resource_id_key b j)
          (view route_backends rm i j) (sym joined ∙ h)
  ]
]
