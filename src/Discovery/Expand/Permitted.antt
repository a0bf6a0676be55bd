-- ===== src/Discovery/Expand/Permitted.antt =====
-- `discoverHTTPRoutesFromBackends` of gwctl/pkg/resourcediscovery/discoverer.go connects an HTTPRoute
-- with a backend only where the reference is permitted.
use gateway_api.Prelude.{
  String, Bool, if-elim, true, false, some, List, [], ◌∷◌, ◌≡◌, refl, ◌∙◌, sym, ◌⊎◌, inl, inr,
  Option-cases, ◌≐◌, string_key, String-discrete, if◌then◌else◌,
}
use gateway_api.Prelude.Dict.{Dict, get}
use gateway_api.Prelude.Lists.{Any, In, Any-of_In}
use gateway_api.Prelude.Outcome.{Outcome, ok, err, panic, ◌>>=◌, >>=-cases}
use gateway_api.Api.Meta.{ObjRef}
use gateway_api.Api.Route.{HttpRoute}
use gateway_api.Relations.{find_backend_refs_for_http_route, reference_grant_accepts}
use gateway_api.Discovery.Errors.{NodeError}
use gateway_api.Discovery.Id.{
  ResourceId, HttpRouteId, BackendId, ReferenceGrantId, resource_id_key, backend_id,
}
use gateway_api.Discovery.Node.{BackendNode, ReferenceGrantNode}
use gateway_api.Discovery.Model.{ResourceModel, add_http_routes}
use gateway_api.Discovery.Effective.{followed}
use gateway_api.Discovery.Effective.Gateways.{followed-eq-ok}
use gateway_api.Discovery.Connect.{connect_http_route_with_backend}
use gateway_api.Discovery.Connect.Links.Views.{view, route_backends}
use gateway_api.Discovery.Connect.Links.Adds.{add_http_routes-AreSame}
use gateway_api.Discovery.Connect.Links.Noted.{note_backend_error-AreSame}
use gateway_api.Discovery.Client.{Discoverer}
use gateway_api.Discovery.Fetch.{fetch_http_routes}
use gateway_api.Discovery.Notes.{each, each-keeps_in, or_nothing, note_backend_error}
use gateway_api.Discovery.Expand.{
  id_of_route, all_objects, granted_ref, reference_accepted, permitted, include_ref,
  include_http_route, discover_http_routes_from_backends,
}
use gateway_api.Discovery.Expand.Grants.{
  grants_of, connect-grants_of, connect-reference_grants, note-grants_of, note-reference_grants,
  connect-view_cases,
}

eq_of_test :
    {s t : String} (p : Dec (s ≡ t)) → elim p [ yes _ ↦ true | no _ ↦ false ] ≡ true → s ≡ t
eq_of_test (yes e) h = e
eq_of_test (no n) h = absurd (cc)

module _ (d : Discoverer) (rm : ResourceModel) (routes : List HttpRoute) where
  -- The backend lists a ReferenceGrant that accepts references from the HTTPRoute.
  abbrev pub IsGranted : HttpRoute → BackendId → Type 0
  IsGranted route id =
      (grants : Dict ReferenceGrantId ReferenceGrantId) × (grants_of id rm ≡ some grants)
      × Any
          (λ (entry : ReferenceGrantId × ReferenceGrantId).
            (node : ReferenceGrantNode) × (get entry.1 rm.reference_grants ≡ some node)
            × (reference_grant_accepts node.reference_grant (granted_ref d route) ≡ true))
          grants

  -- The HTTPRoute refers to the backend, from the backend's namespace or with a grant.
  abbrev pub Refers : HttpRoute → BackendId → ObjRef → Type 0
  Refers route id ref =
      (backend_id ref.group ref.kind ref.namespace ref.name ≡ id)
      × ((route.metadata.namespace ≡ ref.namespace) ⊎ IsGranted route id)

  -- One of the HTTPRoutes has the id, and refers to the backend with permission.
  abbrev pub IsPermitted : HttpRouteId → BackendId → Type 0
  IsPermitted route_id id =
      Any
        (λ (route : HttpRoute).
          (id_of_route route ≡ route_id)
          × Any (Refers route id) (find_backend_refs_for_http_route route))
        routes

  -- What holds of the model in each round.
  record IsKept (m : ResourceModel) : Type 0 where
    grants : m.reference_grants ≡ rm.reference_grants
    lists : (id : BackendId) → grants_of id m ≡ grants_of id rm
    permits :
        (i j : ResourceId)
        → view route_backends m i j ≡ true
        → (view route_backends rm i j ≡ true) ⊎ IsPermitted i j

  reference_accepted-Any :
      (route : HttpRoute) (grants : List (ReferenceGrantId × ReferenceGrantId)) (m : ResourceModel)
      → m.reference_grants ≡ rm.reference_grants
      → reference_accepted d (granted_ref d route) grants m ≡ ok true
      → Any
          (λ (entry : ReferenceGrantId × ReferenceGrantId).
            (node : ReferenceGrantNode) × (get entry.1 rm.reference_grants ≡ some node)
            × (reference_grant_accepts node.reference_grant (granted_ref d route) ≡ true))
          grants
  unfolding reference_accepted
  reference_accepted-Any route [] m same h = absurd (cc)
  reference_accepted-Any route ((id, pointer) ∷ rest) m same h =
      >>=-cases (followed (get pointer m.reference_grants)) h (λ node hn h1.
        if-elim (reference_grant_accepts node.reference_grant (granted_ref d route)) h1
          (λ accepted e.
            inl (node, rw same at (followed-eq-ok (get pointer m.reference_grants) hn), accepted))
          (λ refused e. inr (reference_accepted-Any route rest m same e)))

  permitted-cases :
      (route : HttpRoute) (ref : ObjRef) (id : BackendId) (node : BackendNode) (m : ResourceModel)
      → IsKept m
      → get id m.backends ≡ some node
      → permitted d route ref node.reference_grants m ≡ ok true
      → (route.metadata.namespace ≡ ref.namespace) ⊎ IsGranted route id
  unfolding permitted
  permitted-cases route ref id node m kept found h =
      if-elim (route.metadata.namespace ≐ ref.namespace) h
        (λ test e. inl (eq_of_test (String-discrete _ _) test))
        (λ test e.
          let here : grants_of id m ≡ some node.reference_grants = rw (found, grants_of) refl in
          inr (
            node.reference_grants,
            sym (kept.lists id) ∙ here,
            reference_accepted-Any route node.reference_grants m kept.grants e,
          ))

  connected-IsKept :
      (route : HttpRoute) (id : BackendId) (m : ResourceModel)
      → IsKept m
      → IsPermitted (id_of_route route) id
      → IsKept
          (connect_http_route_with_backend (id_of_route route) id (add_http_routes (route ∷ []) m))
  unfolding add_http_routes
  connected-IsKept route id m kept allowed =
      let added = add_http_routes (route ∷ []) m in
      record {
        grants = connect-reference_grants (id_of_route route) id added ∙ kept.grants;
        lists = λ j. connect-grants_of (id_of_route route) id added j ∙ kept.lists j;
        permits = at;
      }
    where
      at :
          (i j : ResourceId)
          → view route_backends
              (connect_http_route_with_backend
                (id_of_route route)
                id
                (add_http_routes (route ∷ []) m))
              i
              j
            ≡ true
          → (view route_backends rm i j ≡ true) ⊎ IsPermitted i j
      at i j h =
          let before = add_http_routes-AreSame (route ∷ []) m route_backends i j in
          elim (connect-view_cases (id_of_route route) id (add_http_routes (route ∷ []) m) i j h) [
            | inl (p, q) ↦ inr (rw (← p, ← q) allowed)
            | inr old ↦ kept.permits i j (sym before ∙ old)
          ]

  noted-IsKept :
      (id : BackendId) (error : NodeError) (m : ResourceModel)
      → IsKept m
      → IsKept (note_backend_error id error m)
  noted-IsKept id error m kept = record {
    grants = note-reference_grants id error m ∙ kept.grants;
    lists = λ j. note-grants_of id error m j ∙ kept.lists j;
    permits = λ i j h.
        kept.permits i j (sym (note_backend_error-AreSame id error m route_backends i j) ∙ h);
  }

  IsKept-if :
      (b : Bool) {l r new : ResourceModel}
      → (b ≡ true → IsKept l)
      → IsKept r
      → ◌≡◌ {A = Outcome ResourceModel} (ok (if b then l else r)) (ok new)
      → IsKept new
  IsKept-if true {l} {r} {new} p q h = let same : l ≡ new = cc in rw (← same) (p refl)
  IsKept-if false {l} {r} {new} p q h = let same : r ≡ new = cc in rw (← same) q

  include_ref-IsKept :
      (route : HttpRoute) (ref : ObjRef)
      → In route routes
      → In ref (find_backend_refs_for_http_route route)
      → (m new : ResourceModel) → IsKept m
      → include_ref d route ref m ≡ ok new
      → IsKept new
  unfolding include_ref
  include_ref-IsKept route ref listed named m new kept h =
      let id = backend_id ref.group ref.kind ref.namespace ref.name in
      elim (Option-cases (get id m.backends)) [
        | inl e ↦
            let same : ◌≡◌ {A = Outcome ResourceModel} (ok m) (ok new) = rw (e, include_ref) at h in
            let this : m ≡ new = cc in rw (← this) kept
        | inr (node, e) ↦
            >>=-cases (permitted d route ref node.reference_grants m) (rw (e, include_ref) at h)
              (λ accepted ha h1.
                IsKept-if accepted
                  (λ yes_accepted. connected-IsKept route id m kept (
                    Any-of_In _ route routes listed (
                      refl,
                      Any-of_In (Refers route id) ref (find_backend_refs_for_http_route route) named
                          (
                            refl,
                            permitted-cases route ref id node m kept e (rw yes_accepted at ha),
                          ),
                    )))
                  (noted-IsKept id _ m kept) h1)
      ]

  include_all-IsKept :
      (new : ResourceModel) → each (include_http_route d) routes rm ≡ ok new → IsKept new
  unfolding include_http_route
  include_all-IsKept new h =
      each-keeps_in IsKept (include_http_route d) routes
        (λ route listed s t.
          each-keeps_in IsKept (include_ref d route) (find_backend_refs_for_http_route route)
            (λ ref named. include_ref-IsKept route ref listed named) s t)
        rm new (record { grants = refl; lists = λ id. refl; permits = λ i j e. inl e }) h

module _ (d : Discoverer) where
  -- An HTTPRoute that `discover_http_routes_from_backends` connects with a backend, where it was
  -- not connected before, is one of those that the API lists; it refers to the backend, and it
  -- does so from the backend's own namespace or the backend has a ReferenceGrant that accepts
  -- references from it. If the listing fails, nothing is connected.
  pub discover_http_routes_from_backends-IsPermitted :
      (rm new : ResourceModel) (route_id : HttpRouteId) (id : BackendId)
      → discover_http_routes_from_backends d rm ≡ ok new
      → view route_backends new route_id id ≡ true
      → (view route_backends rm route_id id ≡ true)
        ⊎ ((routes : List HttpRoute) × (fetch_http_routes d (all_objects d) ≡ ok routes)
            × IsPermitted d rm routes route_id id)
  unfolding discover_http_routes_from_backends
  discover_http_routes_from_backends-IsPermitted rm new route_id id h connected =
      by_answer (fetch_http_routes d (all_objects d)) refl h
    where
      by_answer :
          (answer : Outcome (List HttpRoute))
          → fetch_http_routes d (all_objects d) ≡ answer
          → (or_nothing answer >>= λ routes. each (include_http_route d) routes rm) ≡ ok new
          → (view route_backends rm route_id id ≡ true)
            ⊎ ((routes : List HttpRoute) × (fetch_http_routes d (all_objects d) ≡ ok routes)
                × IsPermitted d rm routes route_id id)
      by_answer (ok routes) e h =
          elim (IsKept.permits (include_all-IsKept d rm routes new h) route_id id connected) [
            | inl old ↦ inl old
            | inr allowed ↦ inr (routes, e, allowed)
          ]
      by_answer (err failure) e h =
          elim (IsKept.permits (include_all-IsKept d rm [] new h) route_id id connected) [
            | inl old ↦ inl old
            | inr none_listed ↦ absurd none_listed
          ]
      by_answer panic e h = absurd (cc)
