-- ===== src/Discovery/Effective/Gathered.antt =====
-- What the loops over the HTTPRoutes and over the Gateways of a backend come to.
use gateway_api.Prelude.{Option, none, some, List, [], ◌∷◌, ◌≡◌, refl, ◌∙◌, arith}
use gateway_api.Prelude.Dict.{
  Dict, get, set, get-set, get-set_ne, get-cons_self, get-cons_ne, Distinct, set-Distinct,
}
use gateway_api.Prelude.Outcome.{Outcome, ok, ◌>>=◌, >>=-cases}
use gateway_api.Policy.Machinery.{Machinery}
use gateway_api.Policy.Merge.{
  Policies, merge_policies_of_same_hierarchy, merge_policies_of_different_hierarchy,
}
use gateway_api.Discovery.Id.{GatewayId, HttpRouteId, resource_id_key}
use gateway_api.Discovery.Node.{HttpRouteNode}
use gateway_api.Discovery.Model.{ResourceModel}
use gateway_api.Discovery.Effective.{
  followed, policies_for, merge_route, merge_routes, merge_backend,
}
use gateway_api.Discovery.Effective.Gateways.{followed-eq-ok}

abbrev pub or_nothing : Option Policies → Policies
or_nothing none = []
or_nothing (some policies) = policies

-- The effective policies of each route have each Gateway once.
abbrev pub AreRoutesDistinct : ResourceModel → Type 0
AreRoutesDistinct rm =
    (id : HttpRouteId) (route : HttpRouteNode)
    → get id rm.http_routes ≡ some route
    → Distinct route.effective_policies

module _ (k : Machinery) where
  -- One route's policies for the Gateway, if it has any, merged into those of the routes before.
  abbrev pub with_route : Option Policies → Option Policies → Outcome (Option Policies)
  with_route before none = ok before
  with_route before (some policies) = do
    merged ← merge_policies_of_same_hierarchy k (or_nothing before) policies
    ok (some merged)

  -- The policies of the routes for the Gateway, in the order of the routes.
  abbrev pub of_routes :
      ResourceModel
      → GatewayId
      → List (HttpRouteId × HttpRouteId)
      → Option Policies
      → Outcome (Option Policies)
  of_routes rm id [] before = ok before
  of_routes rm id ((_, pointer) ∷ rest) before = do
    route ← followed (get pointer rm.http_routes)
    merged ← with_route before (get id route.effective_policies)
    of_routes rm id rest merged

  -- Below them, the policies of the backend's Namespace and then the backend's own.
  abbrev pub with_backend : (middle lower : Policies) → Option Policies → Outcome (Option Policies)
  with_backend middle lower none = ok none
  with_backend middle lower (some policies) = do
    inherited ← merge_policies_of_different_hierarchy k policies middle
    merged ← merge_policies_of_different_hierarchy k inherited lower
    ok (some merged)

  policies_for-or_nothing :
      (id : GatewayId) (result : Dict GatewayId Policies)
      → policies_for k id result ≡ or_nothing (get id result)
  policies_for-or_nothing id result = ground arith

  -- The entry after the loop over the entries that are there.
  abbrev pub IsLowered : (middle lower : Policies) → (entry old new : Option Policies) → Type 0
  IsLowered middle lower none old new = new ≡ old
  IsLowered middle lower (some _) old new =
      (inherited : Policies) × (merged : Policies) × (merge_policies_of_different_hierarchy k
          (or_nothing old) middle
        ≡ ok inherited)
      × (merge_policies_of_different_hierarchy k inherited lower ≡ ok merged)
      × (new ≡ some merged)

  merge_route-at :
      (id : GatewayId) (entries : List (GatewayId × Policies)) (result : Dict GatewayId Policies)
      {r : Dict GatewayId Policies}
      → Distinct entries
      → merge_route k entries result ≡ ok r
      → with_route (get id result) (get id entries) ≡ ok (get id r)
  unfolding merge_route get
  merge_route-at id [] result {r} distinct h = let same : result ≡ r = cc in rw same refl
  merge_route-at id ((j, policies) ∷ rest) result {r} distinct h =
      >>=-cases (merge_policies_of_same_hierarchy k (policies_for k j result) policies) h
        (λ merged hm h1.
          let next = merge_route-at id rest (set j merged result) distinct.1 h1 in
          elim (resource_id_key.dec j id) [
            | yes e ↦
                let missed : get id rest ≡ none = rw e at distinct.0 in
                let here : merge_policies_of_same_hierarchy k (or_nothing (get id result)) policies
                    ≡ ok merged =
                  rw (← policies_for-or_nothing id result, ← e) hm in
                let kept : ok (get id (set j merged result)) ≡ ok (get id r) = rw missed at next in
                let there : get id (set j merged result) ≡ some merged =
                  ground (arith, get-set j id merged result) in
                rw (get-cons_self j id policies rest e, here) (cc (kept, there))
            | no n ↦
                rw (get-cons_ne j id policies rest n) (rw (get-set_ne j id merged result n) at next)
          ])

  pub merge_routes-at :
      (rm : ResourceModel) (id : GatewayId) (routes : List (HttpRouteId × HttpRouteId))
      (result : Dict GatewayId Policies) {r : Dict GatewayId Policies}
      → AreRoutesDistinct rm
      → merge_routes k rm routes result ≡ ok r
      → of_routes rm id routes (get id result) ≡ ok (get id r)
  unfolding merge_routes
  merge_routes-at rm id [] result {r} each h = let same : result ≡ r = cc in rw same refl
  merge_routes-at rm id ((_, pointer) ∷ rest) result {r} each h =
      >>=-cases (followed (get pointer rm.http_routes)) h (λ route hr h1.
        >>=-cases (merge_route k route.effective_policies result) h1 (λ merged hm h2.
          let found = followed-eq-ok (get pointer rm.http_routes) hr in
          rw (hr, merge_route-at id route.effective_policies result (each pointer route found) hm)
            (merge_routes-at rm id rest merged each h2)))

  pub merge_backend-at :
      (middle lower : Policies) (id : GatewayId) (entries : List (GatewayId × Policies))
      (result : Dict GatewayId Policies) {r : Dict GatewayId Policies}
      → Distinct entries
      → merge_backend k middle lower entries result ≡ ok r
      → IsLowered middle lower (get id entries) (get id result) (get id r)
  unfolding merge_backend get
  merge_backend-at middle lower id [] result {r} distinct h = cc
  merge_backend-at middle lower id ((j, policies) ∷ rest) result {r} distinct h =
      >>=-cases (merge_policies_of_different_hierarchy k (policies_for k j result) middle) h
        (λ inherited hi h1.
          >>=-cases (merge_policies_of_different_hierarchy k inherited lower) h1 (λ merged hm h2.
            let next = merge_backend-at middle lower id rest (set j merged result) distinct.1 h2 in
            elim (resource_id_key.dec j id) [
              | yes e ↦
                  let missed : get id rest ≡ none = rw e at distinct.0 in
                  let here : merge_policies_of_different_hierarchy k (or_nothing (get id result))
                        middle
                      ≡ ok inherited =
                    rw (← policies_for-or_nothing id result, ← e) hi in
                  let there : get id (set j merged result) ≡ some merged =
                    ground (arith, get-set j id merged result) in
                  rw (get-cons_self j id policies rest e)
                    (inherited, merged, here, hm, (rw missed at next) ∙ there)
              | no n ↦
                  rw (get-cons_ne j id policies rest n)
                    (rw (get-set_ne j id merged result n) at next)
            ]))

  merge_route-Distinct :
      (entries : List (GatewayId × Policies)) (result : Dict GatewayId Policies)
      {r : Dict GatewayId Policies}
      → Distinct result
      → merge_route k entries result ≡ ok r
      → Distinct r
  unfolding merge_route
  merge_route-Distinct [] result {r} distinct h = let same : result ≡ r = cc in rw (← same) distinct
  merge_route-Distinct ((j, policies) ∷ rest) result distinct h =
      >>=-cases (merge_policies_of_same_hierarchy k (policies_for k j result) policies) h
        (λ merged hm h1.
          merge_route-Distinct rest (set j merged result) (set-Distinct j merged result distinct)
            h1)

  pub merge_routes-Distinct :
      (rm : ResourceModel) (routes : List (HttpRouteId × HttpRouteId))
      (result : Dict GatewayId Policies) {r : Dict GatewayId Policies}
      → Distinct result
      → merge_routes k rm routes result ≡ ok r
      → Distinct r
  unfolding merge_routes
  merge_routes-Distinct rm [] result {r} distinct h =
      let same : result ≡ r = cc in rw (← same) distinct
  merge_routes-Distinct rm ((_, pointer) ∷ rest) result distinct h =
      >>=-cases (followed (get pointer rm.http_routes)) h (λ route hr h1.
        >>=-cases (merge_route k route.effective_policies result) h1 (λ merged hm h2.
          merge_routes-Distinct rm rest merged
            (merge_route-Distinct route.effective_policies result distinct hm) h2))

  pub with_backend_of_IsLowered :
      (middle lower : Policies) (old new : Option Policies)
      → IsLowered middle lower old old new
      → with_backend middle lower old ≡ ok new
  with_backend_of_IsLowered middle lower none new h = cc
  with_backend_of_IsLowered middle lower (some policies) new (inherited, merged, h1, h2, e) =
      rw (h1, h2, e) refl
