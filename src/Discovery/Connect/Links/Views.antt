-- ===== src/Discovery/Connect/Links/Views.antt =====
-- The lists of other nodes that nodes have, and what the writes to a map of nodes do to them.
use gateway_api.Prelude.{Bool, false, none, some, [], ◌≡◌, arith, ◌≐◌, ◌&&◌, ◌||◌}
use gateway_api.Prelude.Dict.{Dict, get, set, set_if_missing, has, get-set}
use gateway_api.Discovery.Id.{ResourceId, resource_id_key}
use gateway_api.Discovery.Node.{GatewayNode, HttpRouteNode, BackendNode, ReferenceGrantNode}
use gateway_api.Discovery.Model.{ResourceModel}
use gateway_api.Discovery.Model.Adds.{get-set_if_missing}

-- The node under the first id lists the second.
abbrev pub lists :
    {N : Type 0}
    → (N → Dict ResourceId ResourceId)
    → Dict ResourceId N
    → ResourceId
    → ResourceId
    → Bool
lists field nodes id j = elim (get id nodes) [ none ↦ false | some node ↦ has j (field node) ]

module _ {N : Type 0} (field : N → Dict ResourceId ResourceId) where
  -- A node in place of another lists what that listed and one id more.
  pub lists-set :
      (nodes : Dict ResourceId N) (a b : ResourceId) (old new : N)
      → get a nodes ≡ some old
      → field new ≡ set b b (field old)
      → (i j : ResourceId)
      → lists field (set a new nodes) i j ≡ ((a ≐ i && b ≐ j) || lists field nodes i j)
  lists-set nodes a b old new found changed i j =
      ground (arith, get-set a i new nodes, get-set b j b (field old))

  -- A node in place of another that lists the same.
  pub lists-set_same :
      (nodes : Dict ResourceId N) (a : ResourceId) (old new : N)
      → get a nodes ≡ some old
      → field new ≡ field old
      → (i j : ResourceId) → lists field (set a new nodes) i j ≡ lists field nodes i j
  lists-set_same nodes a old new found same i j = ground (arith, get-set a i new nodes)

  -- A new node that lists nothing.
  pub lists-set_if_missing :
      (nodes : Dict ResourceId N) (a : ResourceId) (new : N)
      → field new ≡ []
      → (i j : ResourceId) → lists field (set_if_missing a new nodes) i j ≡ lists field nodes i j
  unfolding get
  lists-set_if_missing nodes a new fresh i j = ground (arith, get-set_if_missing a i new nodes)

-- The lists that mirror each other.
pub data View : Type 0 where
  route_gateways : View
  gateway_routes : View
  route_backends : View
  backend_routes : View
  grant_backends : View
  backend_grants : View

abbrev pub mirror : View → View
mirror route_gateways = gateway_routes
mirror gateway_routes = route_gateways
mirror route_backends = backend_routes
mirror backend_routes = route_backends
mirror grant_backends = backend_grants
mirror backend_grants = grant_backends

abbrev pub view : View → ResourceModel → ResourceId → ResourceId → Bool
view route_gateways rm = lists (λ (n : HttpRouteNode). n.gateways) rm.http_routes
view gateway_routes rm = lists (λ (n : GatewayNode). n.http_routes) rm.gateways
view route_backends rm = lists (λ (n : HttpRouteNode). n.backends) rm.http_routes
view backend_routes rm = lists (λ (n : BackendNode). n.http_routes) rm.backends
view grant_backends rm = lists (λ (n : ReferenceGrantNode). n.backends) rm.reference_grants
view backend_grants rm = lists (λ (n : BackendNode). n.reference_grants) rm.backends

-- Every list and its mirror agree.
abbrev pub IsLinked : ResourceModel → Type 0
IsLinked rm = (v : View) (i j : ResourceId) → view v rm i j ≡ view (mirror v) rm j i

-- No list has changed.
abbrev pub AreSame : ResourceModel → ResourceModel → Type 0
AreSame old new = (v : View) (i j : ResourceId) → view v new i j ≡ view v old i j

pub IsLinked-of_AreSame : (old new : ResourceModel) → AreSame old new → IsLinked old → IsLinked new
IsLinked-of_AreSame old new same linked v i j = cc (same v i j, same (mirror v) j i, linked v i j)
