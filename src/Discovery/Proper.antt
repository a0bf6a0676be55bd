-- ===== src/Discovery/Proper.antt =====
-- The representation of a model before the effective policies are computed: its maps have each key
-- once, no node has effective policies, and an HTTPRoute lists a Gateway once.
pub mod Steps
pub mod Attached
pub mod Kept
use gateway_api.Prelude.{Bool, true, false, some, [], ◌≡◌, arith, Key, if◌then◌else◌}
use gateway_api.Prelude.Dict.{Dict, Distinct, get, set, set_if_missing, has, get-set, set-Distinct}
use gateway_api.Discovery.Id.{ResourceId, resource_id_key}
use gateway_api.Discovery.Node.{GatewayNode, HttpRouteNode, BackendNode}
use gateway_api.Discovery.Model.{ResourceModel}

-- A map that has each key once, with nodes of which `P` holds.
pub record IsSound {N : Type 0} (P : N → Type 0) (nodes : Dict ResourceId N) : Type 0 where
  pub once : Distinct nodes
  pub every : (id : ResourceId) (node : N) → get id nodes ≡ some node → P node

module _ {N : Type 0} (P : N → Type 0) where
  P-of_eq : (new node : N) → P new → some new ≡ some node → P node
  P-of_eq new node p e = let same : new ≡ node = cc in rw (← same) p

  pub set-IsSound :
      (a : ResourceId) (new : N) (nodes : Dict ResourceId N)
      → P new
      → IsSound P nodes
      → IsSound P (set a new nodes)
  set-IsSound a new nodes p h = record { once = set-Distinct a new nodes h.once; every = at }
    where
      at : (id : ResourceId) (node : N) → get id (set a new nodes) ≡ some node → P node
      at id node found = elim (Key.dec resource_id_key a id) [
        | yes e ↦ P-of_eq new node p (ground (arith, get-set a id new nodes))
        | no n ↦ h.every id node (ground (arith, get-set a id new nodes))
      ]

  IsSound-if :
      (b : Bool) {l r : Dict ResourceId N}
      → IsSound P l
      → IsSound P r
      → IsSound P (if b then l else r)
  IsSound-if true p q = p
  IsSound-if false p q = q

  pub set_if_missing-IsSound :
      (a : ResourceId) (new : N) (nodes : Dict ResourceId N)
      → P new
      → IsSound P nodes
      → IsSound P (set_if_missing a new nodes)
  unfolding set_if_missing
  set_if_missing-IsSound a new nodes p h = IsSound-if (has a nodes) h (set-IsSound a new nodes p h)

abbrev pub IsFreshGateway : GatewayNode → Type 0
IsFreshGateway n = n.effective_policies ≡ []

abbrev pub IsFreshRoute : HttpRouteNode → Type 0
IsFreshRoute n = Distinct n.gateways

abbrev pub IsFreshBackend : BackendNode → Type 0
IsFreshBackend n = Unit

pub record IsProper (rm : ResourceModel) : Type 0 where
  pub gateways : IsSound IsFreshGateway rm.gateways
  pub http_routes : IsSound IsFreshRoute rm.http_routes
  pub backends : IsSound IsFreshBackend rm.backends

module _ (rm : ResourceModel) (proper : IsProper rm) where
  -- A Gateway in place of another, and so for the other nodes.
  pub set_gateway-IsProper :
      (a : ResourceId) (old new : GatewayNode)
      → get a rm.gateways ≡ some old
      → new.effective_policies ≡ old.effective_policies
      → IsProper (record rm { gateways = set a new rm.gateways })
  set_gateway-IsProper a old new e same =
      let fresh : IsFreshGateway new = cc (same, proper.gateways.every a old e) in
      record {
        gateways = set-IsSound IsFreshGateway a new rm.gateways fresh proper.gateways;
        http_routes = proper.http_routes;
        backends = proper.backends;
      }

  pub set_http_route-IsProper :
      (a : ResourceId) (new : HttpRouteNode)
      → Distinct new.gateways
      → IsProper (record rm { http_routes = set a new rm.http_routes })
  set_http_route-IsProper a new fresh = record {
    gateways = proper.gateways;
    http_routes = set-IsSound IsFreshRoute a new rm.http_routes fresh proper.http_routes;
    backends = proper.backends;
  }

  pub set_backend-IsProper :
      (a : ResourceId) (new : BackendNode)
      → IsProper (record rm { backends = set a new rm.backends })
  set_backend-IsProper a new = record {
    gateways = proper.gateways;
    http_routes = proper.http_routes;
    backends = set-IsSound IsFreshBackend a new rm.backends tt proper.backends;
  }

  -- Other maps of the model may change.
  pub IsProper-of_same :
      (new : ResourceModel)
      → new.gateways ≡ rm.gateways
      → new.http_routes ≡ rm.http_routes
      → new.backends ≡ rm.backends
      → IsProper new
  IsProper-of_same new a b c = record {
    gateways = rw a proper.gateways;
    http_routes = rw b proper.http_routes;
    backends = rw c proper.backends;
  }
