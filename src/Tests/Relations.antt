-- ===== src/Tests/Relations.antt =====
-- References of a small HTTPRoute, and a ReferenceGrant.
use gateway_api.Prelude.{true, some, none, [], ◌∷◌, ◌≡◌, ◌↔◌}
use gateway_api.Prelude.Lists.{In, Any}
use gateway_api.Api.Meta.{ObjRef}
use gateway_api.Api.Route.{BackendObjectReference, HttpRoute, request_mirror}
use gateway_api.Api.Grant.{ReferenceGrant}
use gateway_api.Relations.{
  find_backend_refs_for_http_route, backend_obj_ref, reference_grant_exposes,
  reference_grant_accepts,
}
use gateway_api.Relations.Laws.{
  RefersTo, Covers, Admits, In-find_backend_refs, reference_grant_exposes_iff,
  reference_grant_accepts_iff,
}
use gateway_api.Tests.Models.{meta, http_route_type}

abbrev service_ref : BackendObjectReference
service_ref = record {
  group = none;
  kind = some "Service";
  name = "svc";
  namespace = none;
  port = some 80;
}

-- The service is named twice: by a BackendRef and by a mirror.
abbrev mirrored_route : HttpRoute
mirrored_route = record {
  type_meta = http_route_type;
  metadata = meta "prod" "route";
  spec = record {
    parent_refs = [];
    hostnames = [];
    rules =
        record {
          filters =
              record {
                type = request_mirror;
                request_mirror_body = some (record { backend_ref = service_ref });
              }
              ∷ [];
          backend_refs =
              record { backend_object_reference = service_ref; weight = none; filters = [] } ∷ [];
        }
        ∷ [];
  };
}

abbrev service : ObjRef
service = record { group = ""; kind = "Service"; name = "svc"; namespace = "prod" }

abbrev route_object : ObjRef
route_object = record {
  group = "gateway.networking.k8s.io";
  kind = "HTTPRoute";
  name = "route";
  namespace = "web";
}

abbrev service_grant : ReferenceGrant
service_grant = record {
  metadata = meta "prod" "grant";
  spec = record {
    from =
        record { group = "gateway.networking.k8s.io"; kind = "HTTPRoute"; namespace = "web" } ∷ [];
    to = record { group = ""; kind = "Service"; name = none } ∷ [];
  };
}

In-find_backend_refs_example :
    In service (find_backend_refs_for_http_route mirrored_route)
    ↔ Any (RefersTo (λ ref. backend_obj_ref mirrored_route ref ≡ service)) mirrored_route.spec.rules
In-find_backend_refs_example = In-find_backend_refs mirrored_route service

reference_grant_exposes_iff_example : (reference_grant_exposes service_grant service ≡ true) ↔ (
    (service_grant.metadata.namespace ≡ service.namespace)
    × Any (Covers service) service_grant.spec.to)
reference_grant_exposes_iff_example = reference_grant_exposes_iff service_grant service

reference_grant_accepts_iff_example :
    (reference_grant_accepts service_grant route_object ≡ true)
    ↔ Any (Admits route_object) service_grant.spec.from
reference_grant_accepts_iff_example = reference_grant_accepts_iff service_grant route_object
