-- ===== src/Relations/Laws.antt =====
-- What the references of an HTTPRoute and the tests of a ReferenceGrant come to.
use gateway_api.Prelude.{
  Option, none, some, Bool, true, List, [], ◌∷◌, ◌++◌, map, ◌≡◌, ◌↔◌, ◌⊎◌, arith, string_key,
}
use gateway_api.Prelude.Lists.{Any, In, Any-append, Any-map}
use gateway_api.Prelude.Dict.{Dict, set}
use gateway_api.Api.Meta.{ObjRef, obj_ref_key}
use gateway_api.Api.Route.{
  BackendObjectReference, HttpRouteFilterType, request_mirror, HttpRouteFilter,
  HttpRequestMirrorFilter, HttpBackendRef, HttpRouteRule, HttpRoute,
}
use gateway_api.Api.Grant.{ReferenceGrantFrom, ReferenceGrantTo, ReferenceGrant}
use gateway_api.Relations.{
  is_mirror, mirror_refs, backend_refs, backend_obj_ref, result_set,
  find_backend_refs_for_http_route, exposed_by, reference_grant_exposes, accepted_by,
  reference_grant_accepts,
}

-- A mirror filter of the rule refers to a backend with the property.
abbrev pub MirrorsTo : (BackendObjectReference → Type 0) → Option HttpRequestMirrorFilter → Type 0
MirrorsTo P none = ⊥
MirrorsTo P (some mirror) = P mirror.backend_ref

abbrev pub Mirrors : (BackendObjectReference → Type 0) → HttpRouteFilter → Type 0
Mirrors P filter = (filter.type ≡ request_mirror) × MirrorsTo P filter.request_mirror_body

abbrev pub RefersTo : (BackendObjectReference → Type 0) → HttpRouteRule → Type 0
RefersTo P rule =
    Any (λ (b : HttpBackendRef). P b.backend_object_reference) rule.backend_refs
    ⊎ Any (Mirrors P) rule.filters

is_mirror_iff : (t : HttpRouteFilterType) → (is_mirror t ≡ true) ↔ (t ≡ request_mirror)
is_mirror_iff t = ground arith

module _ (P : BackendObjectReference → Type 0) where
  Any-mirror_refs :
      (filters : List HttpRouteFilter) → Any P (mirror_refs filters) ↔ Any (Mirrors P) filters
  unfolding mirror_refs
  Any-mirror_refs [] = ground arith
  Any-mirror_refs (f ∷ fs) = ground (arith, Any-mirror_refs fs, is_mirror_iff f.type)

  Any-backend_refs :
      (rules : List HttpRouteRule) → Any P (backend_refs rules) ↔ Any (RefersTo P) rules
  unfolding backend_refs
  Any-backend_refs [] = ground arith
  Any-backend_refs (r ∷ rs) = ground (
    arith,
    Any-backend_refs rs,
    Any-mirror_refs r.filters,
    Any-map (λ (b : HttpBackendRef). b.backend_object_reference) P r.backend_refs,
    Any-append P (mirror_refs r.filters) (backend_refs rs),
    Any-append P (map (λ (b : HttpBackendRef). b.backend_object_reference) r.backend_refs)
        (mirror_refs r.filters ++ backend_refs rs),
  )

abbrev pub keys : Dict ObjRef Bool → List ObjRef
keys = map (λ (e : ObjRef × Bool). e.0)

In-keys-set :
    (o k : ObjRef) (b : Bool) (m : Dict ObjRef Bool)
    → In o (keys (set k b m)) ↔ (In o (keys m) ⊎ (k ≡ o))
unfolding set
In-keys-set o k b [] = ground arith
In-keys-set o k b ((j, w) ∷ m) = ground (arith, In-keys-set o k b m)

In-keys-result_set :
    (o : ObjRef) (refs : List ObjRef) (m : Dict ObjRef Bool)
    → In o (keys (result_set refs m)) ↔ (In o refs ⊎ In o (keys m))
unfolding result_set
In-keys-result_set o [] m = ground arith
In-keys-result_set o (r ∷ rs) m =
    ground (arith, In-keys-result_set o rs (set r true m), In-keys-set o r true m)

-- `find_backend_refs_for_http_route` lists a reference exactly when some rule of the HTTPRoute
-- names it, in its BackendRefs or in the body of one of the rule's own RequestMirror filters.
pub In-find_backend_refs :
    (http_route : HttpRoute) (o : ObjRef)
    → In o (find_backend_refs_for_http_route http_route)
      ↔ Any (RefersTo (λ ref. backend_obj_ref http_route ref ≡ o)) http_route.spec.rules
unfolding find_backend_refs_for_http_route
In-find_backend_refs http_route o = ground (
  arith,
  In-keys-result_set o (map (backend_obj_ref http_route) (backend_refs http_route.spec.rules)) [],
  Any-map (backend_obj_ref http_route) (λ y. y ≡ o) (backend_refs http_route.spec.rules),
  Any-backend_refs (λ ref. backend_obj_ref http_route ref ≡ o) http_route.spec.rules,
)

-- Each element stands once.
abbrev pub Unique : List ObjRef → Type 0
Unique [] = Unit
Unique (x ∷ xs) = ¬ (In x xs) × Unique xs

keys-set-Unique :
    (k : ObjRef) (b : Bool) (m : Dict ObjRef Bool) → Unique (keys m) → Unique (keys (set k b m))
unfolding set
keys-set-Unique k b [] u = ground arith
keys-set-Unique k b ((j, w) ∷ m) u = ground (arith, keys-set-Unique k b m, In-keys-set j k b m)

keys-result_set-Unique :
    (refs : List ObjRef) (m : Dict ObjRef Bool)
    → Unique (keys m)
    → Unique (keys (result_set refs m))
unfolding result_set
keys-result_set-Unique [] m u = u
keys-result_set-Unique (r ∷ rs) m u =
    keys-result_set-Unique rs (set r true m) (keys-set-Unique r true m u)

-- `find_backend_refs_for_http_route` lists no reference twice, however often the rules name it.
pub find_backend_refs-Unique :
    (http_route : HttpRoute) → Unique (find_backend_refs_for_http_route http_route)
unfolding find_backend_refs_for_http_route
find_backend_refs-Unique http_route =
    keys-result_set-Unique (map (backend_obj_ref http_route) (backend_refs http_route.spec.rules))
      [] tt

-- The "to" entry exposes the resource: same group, same kind, and no name, an empty one or its.
abbrev pub Covers : ObjRef → ReferenceGrantTo → Type 0
Covers resource to =
    (to.group ≡ resource.group)
    × (to.kind ≡ resource.kind)
    × ((to.name ≡ none) ⊎ (to.name ≡ some "") ⊎ (to.name ≡ some resource.name))

exposed_by_iff :
    (resource : ObjRef) (tos : List ReferenceGrantTo)
    → (exposed_by resource tos ≡ true) ↔ Any (Covers resource) tos
unfolding exposed_by
exposed_by_iff resource [] = ground arith
exposed_by_iff resource (to ∷ tos) = ground (arith, exposed_by_iff resource tos)

-- A ReferenceGrant exposes a resource exactly when it stands in the resource's namespace and one
-- of its "to" entries covers the resource.
pub reference_grant_exposes_iff :
    (reference_grant : ReferenceGrant) (resource : ObjRef)
    → (reference_grant_exposes reference_grant resource ≡ true) ↔ (
        (reference_grant.metadata.namespace ≡ resource.namespace)
        × Any (Covers resource) reference_grant.spec.to)
unfolding reference_grant_exposes
reference_grant_exposes_iff reference_grant resource =
    ground (arith, exposed_by_iff resource reference_grant.spec.to)

abbrev pub Admits : ObjRef → ReferenceGrantFrom → Type 0
Admits resource from =
    (from.group ≡ resource.group)
    × (from.kind ≡ resource.kind)
    × (from.namespace ≡ resource.namespace)

accepted_by_iff :
    (resource : ObjRef) (froms : List ReferenceGrantFrom)
    → (accepted_by (record resource { name = "" }) froms ≡ true) ↔ Any (Admits resource) froms
unfolding accepted_by
accepted_by_iff resource [] = ground arith
accepted_by_iff resource (from ∷ froms) = ground (arith, accepted_by_iff resource froms)

-- A ReferenceGrant accepts references from a resource exactly when one of its "from" entries has
-- the resource's group, kind and namespace; the resource's name plays no part.
pub reference_grant_accepts_iff :
    (reference_grant : ReferenceGrant) (resource : ObjRef)
    → (reference_grant_accepts reference_grant resource ≡ true)
      ↔ Any (Admits resource) reference_grant.spec.from
unfolding reference_grant_accepts
reference_grant_accepts_iff reference_grant resource =
    accepted_by_iff resource reference_grant.spec.from
