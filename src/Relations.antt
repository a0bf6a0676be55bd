-- ===== src/Relations.antt =====
-- gwctl/pkg/relations/relations.go: how HTTPRoutes, Gateways, Backends and ReferenceGrants refer
-- to one another.
pub mod Laws
use gateway_api.Prelude.{
  String, Option, none, some, Bool, true, false, List, [], ◌∷◌, ◌++◌, map, not, ◌≐◌, ◌||◌,
  string_key, if◌then◌else◌,
}
use gateway_api.Prelude.Dict.{Dict, set}
use gateway_api.Api.Meta.{ObjRef, NamespacedName, obj_ref_key}
use gateway_api.Api.Route.{
  BackendObjectReference, ParentReference, HttpRouteFilterType, request_mirror, HttpRouteFilter,
  HttpBackendRef, HttpRouteRule, HttpRoute,
}
use gateway_api.Api.Gateway.{Gateway}
use gateway_api.Api.Grant.{ReferenceGrantFrom, ReferenceGrantTo, ReferenceGrant}

-- `metav1.NamespaceDefault`
abbrev pub namespace_default : String
namespace_default = "default"

-- `if p != nil { x = *p }`
abbrev pub override : String → Option String → String
override x none = x
override x (some y) = y

-- `if namespace == "" { namespace = metav1.NamespaceDefault }`
unfoldable pub or_default : String → String
or_default namespace = if namespace ≐ "" then namespace_default else namespace

gateway_ref : HttpRoute → ParentReference → NamespacedName
unfolding or_default
gateway_ref http_route ref = record {
  namespace = override (or_default http_route.metadata.namespace) ref.namespace;
  name = ref.name;
}

-- `FindGatewayRefsForHTTPRoute`
unfoldable pub find_gateway_refs_for_http_route : HttpRoute → List NamespacedName
unfolding gateway_ref
find_gateway_refs_for_http_route http_route =
    map (gateway_ref http_route) http_route.spec.parent_refs

-- `FindGatewayClassNameForGateway`
unfoldable pub find_gateway_class_name_for_gateway : Gateway → String
find_gateway_class_name_for_gateway gateway = gateway.spec.gateway_class_name

abbrev is_mirror : HttpRouteFilterType → Bool
is_mirror request_mirror = true
is_mirror _ = false

-- The loop over `rule.Filters`.
mirror_refs : List HttpRouteFilter → List BackendObjectReference
mirror_refs [] = []
mirror_refs (filter ∷ filters) =
    let rest = mirror_refs filters in
    if not (is_mirror filter.type)
    then rest
    else elim filter.request_mirror_body [ none ↦ rest | some mirror ↦ mirror.backend_ref ∷ rest ]

-- The loops that aggregate all BackendRefs.
backend_refs : List HttpRouteRule → List BackendObjectReference
backend_refs [] = []
backend_refs (rule ∷ rules) =
    map (λ (b : HttpBackendRef). b.backend_object_reference) rule.backend_refs
    ++ (mirror_refs rule.filters ++ backend_refs rules)

-- A BackendRef as an ObjRef, which does not use pointers.
unfoldable pub backend_obj_ref : HttpRoute → BackendObjectReference → ObjRef
backend_obj_ref http_route ref = record {
  group = override "" ref.group;
  kind = override "" ref.kind;
  name = ref.name;
  namespace = override http_route.metadata.namespace ref.namespace;
}

-- `resultSet[objRef] = true` for each reference.
result_set : List ObjRef → Dict ObjRef Bool → Dict ObjRef Bool
result_set [] refs = refs
result_set (ref ∷ rest) refs = result_set rest (set ref true refs)

-- `FindBackendRefsForHTTPRoute`
unfoldable pub find_backend_refs_for_http_route : HttpRoute → List ObjRef
unfolding backend_refs mirror_refs backend_obj_ref result_set
find_backend_refs_for_http_route http_route =
    map (λ (e : ObjRef × Bool). e.0)
      (result_set (map (backend_obj_ref http_route) (backend_refs http_route.spec.rules)) [])

-- `to.Name == nil || len(*to.Name) == 0 || *to.Name == resource.Name`
abbrev names : Option String → String → Bool
names none resource_name = true
names (some name) resource_name = name ≐ "" || name ≐ resource_name

exposed_by : ObjRef → List ReferenceGrantTo → Bool
exposed_by resource [] = false
exposed_by resource (to ∷ rest) =
    let later = exposed_by resource rest in
    if not (to.group ≐ resource.group)
    then later
    else if not (to.kind ≐ resource.kind)
    then later
    else if names to.name resource.name
    then true
    else later

-- `ReferenceGrantExposes`
unfoldable pub reference_grant_exposes : ReferenceGrant → ObjRef → Bool
unfolding exposed_by
reference_grant_exposes reference_grant resource =
    if not (reference_grant.metadata.namespace ≐ resource.namespace)
    then false
    else exposed_by resource reference_grant.spec.to

abbrev from_ref : ReferenceGrantFrom → ObjRef
from_ref from = record {
  group = from.group;
  kind = from.kind;
  name = "";
  namespace = from.namespace;
}

accepted_by : ObjRef → List ReferenceGrantFrom → Bool
accepted_by resource [] = false
accepted_by resource (from ∷ rest) =
    let later = accepted_by resource rest in if from_ref from ≐ resource then true else later

-- `ReferenceGrantAccepts`
unfoldable pub reference_grant_accepts : ReferenceGrant → ObjRef → Bool
unfolding accepted_by
reference_grant_accepts reference_grant resource =
    accepted_by (record resource { name = "" }) reference_grant.spec.from
