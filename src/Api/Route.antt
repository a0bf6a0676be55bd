-- ===== src/Api/Route.antt =====
-- apis/v1/httproute_types.go, apis/v1/shared_types.go and apis/v1/object_reference_types.go.
use gateway_api.Prelude.{ℕ, String, Option, List}
use gateway_api.Api.Meta.{TypeMeta, ObjectMeta}

-- `BackendObjectReference`: a nil pointer is `none`.
pub record BackendObjectReference : Type 0 where
  pub group : Option String
  pub kind : Option String
  pub name : String
  pub namespace : Option String
  pub port : Option ℕ

-- `ParentReference`
pub record ParentReference : Type 0 where
  pub group : Option String
  pub kind : Option String
  pub namespace : Option String
  pub name : String
  pub section_name : Option String
  pub port : Option ℕ

-- `HTTPRequestMirrorFilter`
pub record HttpRequestMirrorFilter : Type 0 where
  pub backend_ref : BackendObjectReference

-- `HTTPRouteFilterType`
pub data HttpRouteFilterType : Type 0 where
  request_header_modifier response_header_modifier : HttpRouteFilterType
  request_mirror request_redirect url_rewrite extension_ref : HttpRouteFilterType

-- `HTTPRouteFilter`: the discriminator, and the body of a mirror.
pub record HttpRouteFilter : Type 0 where
  pub type : HttpRouteFilterType
  pub request_mirror_body : Option HttpRequestMirrorFilter

-- `HTTPBackendRef`, whose embedded `BackendRef` embeds a `BackendObjectReference`.
pub record HttpBackendRef : Type 0 where
  pub backend_object_reference : BackendObjectReference
  pub weight : Option ℕ
  pub filters : List HttpRouteFilter

-- `HTTPRouteRule`
pub record HttpRouteRule : Type 0 where
  pub filters : List HttpRouteFilter
  pub backend_refs : List HttpBackendRef

-- `HTTPRouteSpec`, with the `ParentRefs` of the embedded `CommonRouteSpec`.
pub record HttpRouteSpec : Type 0 where
  pub parent_refs : List ParentReference
  pub hostnames : List String
  pub rules : List HttpRouteRule

pub record HttpRoute : Type 0 where
  pub type_meta : TypeMeta
  pub metadata : ObjectMeta
  pub spec : HttpRouteSpec
