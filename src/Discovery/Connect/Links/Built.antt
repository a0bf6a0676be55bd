-- ===== src/Discovery/Connect/Links/Built.antt =====
-- The models that the methods of `ResourceModel` and the notes of the Discoverer build before the
-- effective policies are computed.
use gateway_api.Prelude.{List, refl}
use gateway_api.Prelude.Dict.{get}
use gateway_api.Api.Meta.{Event}
use gateway_api.Api.Route.{HttpRoute}
use gateway_api.Api.Gateway.{Gateway, GatewayClass, Namespace}
use gateway_api.Api.Grant.{ReferenceGrant}
use gateway_api.Policy.Value.{Object}
use gateway_api.Policy.Object.{Policy}
use gateway_api.Policy.Machinery.{Machinery}
use gateway_api.Discovery.Id.{
  GatewayClassId, NamespaceId, GatewayId, HttpRouteId, BackendId, ReferenceGrantId, resource_id_key,
}
use gateway_api.Discovery.Errors.{NodeError}
use gateway_api.Discovery.Notes.{
  note_gateway_error, note_http_route_error, note_backend_error, note_events,
}
use gateway_api.Discovery.Model.{
  ResourceModel, empty_model, add_gateway_classes, add_namespace, add_gateways, add_http_routes,
  add_backends, add_reference_grants,
}
use gateway_api.Discovery.Attach.{add_policy_if_target_exists}
use gateway_api.Discovery.Connect.{
  connect_gateway_with_gateway_class, connect_http_route_with_gateway,
  connect_http_route_with_backend, connect_gateway_with_namespace,
  connect_http_route_with_namespace, connect_backend_with_namespace,
  connect_reference_grant_with_backend,
}
use gateway_api.Discovery.Connect.Links.Views.{
  route_gateways, gateway_routes, route_backends, backend_routes, grant_backends, backend_grants,
  IsLinked, IsLinked-of_AreSame,
}
use gateway_api.Discovery.Connect.Links.Adds.{
  add_gateway_classes-AreSame, add_namespace-AreSame, add_gateways-AreSame, add_http_routes-AreSame,
  add_backends-AreSame, add_reference_grants-AreSame,
}
use gateway_api.Discovery.Connect.Links.Noted.{
  note_gateway_error-AreSame, note_http_route_error-AreSame, note_backend_error-AreSame,
  note_events-AreSame,
}
use gateway_api.Discovery.Connect.Links.Attached.{add_policy_if_target_exists-AreSame}
use gateway_api.Discovery.Connect.Links.Steps.{
  connect_http_route_with_gateway-IsLinked, connect_http_route_with_backend-IsLinked,
  connect_reference_grant_with_backend-IsLinked,
}
use gateway_api.Discovery.Connect.Links.Pointers.{
  connect_gateway_with_gateway_class-AreSame, connect_gateway_with_namespace-AreSame,
  connect_http_route_with_namespace-AreSame, connect_backend_with_namespace-AreSame,
}

-- One call of a method, or an error or events that are put on a node.
pub data Step (k : Machinery) : ResourceModel → ResourceModel → Type 0 where
  gateway_classes_added :
      (l : List GatewayClass) (rm : ResourceModel) → Step k rm (add_gateway_classes l rm)
  namespaces_added : (l : List Namespace) (rm : ResourceModel) → Step k rm (add_namespace l rm)
  gateways_added : (l : List Gateway) (rm : ResourceModel) → Step k rm (add_gateways l rm)
  http_routes_added : (l : List HttpRoute) (rm : ResourceModel) → Step k rm (add_http_routes l rm)
  backends_added : (l : List Object) (rm : ResourceModel) → Step k rm (add_backends k l rm)
  reference_grants_added :
      (l : List ReferenceGrant) (rm : ResourceModel) → Step k rm (add_reference_grants l rm)
  policies_added :
      (l : List Policy) (rm : ResourceModel) → Step k rm (add_policy_if_target_exists k l rm)
  gateway_class_connected :
      (a : GatewayId) (b : GatewayClassId) (rm : ResourceModel)
      → Step k rm (connect_gateway_with_gateway_class a b rm)
  gateway_connected :
      (a : HttpRouteId) (b : GatewayId) (rm : ResourceModel)
      → Step k rm (connect_http_route_with_gateway a b rm)
  backend_connected :
      (a : HttpRouteId) (b : BackendId) (rm : ResourceModel)
      → Step k rm (connect_http_route_with_backend a b rm)
  gateway_placed :
      (a : GatewayId) (b : NamespaceId) (rm : ResourceModel)
      → Step k rm (connect_gateway_with_namespace a b rm)
  http_route_placed :
      (a : HttpRouteId) (b : NamespaceId) (rm : ResourceModel)
      → Step k rm (connect_http_route_with_namespace a b rm)
  backend_placed :
      (a : BackendId) (b : NamespaceId) (rm : ResourceModel)
      → Step k rm (connect_backend_with_namespace a b rm)
  reference_grant_connected :
      (a : ReferenceGrantId) (b : BackendId) (rm : ResourceModel)
      → Step k rm (connect_reference_grant_with_backend a b rm)
  gateway_error_noted :
      (a : GatewayId) (e : NodeError) (rm : ResourceModel) → Step k rm (note_gateway_error a e rm)
  http_route_error_noted :
      (a : HttpRouteId) (e : NodeError) (rm : ResourceModel)
      → Step k rm (note_http_route_error a e rm)
  backend_error_noted :
      (a : BackendId) (e : NodeError) (rm : ResourceModel) → Step k rm (note_backend_error a e rm)
  events_noted :
      (a : GatewayId) (l : List Event) (rm : ResourceModel) → Step k rm (note_events a l rm)

-- What calls of the methods, in any order, make of the empty model.
pub data Built (k : Machinery) : ResourceModel → Type 0 where
  nothing : Built k empty_model
  called : {old new : ResourceModel} → Built k old → Step k old new → Built k new

module _ (k : Machinery) where
  Step-IsLinked : {old new : ResourceModel} → Step k old new → IsLinked old → IsLinked new
  Step-IsLinked (gateway_classes_added l rm) h =
      IsLinked-of_AreSame rm _ (add_gateway_classes-AreSame l rm) h
  Step-IsLinked (namespaces_added l rm) h = IsLinked-of_AreSame rm _ (add_namespace-AreSame l rm) h
  Step-IsLinked (gateways_added l rm) h = IsLinked-of_AreSame rm _ (add_gateways-AreSame l rm) h
  Step-IsLinked (http_routes_added l rm) h =
      IsLinked-of_AreSame rm _ (add_http_routes-AreSame l rm) h
  Step-IsLinked (backends_added l rm) h = IsLinked-of_AreSame rm _ (add_backends-AreSame k l rm) h
  Step-IsLinked (reference_grants_added l rm) h =
      IsLinked-of_AreSame rm _ (add_reference_grants-AreSame l rm) h
  Step-IsLinked (policies_added l rm) h =
      IsLinked-of_AreSame rm _ (add_policy_if_target_exists-AreSame k l rm) h
  Step-IsLinked (gateway_class_connected a b rm) h =
      IsLinked-of_AreSame rm _ (connect_gateway_with_gateway_class-AreSame a b rm) h
  Step-IsLinked (gateway_connected a b rm) h = connect_http_route_with_gateway-IsLinked a b rm h
  Step-IsLinked (backend_connected a b rm) h = connect_http_route_with_backend-IsLinked a b rm h
  Step-IsLinked (gateway_placed a b rm) h =
      IsLinked-of_AreSame rm _ (connect_gateway_with_namespace-AreSame a b rm) h
  Step-IsLinked (http_route_placed a b rm) h =
      IsLinked-of_AreSame rm _ (connect_http_route_with_namespace-AreSame a b rm) h
  Step-IsLinked (backend_placed a b rm) h =
      IsLinked-of_AreSame rm _ (connect_backend_with_namespace-AreSame a b rm) h
  Step-IsLinked (reference_grant_connected a b rm) h =
      connect_reference_grant_with_backend-IsLinked a b rm h
  Step-IsLinked (gateway_error_noted a e rm) h =
      IsLinked-of_AreSame rm _ (note_gateway_error-AreSame a e rm) h
  Step-IsLinked (http_route_error_noted a e rm) h =
      IsLinked-of_AreSame rm _ (note_http_route_error-AreSame a e rm) h
  Step-IsLinked (backend_error_noted a e rm) h =
      IsLinked-of_AreSame rm _ (note_backend_error-AreSame a e rm) h
  Step-IsLinked (events_noted a l rm) h = IsLinked-of_AreSame rm _ (note_events-AreSame a l rm) h

  empty_model-IsLinked : IsLinked empty_model
  unfolding get
  empty_model-IsLinked route_gateways i j = refl
  empty_model-IsLinked gateway_routes i j = refl
  empty_model-IsLinked route_backends i j = refl
  empty_model-IsLinked backend_routes i j = refl
  empty_model-IsLinked grant_backends i j = refl
  empty_model-IsLinked backend_grants i j = refl

  -- In every model that the methods, and errors and events put on nodes, build from the empty one,
  -- in any order with any arguments, an HTTPRoute lists a Gateway exactly when the Gateway lists the HTTPRoute, and so do
  -- HTTPRoutes and backends, and ReferenceGrants and backends.
  pub Built-IsLinked : {rm : ResourceModel} → Built k rm → IsLinked rm
  Built-IsLinked nothing = empty_model-IsLinked
  Built-IsLinked (called before step) = Step-IsLinked step (Built-IsLinked before)
