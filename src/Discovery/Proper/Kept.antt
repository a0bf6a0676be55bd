-- ===== src/Discovery/Proper/Kept.antt =====
-- Every model that is built from the empty one is proper.
use gateway_api.Prelude.Dict.{get}
use gateway_api.Policy.Machinery.{Machinery}
use gateway_api.Discovery.Id.{resource_id_key}
use gateway_api.Discovery.Model.{ResourceModel, empty_model}
use gateway_api.Discovery.Connect.Links.Built.{
  Step, Built, nothing, called, gateway_classes_added, namespaces_added, gateways_added,
  http_routes_added, backends_added, reference_grants_added, policies_added,
  gateway_class_connected, gateway_connected, backend_connected, gateway_placed, http_route_placed,
  backend_placed, reference_grant_connected, gateway_error_noted, http_route_error_noted,
  backend_error_noted, events_noted,
}
use gateway_api.Discovery.Proper.{IsProper}
use gateway_api.Discovery.Proper.Steps.{
  add_gateway_classes-IsProper, add_namespace-IsProper, add_reference_grants-IsProper,
  add_gateways-IsProper, add_http_routes-IsProper, add_backends-IsProper,
  connect_gateway_with_gateway_class-IsProper, connect_gateway_with_namespace-IsProper,
  connect_http_route_with_namespace-IsProper, connect_backend_with_namespace-IsProper,
  connect_reference_grant_with_backend-IsProper, connect_http_route_with_gateway-IsProper,
  connect_http_route_with_backend-IsProper, note_gateway_error-IsProper, note_events-IsProper,
  note_http_route_error-IsProper, note_backend_error-IsProper,
}
use gateway_api.Discovery.Proper.Attached.{add_policy_if_target_exists-IsProper}

module _ (k : Machinery) where
  Step-IsProper : {old new : ResourceModel} → Step k old new → IsProper old → IsProper new
  Step-IsProper (gateway_classes_added l rm) h = add_gateway_classes-IsProper l rm h
  Step-IsProper (namespaces_added l rm) h = add_namespace-IsProper l rm h
  Step-IsProper (gateways_added l rm) h = add_gateways-IsProper l rm h
  Step-IsProper (http_routes_added l rm) h = add_http_routes-IsProper l rm h
  Step-IsProper (backends_added l rm) h = add_backends-IsProper k l rm h
  Step-IsProper (reference_grants_added l rm) h = add_reference_grants-IsProper l rm h
  Step-IsProper (policies_added l rm) h = add_policy_if_target_exists-IsProper k l rm h
  Step-IsProper (gateway_class_connected a b rm) h =
      connect_gateway_with_gateway_class-IsProper rm h a b
  Step-IsProper (gateway_connected a b rm) h = connect_http_route_with_gateway-IsProper rm h a b
  Step-IsProper (backend_connected a b rm) h = connect_http_route_with_backend-IsProper rm h a b
  Step-IsProper (gateway_placed a b rm) h = connect_gateway_with_namespace-IsProper rm h a b
  Step-IsProper (http_route_placed a b rm) h = connect_http_route_with_namespace-IsProper rm h a b
  Step-IsProper (backend_placed a b rm) h = connect_backend_with_namespace-IsProper rm h a b
  Step-IsProper (reference_grant_connected a b rm) h =
      connect_reference_grant_with_backend-IsProper rm h a b
  Step-IsProper (gateway_error_noted a e rm) h = note_gateway_error-IsProper rm h a e
  Step-IsProper (http_route_error_noted a e rm) h = note_http_route_error-IsProper rm h a e
  Step-IsProper (backend_error_noted a e rm) h = note_backend_error-IsProper rm h a e
  Step-IsProper (events_noted a l rm) h = note_events-IsProper rm h a l

  empty_model-IsProper : IsProper empty_model
  unfolding get
  empty_model-IsProper = record {
    gateways = record { once = tt; every = λ id node found. absurd (cc) };
    http_routes = record { once = tt; every = λ id node found. absurd (cc) };
    backends = record { once = tt; every = λ id node found. tt };
  }

  pub Built-IsProper : {rm : ResourceModel} → Built k rm → IsProper rm
  Built-IsProper nothing = empty_model-IsProper
  Built-IsProper (called before step) = Step-IsProper step (Built-IsProper before)
