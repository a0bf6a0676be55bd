-- ===== src/Conformance/Features.antt =====
-- pkg/features/features.go: the features that an implementation may support, and their sets.
use gateway_api.Prelude.{String, [], ◌∷◌}
use gateway_api.Prelude.Sets.{NameSet, insert_all}

-- `SupportedFeature`
abbrev pub SupportedFeature : Type 0
SupportedFeature = String

abbrev pub support_gateway : SupportedFeature
support_gateway = "Gateway"

abbrev pub support_gateway_port8080 : SupportedFeature
support_gateway_port8080 = "GatewayPort8080"

abbrev pub support_gateway_static_addresses : SupportedFeature
support_gateway_static_addresses = "GatewayStaticAddresses"

abbrev pub support_gateway_http_listener_isolation : SupportedFeature
support_gateway_http_listener_isolation = "GatewayHTTPListenerIsolation"

abbrev pub support_reference_grant : SupportedFeature
support_reference_grant = "ReferenceGrant"

abbrev pub support_http_route : SupportedFeature
support_http_route = "HTTPRoute"

abbrev pub support_http_route_backend_request_header_modification : SupportedFeature
support_http_route_backend_request_header_modification = "HTTPRouteBackendRequestHeaderModification"

abbrev pub support_http_route_query_param_matching : SupportedFeature
support_http_route_query_param_matching = "HTTPRouteQueryParamMatching"

abbrev pub support_http_route_method_matching : SupportedFeature
support_http_route_method_matching = "HTTPRouteMethodMatching"

abbrev pub support_http_route_response_header_modification : SupportedFeature
support_http_route_response_header_modification = "HTTPRouteResponseHeaderModification"

abbrev pub support_http_route_port_redirect : SupportedFeature
support_http_route_port_redirect = "HTTPRoutePortRedirect"

abbrev pub support_http_route_scheme_redirect : SupportedFeature
support_http_route_scheme_redirect = "HTTPRouteSchemeRedirect"

abbrev pub support_http_route_path_redirect : SupportedFeature
support_http_route_path_redirect = "HTTPRoutePathRedirect"

abbrev pub support_http_route_host_rewrite : SupportedFeature
support_http_route_host_rewrite = "HTTPRouteHostRewrite"

abbrev pub support_http_route_path_rewrite : SupportedFeature
support_http_route_path_rewrite = "HTTPRoutePathRewrite"

abbrev pub support_http_route_request_mirror : SupportedFeature
support_http_route_request_mirror = "HTTPRouteRequestMirror"

abbrev pub support_http_route_request_multiple_mirrors : SupportedFeature
support_http_route_request_multiple_mirrors = "HTTPRouteRequestMultipleMirrors"

abbrev pub support_http_route_request_timeout : SupportedFeature
support_http_route_request_timeout = "HTTPRouteRequestTimeout"

abbrev pub support_http_route_backend_timeout : SupportedFeature
support_http_route_backend_timeout = "HTTPRouteBackendTimeout"

abbrev pub support_http_route_parent_ref_port : SupportedFeature
support_http_route_parent_ref_port = "HTTPRouteParentRefPort"

abbrev pub support_http_route_destination_port_matching : SupportedFeature
support_http_route_destination_port_matching = "HTTPRouteDestinationPortMatching"

abbrev pub support_http_route_backend_protocol_h2c : SupportedFeature
support_http_route_backend_protocol_h2c = "HTTPRouteBackendProtocolH2C"

abbrev pub support_http_route_backend_protocol_web_socket : SupportedFeature
support_http_route_backend_protocol_web_socket = "HTTPRouteBackendProtocolWebSocket"

abbrev pub support_tls_route : SupportedFeature
support_tls_route = "TLSRoute"

abbrev pub support_udp_route : SupportedFeature
support_udp_route = "UDPRoute"

abbrev pub support_mesh : SupportedFeature
support_mesh = "Mesh"

abbrev pub support_mesh_cluster_ip_matching : SupportedFeature
support_mesh_cluster_ip_matching = "MeshClusterIPMatching"

abbrev pub support_mesh_consumer_route : SupportedFeature
support_mesh_consumer_route = "MeshConsumerRoute"

abbrev pub support_grpc_route : SupportedFeature
support_grpc_route = "GRPCRoute"

abbrev pub gateway_core_features : NameSet
gateway_core_features = support_gateway ∷ []

abbrev pub gateway_extended_features : NameSet
gateway_extended_features =
    support_gateway_port8080 ∷ support_gateway_static_addresses
    ∷ support_gateway_http_listener_isolation ∷ []

abbrev pub reference_grant_core_features : NameSet
reference_grant_core_features = support_reference_grant ∷ []

abbrev pub http_route_core_features : NameSet
http_route_core_features = support_http_route ∷ []

abbrev pub http_route_extended_features : NameSet
http_route_extended_features =
    support_http_route_query_param_matching ∷ support_http_route_method_matching
    ∷ support_http_route_response_header_modification ∷ support_http_route_port_redirect
    ∷ support_http_route_scheme_redirect ∷ support_http_route_path_redirect
    ∷ support_http_route_host_rewrite ∷ support_http_route_path_rewrite
    ∷ support_http_route_request_mirror ∷ support_http_route_request_multiple_mirrors
    ∷ support_http_route_request_timeout ∷ support_http_route_backend_timeout
    ∷ support_http_route_parent_ref_port ∷ support_http_route_backend_request_header_modification
    ∷ []

abbrev pub http_route_experimental_features : NameSet
http_route_experimental_features =
    support_http_route_destination_port_matching ∷ support_http_route_backend_protocol_h2c
    ∷ support_http_route_backend_protocol_web_socket ∷ []

abbrev pub tls_route_core_features : NameSet
tls_route_core_features = support_tls_route ∷ []

abbrev pub udp_route_features : NameSet
udp_route_features = support_udp_route ∷ []

abbrev pub mesh_core_features : NameSet
mesh_core_features = support_mesh ∷ []

abbrev pub mesh_extended_features : NameSet
mesh_extended_features = support_mesh_cluster_ip_matching ∷ support_mesh_consumer_route ∷ []

abbrev pub grpc_route_core_features : NameSet
grpc_route_core_features = support_grpc_route ∷ []

-- Each set is inserted into what those before it give.
unfoldable pub all_features : NameSet
all_features = insert_all grpc_route_core_features (
    insert_all mesh_extended_features (
      insert_all mesh_core_features (
        insert_all tls_route_core_features (
          insert_all http_route_experimental_features (
            insert_all http_route_extended_features (
              insert_all http_route_core_features (
                insert_all reference_grant_core_features (
                  insert_all gateway_extended_features (insert_all gateway_core_features [])))))))))
