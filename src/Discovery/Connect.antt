-- ===== src/Discovery/Connect.antt =====
-- The `connect…` methods of gwctl/pkg/resourcediscovery/resourcemodel.go: both nodes must be there.
pub mod Links
use gateway_api.Prelude.{none, some}
use gateway_api.Prelude.Dict.{get, set}
use gateway_api.Discovery.Id.{
  GatewayClassId, NamespaceId, GatewayId, HttpRouteId, BackendId, ReferenceGrantId, resource_id_key,
}
use gateway_api.Discovery.Node.{
  GatewayClassNode, GatewayNode, HttpRouteNode, BackendNode, NamespaceNode, ReferenceGrantNode,
}
use gateway_api.Discovery.Model.{ResourceModel}

unfoldable pub connect_gateway_with_gateway_class :
    GatewayId → GatewayClassId → ResourceModel → ResourceModel
connect_gateway_with_gateway_class gateway_id gateway_class_id rm =
    elim (get gateway_id rm.gateways) [
      | none ↦ rm
      | some gateway_node ↦ elim (get gateway_class_id rm.gateway_classes) [
        | none ↦ rm
        | some gateway_class_node ↦ record rm {
          gateways =
              set gateway_id (record gateway_node { gateway_class = some gateway_class_id })
                rm.gateways;
          gateway_classes =
              set gateway_class_id
                (record gateway_class_node {
                  gateways = set gateway_id gateway_id gateway_class_node.gateways;
                })
                rm.gateway_classes;
        }
      ]
    ]

unfoldable pub connect_http_route_with_gateway :
    HttpRouteId → GatewayId → ResourceModel → ResourceModel
connect_http_route_with_gateway http_route_id gateway_id rm =
    elim (get http_route_id rm.http_routes) [
      | none ↦ rm
      | some http_route_node ↦ elim (get gateway_id rm.gateways) [
        | none ↦ rm
        | some gateway_node ↦ record rm {
          http_routes =
              set http_route_id
                (record http_route_node {
                  gateways = set gateway_id gateway_id http_route_node.gateways;
                })
                rm.http_routes;
          gateways =
              set gateway_id
                (record gateway_node {
                  http_routes = set http_route_id http_route_id gateway_node.http_routes;
                })
                rm.gateways;
        }
      ]
    ]

unfoldable pub connect_http_route_with_backend :
    HttpRouteId → BackendId → ResourceModel → ResourceModel
connect_http_route_with_backend http_route_id backend_id rm =
    elim (get http_route_id rm.http_routes) [
      | none ↦ rm
      | some http_route_node ↦ elim (get backend_id rm.backends) [
        | none ↦ rm
        | some backend_node ↦ record rm {
          http_routes =
              set http_route_id
                (record http_route_node {
                  backends = set backend_id backend_id http_route_node.backends;
                })
                rm.http_routes;
          backends =
              set backend_id
                (record backend_node {
                  http_routes = set http_route_id http_route_id backend_node.http_routes;
                })
                rm.backends;
        }
      ]
    ]

unfoldable pub connect_gateway_with_namespace :
    GatewayId → NamespaceId → ResourceModel → ResourceModel
connect_gateway_with_namespace gateway_id namespace_id rm = elim (get gateway_id rm.gateways) [
  | none ↦ rm
  | some gateway_node ↦ elim (get namespace_id rm.namespaces) [
    | none ↦ rm
    | some namespace_node ↦ record rm {
      gateways = set gateway_id (record gateway_node { namespace = some namespace_id }) rm.gateways;
      namespaces =
          set namespace_id
            (record namespace_node { gateways = set gateway_id gateway_id namespace_node.gateways })
            rm.namespaces;
    }
  ]
]

unfoldable pub connect_http_route_with_namespace :
    HttpRouteId → NamespaceId → ResourceModel → ResourceModel
connect_http_route_with_namespace http_route_id namespace_id rm =
    elim (get http_route_id rm.http_routes) [
      | none ↦ rm
      | some http_route_node ↦ elim (get namespace_id rm.namespaces) [
        | none ↦ rm
        | some namespace_node ↦ record rm {
          http_routes =
              set http_route_id (record http_route_node { namespace = some namespace_id })
                rm.http_routes;
          namespaces =
              set namespace_id
                (record namespace_node {
                  http_routes = set http_route_id http_route_id namespace_node.http_routes;
                })
                rm.namespaces;
        }
      ]
    ]

unfoldable pub connect_backend_with_namespace :
    BackendId → NamespaceId → ResourceModel → ResourceModel
connect_backend_with_namespace backend_id namespace_id rm = elim (get backend_id rm.backends) [
  | none ↦ rm
  | some backend_node ↦ elim (get namespace_id rm.namespaces) [
    | none ↦ rm
    | some namespace_node ↦ record rm {
      backends = set backend_id (record backend_node { namespace = some namespace_id }) rm.backends;
      namespaces =
          set namespace_id
            (record namespace_node { backends = set backend_id backend_id namespace_node.backends })
            rm.namespaces;
    }
  ]
]

unfoldable pub connect_reference_grant_with_backend :
    ReferenceGrantId → BackendId → ResourceModel → ResourceModel
connect_reference_grant_with_backend reference_grant_id backend_id rm =
    elim (get reference_grant_id rm.reference_grants) [
      | none ↦ rm
      | some reference_grant_node ↦ elim (get backend_id rm.backends) [
        | none ↦ rm
        | some backend_node ↦ record rm {
          reference_grants =
              set reference_grant_id
                (record reference_grant_node {
                  backends = set backend_id backend_id reference_grant_node.backends;
                })
                rm.reference_grants;
          backends =
              set backend_id
                (record backend_node {
                  reference_grants =
                      set reference_grant_id reference_grant_id backend_node.reference_grants;
                })
                rm.backends;
        }
      ]
    ]
