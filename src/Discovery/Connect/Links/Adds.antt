-- ===== src/Discovery/Connect/Links/Adds.antt =====
-- The methods that add nodes add them without connections.
use gateway_api.Prelude.{List, [], ◌∷◌, some, ◌≡◌, refl, ◌∙◌, string_key}
use gateway_api.Prelude.Dict.{set_if_missing}
use gateway_api.Api.Route.{HttpRoute}
use gateway_api.Api.Gateway.{Gateway, GatewayClass, Namespace}
use gateway_api.Api.Grant.{ReferenceGrant}
use gateway_api.Policy.Value.{Object}
use gateway_api.Policy.Machinery.{Machinery}
use gateway_api.Discovery.Id.{resource_id_key}
use gateway_api.Discovery.Node.{
  GatewayNode, HttpRouteNode, BackendNode, ReferenceGrantNode, new_gateway_class_node,
  new_gateway_node, new_http_route_node, new_backend_node, new_namespace_node,
  new_reference_grant_node, gateway_class_node_id, gateway_node_id, http_route_node_id,
  backend_node_id, namespace_node_id, reference_grant_node_id,
}
use gateway_api.Discovery.Model.{
  ResourceModel, add_gateway_classes, add_namespace, add_gateways, add_http_routes, add_backends,
  add_reference_grants,
}
use gateway_api.Discovery.Connect.Links.Views.{
  View, route_gateways, gateway_routes, route_backends, backend_routes, grant_backends,
  backend_grants, view, AreSame, lists-set_if_missing,
}

pub add_gateway_classes-AreSame :
    (gateway_classes : List GatewayClass) (rm : ResourceModel)
    → AreSame rm (add_gateway_classes gateway_classes rm)
unfolding add_gateway_classes
add_gateway_classes-AreSame [] rm v i j = refl
add_gateway_classes-AreSame (gateway_class ∷ rest) rm v i j =
    let node = new_gateway_class_node (some gateway_class) in
    let after : ResourceModel = record rm {
      gateway_classes = set_if_missing (gateway_class_node_id node) node rm.gateway_classes;
    } in
    add_gateway_classes-AreSame rest after v i j ∙ one v
  where
    one :
        (w : View)
        → view w
            (record rm {
              gateway_classes =
                  set_if_missing
                    (gateway_class_node_id (new_gateway_class_node (some gateway_class)))
                    (new_gateway_class_node (some gateway_class))
                    rm.gateway_classes;
            })
            i
            j
          ≡ view w rm i j
    one route_gateways = refl
    one gateway_routes = refl
    one route_backends = refl
    one backend_routes = refl
    one grant_backends = refl
    one backend_grants = refl

pub add_namespace-AreSame :
    (namespaces : List Namespace) (rm : ResourceModel) → AreSame rm (add_namespace namespaces rm)
unfolding add_namespace
add_namespace-AreSame [] rm v i j = refl
add_namespace-AreSame (namespace ∷ rest) rm v i j =
    let node = new_namespace_node namespace in
    let after : ResourceModel = record rm {
      namespaces = set_if_missing (namespace_node_id node) node rm.namespaces;
    } in
    add_namespace-AreSame rest after v i j ∙ one v
  where
    one :
        (w : View)
        → view w
            (record rm {
              namespaces =
                  set_if_missing
                    (namespace_node_id (new_namespace_node namespace))
                    (new_namespace_node namespace)
                    rm.namespaces;
            })
            i
            j
          ≡ view w rm i j
    one route_gateways = refl
    one gateway_routes = refl
    one route_backends = refl
    one backend_routes = refl
    one grant_backends = refl
    one backend_grants = refl

pub add_gateways-AreSame :
    (gateways : List Gateway) (rm : ResourceModel) → AreSame rm (add_gateways gateways rm)
unfolding add_gateways
add_gateways-AreSame [] rm v i j = refl
add_gateways-AreSame (gateway ∷ rest) rm v i j =
    let node = new_gateway_node (some gateway) in
    let after : ResourceModel = record rm {
      gateways = set_if_missing (gateway_node_id node) node rm.gateways;
    } in
    add_gateways-AreSame rest after v i j ∙ one v
  where
    one :
        (w : View)
        → view w
            (record rm {
              gateways =
                  set_if_missing
                    (gateway_node_id (new_gateway_node (some gateway)))
                    (new_gateway_node (some gateway))
                    rm.gateways;
            })
            i
            j
          ≡ view w rm i j
    one route_gateways = refl
    one gateway_routes =
        lists-set_if_missing (λ (n : GatewayNode). n.http_routes) rm.gateways
          (gateway_node_id (new_gateway_node (some gateway))) (new_gateway_node (some gateway)) refl
          i j
    one route_backends = refl
    one backend_routes = refl
    one grant_backends = refl
    one backend_grants = refl

pub add_http_routes-AreSame :
    (http_routes : List HttpRoute) (rm : ResourceModel)
    → AreSame rm (add_http_routes http_routes rm)
unfolding add_http_routes
add_http_routes-AreSame [] rm v i j = refl
add_http_routes-AreSame (http_route ∷ rest) rm v i j =
    let node = new_http_route_node (some http_route) in
    let after : ResourceModel = record rm {
      http_routes = set_if_missing (http_route_node_id node) node rm.http_routes;
    } in
    add_http_routes-AreSame rest after v i j ∙ one v
  where
    one :
        (w : View)
        → view w
            (record rm {
              http_routes =
                  set_if_missing
                    (http_route_node_id (new_http_route_node (some http_route)))
                    (new_http_route_node (some http_route))
                    rm.http_routes;
            })
            i
            j
          ≡ view w rm i j
    one route_gateways =
        lists-set_if_missing (λ (n : HttpRouteNode). n.gateways) rm.http_routes
          (http_route_node_id (new_http_route_node (some http_route)))
          (new_http_route_node (some http_route)) refl i j
    one gateway_routes = refl
    one route_backends =
        lists-set_if_missing (λ (n : HttpRouteNode). n.backends) rm.http_routes
          (http_route_node_id (new_http_route_node (some http_route)))
          (new_http_route_node (some http_route)) refl i j
    one backend_routes = refl
    one grant_backends = refl
    one backend_grants = refl

pub add_backends-AreSame :
    (k : Machinery) (backends : List Object) (rm : ResourceModel)
    → AreSame rm (add_backends k backends rm)
unfolding add_backends
add_backends-AreSame k [] rm v i j = refl
add_backends-AreSame k (backend ∷ rest) rm v i j =
    let node = new_backend_node (some backend) in
    let after : ResourceModel = record rm {
      backends = set_if_missing (backend_node_id k node) node rm.backends;
    } in
    add_backends-AreSame k rest after v i j ∙ one v
  where
    one :
        (w : View)
        → view w
            (record rm {
              backends =
                  set_if_missing
                    (backend_node_id k (new_backend_node (some backend)))
                    (new_backend_node (some backend))
                    rm.backends;
            })
            i
            j
          ≡ view w rm i j
    one route_gateways = refl
    one gateway_routes = refl
    one route_backends = refl
    one backend_routes =
        lists-set_if_missing (λ (n : BackendNode). n.http_routes) rm.backends
          (backend_node_id k (new_backend_node (some backend))) (new_backend_node (some backend))
          refl i j
    one grant_backends = refl
    one backend_grants =
        lists-set_if_missing (λ (n : BackendNode). n.reference_grants) rm.backends
          (backend_node_id k (new_backend_node (some backend))) (new_backend_node (some backend))
          refl i j

pub add_reference_grants-AreSame :
    (reference_grants : List ReferenceGrant) (rm : ResourceModel)
    → AreSame rm (add_reference_grants reference_grants rm)
unfolding add_reference_grants
add_reference_grants-AreSame [] rm v i j = refl
add_reference_grants-AreSame (reference_grant ∷ rest) rm v i j =
    let node = new_reference_grant_node reference_grant in
    let after : ResourceModel = record rm {
      reference_grants = set_if_missing (reference_grant_node_id node) node rm.reference_grants;
    } in
    add_reference_grants-AreSame rest after v i j ∙ one v
  where
    one :
        (w : View)
        → view w
            (record rm {
              reference_grants =
                  set_if_missing
                    (reference_grant_node_id (new_reference_grant_node reference_grant))
                    (new_reference_grant_node reference_grant)
                    rm.reference_grants;
            })
            i
            j
          ≡ view w rm i j
    one route_gateways = refl
    one gateway_routes = refl
    one route_backends = refl
    one backend_routes = refl
    one grant_backends =
        lists-set_if_missing (λ (n : ReferenceGrantNode). n.backends) rm.reference_grants
          (reference_grant_node_id (new_reference_grant_node reference_grant))
          (new_reference_grant_node reference_grant) refl i j
    one backend_grants = refl
