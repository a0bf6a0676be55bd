-- ===== src/Discovery/Client.antt =====
-- The state of `Discoverer` of gwctl/pkg/resourcediscovery/discoverer.go, and the clients of the
-- Kubernetes API that it calls, which are a parameter.
use gateway_api.Prelude.{String, ℕ, Bool, Option, List, [], ◌∷◌, ◌≐◌, string_key, if◌then◌else◌}
use gateway_api.Prelude.Outcome.{Reply, value, error}
use gateway_api.Api.Meta.{Event}
use gateway_api.Api.Route.{HttpRoute}
use gateway_api.Api.Gateway.{Gateway, GatewayClass, Namespace}
use gateway_api.Api.Grant.{ReferenceGrant}
use gateway_api.Policy.Value.{Object}
use gateway_api.Policy.Manager.{PolicyManager, GroupVersionResource}

-- `schema.GroupVersion`
pub record GroupVersion : Type 0 where
  pub group : String
  pub version : String

-- `metav1.APIResourceList`: the group and version, and the kinds of its resources.
pub record ApiResourceList : Type 0 where
  pub group_version : String
  pub api_resources : List String

-- The field selectors and the limit with which events are listed.
pub record EventOptions : Type 0 where
  pub involved_kind : String
  pub involved_name : String
  pub involved_namespace : String
  pub involved_uid : String
  pub limit : ℕ

-- `common.K8sClients`. An object is fetched from a namespace, or from none; a list has the text of
-- a label selector. The conversions are those of `DefaultUnstructuredConverter.FromUnstructured`.
pub record K8sClients : Type 1 where
  -- `labels.Selector`, with `String()` and `labels.Everything()`
  pub Selector : Type 0
  pub selector_text : Selector → String
  pub everything : Selector
  -- `DC.Resource(gvr).Namespace(…).Get(…)` and `.List(…)`
  pub get_object : GroupVersionResource → Option String → String → Reply Object
  pub list_objects : GroupVersionResource → Option String → String → Reply (List Object)
  pub to_gateway_class : Object → Reply GatewayClass
  pub to_gateway : Object → Reply Gateway
  pub to_http_route : Object → Reply HttpRoute
  pub to_reference_grant : Object → Reply ReferenceGrant
  pub to_gateway_classes : List Object → Reply (List GatewayClass)
  pub to_gateways : List Object → Reply (List Gateway)
  pub to_http_routes : List Object → Reply (List HttpRoute)
  pub to_reference_grants : List Object → Reply (List ReferenceGrant)
  -- `Client.Get` and `Client.List`
  pub get_namespace : String → Reply Namespace
  pub list_namespaces : String → Option Selector → Reply (List Namespace)
  pub list_events : EventOptions → Reply (List Event)
  -- `apierrors.IsNotFound`
  pub is_not_found : String → Bool
  -- `schema.FromAPIVersionAndKind(…).Group`
  pub group_of_api_version : String → String
  -- `DiscoveryClient.ServerPreferredResources()`
  pub server_preferred_resources : Reply (List ApiResourceList)
  -- `schema.ParseGroupVersion`
  pub parse_group_version : String → Reply GroupVersion

-- `Filter`: nil labels are `none`.
pub record Filter (Selector : Type 0) : Type 0 where
  pub namespace : String
  pub name : String
  pub labels : Option Selector

pub record Discoverer : Type 1 where
  pub k8s_clients : K8sClients
  pub policy_manager : PolicyManager
  pub preferred_gateway_class_group_version : GroupVersion
  pub preferred_gateway_group_version : GroupVersion
  pub preferred_http_route_group_version : GroupVersion
  pub preferred_reference_grant_group_version : GroupVersion

-- `gatewayv1.GroupVersion` and `gatewayv1beta1.GroupVersion`
abbrev pub gateway_group : String
gateway_group = "gateway.networking.k8s.io"

abbrev pub default_gateway_class_group_version : GroupVersion
default_gateway_class_group_version = record { group = gateway_group; version = "v1" }

abbrev pub default_gateway_group_version : GroupVersion
default_gateway_group_version = record { group = gateway_group; version = "v1" }

abbrev pub default_http_route_group_version : GroupVersion
default_http_route_group_version = record { group = gateway_group; version = "v1" }

abbrev pub default_reference_grant_group_version : GroupVersion
default_reference_grant_group_version = record { group = gateway_group; version = "v1beta1" }

-- `metav1.GroupVersion{}`
abbrev pub no_group_version : GroupVersion
no_group_version = record { group = ""; version = "" }

-- The switch over the kind of a resource.
unfoldable pub prefer : String → String → Discoverer → Discoverer
prefer version kind d =
    if kind ≐ "GatewayClass"
    then record d {
      preferred_gateway_class_group_version = record (d.preferred_gateway_class_group_version) {
        version = version;
      };
    }
    else if kind ≐ "Gateway"
    then record d {
      preferred_gateway_group_version = record (d.preferred_gateway_group_version) {
        version = version;
      };
    }
    else if kind ≐ "HTTPRoute"
    then record d {
      preferred_http_route_group_version = record (d.preferred_http_route_group_version) {
        version = version;
      };
    }
    else d

unfoldable pub prefer_kinds : String → List String → Discoverer → Discoverer
unfolding prefer
prefer_kinds version [] d = d
prefer_kinds version (kind ∷ rest) d = prefer_kinds version rest (prefer version kind d)

-- The body of the loop over the resource lists. The test for an empty list saves a parse.
unfoldable pub prefer_list : ApiResourceList → Discoverer → Discoverer
unfolding prefer_kinds
prefer_list resources d = elim resources.api_resources [
  | [] ↦ d
  | kind ∷ kinds ↦ elim (K8sClients.parse_group_version d.k8s_clients resources.group_version) [
    | error _ ↦ d
    | value gv ↦ if gv.group ≐ gateway_group then prefer_kinds gv.version (kind ∷ kinds) d else d
  ]
]

unfoldable pub prefer_lists : List ApiResourceList → Discoverer → Discoverer
unfolding prefer_list
prefer_lists [] d = d
prefer_lists (resources ∷ rest) d = prefer_lists rest (prefer_list resources d)

-- `initPreferredResourceVersions`: after an error, which is logged, nothing is changed.
unfoldable pub init_preferred_resource_versions : Discoverer → Discoverer
unfolding prefer_lists
init_preferred_resource_versions d = elim (K8sClients.server_preferred_resources d.k8s_clients) [
  | error _ ↦ d
  | value lists ↦ prefer_lists lists d
]

-- `NewDiscoverer`
unfoldable pub new_discoverer : K8sClients → PolicyManager → Discoverer
unfolding init_preferred_resource_versions
new_discoverer k8s_clients policy_manager = init_preferred_resource_versions (record {
  k8s_clients = k8s_clients;
  policy_manager = policy_manager;
  preferred_gateway_class_group_version = default_gateway_class_group_version;
  preferred_gateway_group_version = default_gateway_group_version;
  preferred_http_route_group_version = default_http_route_group_version;
  preferred_reference_grant_group_version = no_group_version;
})
