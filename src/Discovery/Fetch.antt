-- ===== src/Discovery/Fetch.antt =====
-- The fetches of gwctl/pkg/resourcediscovery/discoverer.go: one object by its name, or a list.
use gateway_api.Prelude.{
  String, Option, none, some, List, [], ◌∷◌, ◌≐◌, ◌&&◌, string_key, if◌then◌else◌,
}
use gateway_api.Prelude.Outcome.{
  Outcome, ok, err, panic, Reply, value, error, lift, ◌>>=◌, not_converted,
}
use gateway_api.Api.Route.{HttpRoute}
use gateway_api.Api.Gateway.{Gateway, GatewayClass, Namespace}
use gateway_api.Api.Grant.{ReferenceGrant}
use gateway_api.Policy.Value.{Object}
use gateway_api.Policy.Manager.{GroupVersionResource}
use gateway_api.Discovery.Client.{
  GroupVersion, Filter, Discoverer, default_gateway_class_group_version,
  default_gateway_group_version, default_http_route_group_version,
  default_reference_grant_group_version,
}

-- `gvr`: the default version, unless a version is preferred.
abbrev pub resource_version : GroupVersion → GroupVersion → String → GroupVersionResource
resource_version default preferred resource = record {
  group = default.group;
  version =
      if preferred.group ≐ "" && preferred.version ≐ "" then default.version else preferred.version;
  resource = resource;
}

abbrev pub structured_as {ℓ} : {A : Type ℓ} → String → Reply A → Outcome A
structured_as kind (value a) = ok a
structured_as kind (error e) = err (not_converted kind e)

-- "Use Get call."
abbrev pub get_call : {A : Type 0} → String → (Object → Reply A) → Reply Object → Outcome (List A)
get_call kind convert reply = do u ← lift reply; a ← structured_as kind (convert u); ok (a ∷ [])

-- "Use List call."
abbrev pub list_call :
    {A : Type 0} → String → (List Object → Reply (List A)) → Reply (List Object) → Outcome (List A)
list_call kind convert reply = do us ← lift reply; structured_as kind (convert us)

module _ (d : Discoverer) where
  open d use {
    k8s_clients, preferred_gateway_class_group_version, preferred_gateway_group_version,
    preferred_http_route_group_version, preferred_reference_grant_group_version,
  }
  open k8s_clients use {
    Selector, selector_text, get_object, list_objects, to_gateway_class, to_gateway, to_http_route,
    to_reference_grant, to_gateway_classes, to_gateways, to_http_routes, to_reference_grants,
    get_namespace, list_namespaces,
  }

  -- `if filter.Labels != nil { labelSelector = filter.Labels.String() }`
  abbrev pub label_selector : Option Selector → String
  label_selector none = ""
  label_selector (some selector) = selector_text selector

  unfoldable pub fetch_gateway_classes : Filter Selector → Outcome (List GatewayClass)
  fetch_gateway_classes filter =
      let gvr =
        resource_version default_gateway_class_group_version preferred_gateway_class_group_version
          "gatewayclasses" in
      if filter.name ≐ ""
      then list_call "GatewayClassList" to_gateway_classes
          (list_objects gvr none (label_selector filter.labels))
      else get_call "GatewayClass" to_gateway_class (get_object gvr none filter.name)

  unfoldable pub fetch_gateways : Filter Selector → Outcome (List Gateway)
  fetch_gateways filter =
      let gvr =
        resource_version default_gateway_group_version preferred_gateway_group_version "gateways" in
      if filter.name ≐ ""
      then list_call "GatewayList" to_gateways
          (list_objects gvr (some filter.namespace) (label_selector filter.labels))
      else get_call "Gateway" to_gateway (get_object gvr (some filter.namespace) filter.name)

  unfoldable pub fetch_http_routes : Filter Selector → Outcome (List HttpRoute)
  fetch_http_routes filter =
      let gvr =
        resource_version default_http_route_group_version preferred_http_route_group_version
          "httproutes" in
      if filter.name ≐ ""
      then list_call "HTTPRouteList" to_http_routes
          (list_objects gvr (some filter.namespace) (label_selector filter.labels))
      else get_call "HTTPRoute" to_http_route (get_object gvr (some filter.namespace) filter.name)

  -- Here nil labels are called, which panics.
  abbrev pub called_selector : Option Selector → Outcome String
  called_selector none = panic
  called_selector (some selector) = ok (selector_text selector)

  unfoldable pub fetch_reference_grants : Filter Selector → Outcome (List ReferenceGrant)
  fetch_reference_grants filter =
      let gvr =
        resource_version default_reference_grant_group_version
          preferred_reference_grant_group_version "referencegrants" in
      if filter.name ≐ ""
      then (called_selector filter.labels >>= λ selector.
          list_call "ReferenceGrantList" to_reference_grants
            (list_objects gvr (some filter.namespace) selector))
      else get_call "ReferenceGrant" to_reference_grant
          (get_object gvr (some filter.namespace) filter.name)

  unfoldable pub fetch_backends : Filter Selector → Outcome (List Object)
  fetch_backends filter =
      let gvr : GroupVersionResource = record {
        group = "";
        version = "v1";
        resource = "services";
      } in
      if filter.name ≐ ""
      then lift (list_objects gvr (some filter.namespace) (label_selector filter.labels))
      else (lift (get_object gvr (some filter.namespace) filter.name) >>= λ u. ok (u ∷ []))

  unfoldable pub fetch_namespace : Filter Selector → Outcome (List Namespace)
  fetch_namespace filter =
      if filter.name ≐ ""
      then lift (list_namespaces filter.namespace filter.labels)
      else (lift (get_namespace filter.name) >>= λ namespace. ok (namespace ∷ []))
