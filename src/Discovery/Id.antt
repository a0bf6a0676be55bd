-- ===== src/Discovery/Id.antt =====
-- The ids of gwctl/pkg/resourcediscovery/nodes.go.
use gateway_api.Prelude.{String, ◌⧺◌, Key, String-discrete, string_key}
use gateway_api.Prelude.Text.{to_lower}
use gateway_api.Relations.{or_default}

-- `resourceID`
pub record ResourceId : Type 0 where
  pub group : String
  pub kind : String
  pub namespace : String
  pub name : String

unfoldable pub ResourceId-discrete : Discrete ResourceId
ResourceId-discrete = hlevel String-discrete

instance abbrev pub resource_id_key : Key ResourceId
resource_id_key = record { dec = ResourceId-discrete }

-- `gatewayClassID`, `namespaceID`, …: each has the underlying type `resourceID`.
abbrev pub GatewayClassId : Type 0
GatewayClassId = ResourceId

abbrev pub NamespaceId : Type 0
NamespaceId = ResourceId

abbrev pub GatewayId : Type 0
GatewayId = ResourceId

abbrev pub HttpRouteId : Type 0
HttpRouteId = ResourceId

abbrev pub BackendId : Type 0
BackendId = ResourceId

abbrev pub ReferenceGrantId : Type 0
ReferenceGrantId = ResourceId

abbrev pub PolicyId : Type 0
PolicyId = ResourceId

-- `resourceID{}`
abbrev pub empty_id : ResourceId
empty_id = record { group = ""; kind = ""; namespace = ""; name = "" }

-- `resourceID.String`
unfoldable pub to_string : ResourceId → String
to_string r = r.group ⧺ ("|" ⧺ (r.kind ⧺ ("|" ⧺ (r.namespace ⧺ ("|" ⧺ r.name)))))

unfoldable pub gateway_class_id : String → GatewayClassId
gateway_class_id name = record empty_id { name = name }

unfoldable pub namespace_id : String → NamespaceId
unfolding or_default
namespace_id name = record empty_id { name = or_default name }

unfoldable pub gateway_id : String → String → GatewayId
unfolding or_default
gateway_id namespace name = record empty_id { namespace = or_default namespace; name = name }

unfoldable pub http_route_id : String → String → HttpRouteId
unfolding or_default
http_route_id namespace name = record empty_id { namespace = or_default namespace; name = name }

unfoldable pub backend_id : String → String → String → String → BackendId
backend_id group kind namespace name = record {
  group = to_lower group;
  kind = to_lower kind;
  namespace = namespace;
  name = name;
}

unfoldable pub backend_id_for_service : String → String → BackendId
unfolding backend_id
backend_id_for_service namespace name = backend_id "" "service" namespace name

unfoldable pub policy_id : String → String → String → String → PolicyId
policy_id group kind namespace name = record {
  group = to_lower group;
  kind = to_lower kind;
  namespace = namespace;
  name = name;
}

unfoldable pub reference_grant_id : String → String → ReferenceGrantId
reference_grant_id namespace name = record empty_id { namespace = namespace; name = name }

-- `gatewayID.MarshalText`
unfoldable pub marshal_text : GatewayId → String
marshal_text g = g.namespace ⧺ ("/" ⧺ g.name)
