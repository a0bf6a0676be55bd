-- ===== src/Conformance/Profiles.antt =====
-- conformance/utils/suite/profiles.go: groups of features that a test can belong to. The map of the
-- registered profiles, a global variable, is an argument.
use gateway_api.Prelude.{
  String, Bool, true, Option, none, some, List, [], ◌∷◌, ◌&&◌, ◌||◌, string_key, if◌then◌else◌,
}
use gateway_api.Prelude.Dict.{Dict, get, set, has}
use gateway_api.Prelude.Sets.{NameSet, contains, insert, insert_all}
use gateway_api.Conformance.Features.{
  SupportedFeature, support_gateway, support_reference_grant, support_http_route, support_tls_route,
  support_grpc_route, support_mesh, support_mesh_cluster_ip_matching, support_mesh_consumer_route,
  gateway_extended_features, http_route_extended_features,
}

-- `ConformanceTest` of conformance/utils/suite/conformance.go, without its body.
pub record ConformanceTest : Type 0 where
  pub short_name : String
  pub features : List SupportedFeature
  pub manifests : List String
  pub parallel : Bool

-- `ConformanceProfileName`
abbrev pub ConformanceProfileName : Type 0
ConformanceProfileName = String

pub record ConformanceProfile : Type 0 where
  pub name : ConformanceProfileName
  pub core_features : NameSet
  pub extended_features : NameSet

abbrev pub Profiles : Type 0
Profiles = Dict ConformanceProfileName ConformanceProfile

abbrev pub gateway_http_profile_name : ConformanceProfileName
gateway_http_profile_name = "GATEWAY-HTTP"

abbrev pub gateway_tls_profile_name : ConformanceProfileName
gateway_tls_profile_name = "GATEWAY-TLS"

abbrev pub gateway_grpc_profile_name : ConformanceProfileName
gateway_grpc_profile_name = "GATEWAY-GRPC"

abbrev pub mesh_http_profile_name : ConformanceProfileName
mesh_http_profile_name = "MESH-HTTP"

abbrev pub mesh_grpc_profile_name : ConformanceProfileName
mesh_grpc_profile_name = "MESH-GRPC"

unfoldable pub gateway_http_profile : ConformanceProfile
unfolding insert_all
gateway_http_profile = record {
  name = gateway_http_profile_name;
  core_features = support_gateway ∷ support_reference_grant ∷ support_http_route ∷ [];
  extended_features =
      insert_all http_route_extended_features (insert_all gateway_extended_features []);
}

abbrev pub gateway_tls_profile : ConformanceProfile
gateway_tls_profile = record {
  name = gateway_tls_profile_name;
  core_features = support_gateway ∷ support_reference_grant ∷ support_tls_route ∷ [];
  extended_features = gateway_extended_features;
}

abbrev pub gateway_grpc_profile : ConformanceProfile
gateway_grpc_profile = record {
  name = gateway_grpc_profile_name;
  core_features = support_gateway ∷ support_reference_grant ∷ support_grpc_route ∷ [];
  extended_features = gateway_extended_features;
}

unfoldable pub mesh_http_profile : ConformanceProfile
unfolding insert insert_all
mesh_http_profile = record {
  name = mesh_http_profile_name;
  core_features = support_mesh ∷ support_http_route ∷ [];
  extended_features =
      insert support_mesh_consumer_route
        (insert support_mesh_cluster_ip_matching (insert_all http_route_extended_features []));
}

-- Its name is that of the profile before.
unfoldable pub mesh_grpc_profile : ConformanceProfile
unfolding insert
mesh_grpc_profile = record {
  name = mesh_http_profile_name;
  core_features = support_mesh ∷ support_grpc_route ∷ [];
  extended_features =
      insert support_mesh_consumer_route (insert support_mesh_cluster_ip_matching []);
}

-- `conformanceProfileMap`, as the package declares it.
unfoldable pub conformance_profile_map : Profiles
unfolding gateway_http_profile mesh_http_profile mesh_grpc_profile
conformance_profile_map =
    (gateway_http_profile_name, gateway_http_profile)
    ∷ (gateway_tls_profile_name, gateway_tls_profile)
    ∷ (gateway_grpc_profile_name, gateway_grpc_profile)
    ∷ (mesh_http_profile_name, mesh_http_profile)
    ∷ (mesh_grpc_profile_name, mesh_grpc_profile)
    ∷ []

-- `RegisterConformanceProfile`: a name that is registered already panics.
unfoldable pub register_conformance_profile : ConformanceProfile → Profiles → Option Profiles
register_conformance_profile p profiles =
    if has p.name profiles then none else some (set p.name p profiles)

-- `conformanceProfileMap[name]`: a missing key reads as the zero profile.
abbrev pub profile_named : ConformanceProfileName → Profiles → ConformanceProfile
profile_named name profiles = elim (get name profiles) [
  | none ↦ record { name = ""; core_features = []; extended_features = [] }
  | some profile ↦ profile
]

-- Every feature of the test is one of the profile's, core or extended.
unfoldable pub has_all_features : ConformanceProfile → List SupportedFeature → Bool
has_all_features cp [] = true
has_all_features cp (feature ∷ rest) =
    (contains feature cp.core_features || contains feature cp.extended_features)
    && has_all_features cp rest

-- `getConformanceProfilesForTest`: the profiles of the names of which the test needs no other
-- feature.
unfoldable pub get_conformance_profiles_for_test :
    Profiles → ConformanceTest → List ConformanceProfileName → List ConformanceProfile
unfolding has_all_features
get_conformance_profiles_for_test profiles test [] = []
get_conformance_profiles_for_test profiles test (name ∷ rest) =
    let later = get_conformance_profiles_for_test profiles test rest in
    if has_all_features (profile_named name profiles) test.features
    then profile_named name profiles ∷ later
    else later
