-- ===== src/Conformance/Suite.antt =====
-- conformance/utils/suite/suite.go: the suite, and which features it supports. The API server is a
-- parameter.
pub mod Selected
pub mod Results
pub mod Classified
use gateway_api.Prelude.{
  ℕ, String, Bool, true, false, not, Option, none, some, List, [], ◌∷◌, ◌++◌, ◌≐◌, ◌&&◌, ◌||◌,
  string_key, if◌then◌else◌, Key, map,
}
use gateway_api.Prelude.Dict.{Dict, get, set}
use gateway_api.Prelude.Outcome.{Reply, value, error}
use gateway_api.Prelude.Sets.{NameSet, contains, contains_all, insert, remove}
use gateway_api.Prelude.Sort.{sort_by}
use gateway_api.Conformance.Features.{SupportedFeature}
use gateway_api.Conformance.Profiles.{
  ConformanceTest, ConformanceProfile, ConformanceProfileName, Profiles,
  get_conformance_profiles_for_test,
}
use gateway_api.Conformance.Reports.{
  ResultType, test_succeeded, test_failed, test_skipped, test_not_supported, TestResult,
  ProfileReport, ProfileReports, add_test_results, compile_results,
}

pub data SuiteError : Type 0 where
  nothing_selected : SuiteError
  unknown_profile : String → SuiteError
  partial_annotations several_versions several_channels no_annotations other_version : SuiteError
  already_running : SuiteError
  report_while_running : SuiteError
  -- the error of the client that lists the CRDs
  crds_not_listed : String → SuiteError

pub data Created (A : Type 0) : Type 0 where
  created : A → Created A
  failed : SuiteError → Created A
  -- an insertion into a nil set
  panicked : Created A

infixl 5 ◌>>=◌
abbrev pub ◌>>=◌ : {A B : Type 0} → Created A → (A → Created B) → Created B
created a >>= next = next a
failed e >>= next = failed e
panicked >>= next = panicked

-- `ConformanceOptions`, as far as it selects tests. A nil set is `none`.
pub record ConformanceOptions : Type 0 where
  pub supported_features : Option NameSet
  pub exempt_features : NameSet
  pub enable_all_supported_features : Bool
  pub skip_tests : List String
  pub run_test : String
  pub conformance_profiles : List ConformanceProfileName
  pub allow_crds_mismatch : Bool

-- `ConformanceTestSuite`, as far as it selects and reports tests. `results` is nil during a run.
pub record ConformanceTestSuite : Type 0 where
  pub supported_features : NameSet
  pub skip_tests : NameSet
  pub run_test : String
  pub api_version : String
  pub api_channel : String
  pub conformance_profiles : List ConformanceProfileName
  pub running : Bool
  pub results : Option (Dict String TestResult)
  pub extended_supported_features : Dict ConformanceProfileName NameSet
  pub extended_unsupported_features : Dict ConformanceProfileName NameSet

-- The annotations of a CRD.
abbrev pub Annotations : Type 0
Annotations = Dict String String

-- pkg/consts/consts.go
abbrev pub bundle_version_annotation : String
bundle_version_annotation = "gateway.networking.k8s.io/bundle-version"

abbrev pub channel_annotation : String
channel_annotation = "gateway.networking.k8s.io/channel"

abbrev pub bundle_version : String
bundle_version = "v1.2.0-dev"

-- The body of the loop of `getAPIVersionAndChannel`: the version and the channel so far.
unfoldable pub read_annotations :
    Option String → Option String → String × String → Created (String × String)
read_annotations none none (version, channel) = created (version, channel)
read_annotations (some v) none (version, channel) = failed partial_annotations
read_annotations none (some c) (version, channel) = failed partial_annotations
read_annotations (some v) (some c) (version, channel) =
    if not (version ≐ "") && not (v ≐ version)
    then failed several_versions
    else if not (channel ≐ "") && not (c ≐ channel)
    then failed several_channels
    else created (v, c)

unfoldable pub read_crds : List Annotations → String × String → Created (String × String)
unfolding read_annotations
read_crds [] found = created found
read_crds (crd ∷ rest) found =
    read_annotations (get bundle_version_annotation crd) (get channel_annotation crd) found
    >>= read_crds rest

-- `getAPIVersionAndChannel`
unfoldable pub get_api_version_and_channel : List Annotations → Created (String × String)
unfolding read_crds
get_api_version_and_channel crds = do
  found ← read_crds crds ("", "")
  (if found.0 ≐ "" || found.1 ≐ ""
      then failed no_annotations
      else if not (found.0 ≐ bundle_version)
      then failed other_version
      else created found)

-- An error of the annotations may be allowed.
abbrev pub or_undefined : Bool → Created (String × String) → Created (String × String)
or_undefined true (failed _) = created ("UNDEFINED", "UNDEFINED")
or_undefined _ found = found

abbrev pub or_empty : Option NameSet → NameSet
or_empty none = []
or_empty (some s) = s

-- `len(l) == 0`
abbrev is_empty : List String → Bool
is_empty [] = true
is_empty (_ ∷ _) = false

-- The sets that the caller's variables hold: the global `features.AllFeatures`, and the set that the
-- options were given, which is another one.
pub record SharedSets : Type 0 where
  pub global : NameSet
  pub given : Option NameSet

-- `options.SupportedFeatures`, when nothing is exempt yet, for the contents of `features.AllFeatures`.
-- It is one of the shared sets unless a new one is made.
unfoldable pub opted_features : NameSet → ConformanceOptions → NameSet
opted_features all options =
    if options.enable_all_supported_features then all else or_empty options.supported_features

abbrev given_after : NameSet → Option NameSet → Option NameSet
given_after changed none = none
given_after changed (some s) = some changed

-- The shared sets when the set that `options.SupportedFeatures` refers to has been changed.
unfoldable pub shared_after : NameSet → ConformanceOptions → NameSet → SharedSets
shared_after all options changed =
    if options.enable_all_supported_features
    then record { global = changed; given = options.supported_features }
    else record { global = all; given = given_after changed options.supported_features }

unfoldable pub remove_all : List String → NameSet → NameSet
unfolding remove
remove_all [] s = s
remove_all (x ∷ l) s = remove_all l (remove x s)

-- The core features of a profile are supported implicitly. The set of the options and that of the
-- suite are one.
unfoldable pub insert_core : List SupportedFeature → NameSet → NameSet
unfolding insert contains
insert_core [] supported = supported
insert_core (f ∷ rest) supported =
    insert_core rest (if not (contains f supported) then insert f supported else supported)

-- A set that is made when it is first inserted into.
abbrev pub insert_at :
    ConformanceProfileName
    → SupportedFeature
    → Dict ConformanceProfileName NameSet
    → Dict ConformanceProfileName NameSet
insert_at name f sets = elim (get name sets) [
  | none ↦ set name (insert f []) sets
  | some s ↦ set name (insert f s) sets
]

-- The sets of the extended features that are supported and that are not.
pub record Extended : Type 0 where
  pub supported : Dict ConformanceProfileName NameSet
  pub unsupported : Dict ConformanceProfileName NameSet

-- "Add Exempt Features into unsupported features list"
abbrev pub add_exempt :
    Bool → ConformanceProfileName → SupportedFeature → Extended → Created Extended
add_exempt false name f e = created e
add_exempt true name f e = elim (get name e.unsupported) [
  | none ↦ panicked
  | some s ↦ created (record e { unsupported = set name (insert f s) e.unsupported })
]

unfoldable pub sort_extended :
    NameSet → NameSet → ConformanceProfileName → List SupportedFeature → Extended → Created Extended
unfolding contains insert
sort_extended exempt supported name [] e = created e
sort_extended exempt supported name (f ∷ rest) e =
    add_exempt (contains f exempt) name f (
      if contains f supported
      then record e { supported = insert_at name f e.supported }
      else record e { unsupported = insert_at name f e.unsupported })
    >>= sort_extended exempt supported name rest

-- What is done after a profile whose core features have been inserted.
abbrev pub after_sorting :
    NameSet
    → Created Extended
    → (Extended → NameSet × Created Extended)
    → NameSet × Created Extended
after_sorting supported (created e) next = next e
after_sorting supported (failed why) next = (supported, failed why)
after_sorting supported panicked next = (supported, panicked)

-- The loop over the profiles, with the set of the suite also where it fails.
unfoldable pub select_profiles :
    Profiles
    → NameSet
    → List ConformanceProfileName
    → NameSet
    → Extended
    → NameSet × Created Extended
unfolding insert_core sort_extended
select_profiles profiles exempt [] supported e = (supported, created e)
select_profiles profiles exempt (name ∷ rest) supported e = elim (get name profiles) [
  | none ↦ (supported, failed (unknown_profile name))
  | some profile ↦
      let with_core = insert_core profile.core_features supported in
      after_sorting with_core (sort_extended exempt with_core name profile.extended_features e)
        (select_profiles profiles exempt rest with_core)
]

-- Something has to be selected.
unfoldable pub selects : ConformanceOptions → Bool
selects options = not (
    is_empty (or_empty options.supported_features)
    && (is_empty options.conformance_profiles
        && (not options.enable_all_supported_features && options.run_test ≐ "")))

abbrev listed : Reply (List Annotations) → Created (List Annotations)
listed (value crds) = created crds
listed (error e) = failed (crds_not_listed e)

-- What is checked before any set is changed: the version and the channel.
unfoldable pub checked_options :
    ConformanceOptions → Reply (List Annotations) → Created (String × String)
unfolding selects get_api_version_and_channel
checked_options options answer = if not (selects options) then failed nothing_selected else (do
  crds ← listed answer
  or_undefined options.allow_crds_mismatch (get_api_version_and_channel crds))

unfoldable pub make_suite :
    Profiles
    → ConformanceOptions
    → NameSet
    → Created (String × String)
    → Created ConformanceTestSuite × SharedSets
unfolding opted_features shared_after remove_all select_profiles
make_suite profiles options all (failed why) =
    (failed why, record { global = all; given = options.supported_features })
make_suite profiles options all panicked =
    (panicked, record { global = all; given = options.supported_features })
make_suite profiles options all (created found) =
    let selected =
      select_profiles profiles options.exempt_features options.conformance_profiles
        (remove_all options.exempt_features (opted_features all options))
        (record { supported = []; unsupported = [] }) in
    (
      (do
        extended ← selected.1
        created (record {
          supported_features = selected.0;
          skip_tests = options.skip_tests;
          run_test = options.run_test;
          api_version = found.0;
          api_channel = found.1;
          conformance_profiles = options.conformance_profiles;
          running = false;
          results = some [];
          extended_supported_features = extended.supported;
          extended_unsupported_features = extended.unsupported;
        })),
      shared_after all options selected.0,
    )

-- `NewConformanceTestSuite`, with the contents of `features.AllFeatures` and the annotations of the
-- CRDs that the client lists. The set of the suite, if there is one, is a shared set.
unfoldable pub new_conformance_test_suite :
    Profiles
    → ConformanceOptions
    → NameSet
    → Reply (List Annotations)
    → Created ConformanceTestSuite × SharedSets
unfolding checked_options make_suite
new_conformance_test_suite profiles options all answer =
    make_suite profiles options all (checked_options options answer)
