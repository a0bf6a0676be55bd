-- ===== src/Tests/Conformance.antt =====
-- A conformance suite, its tests and their reports.
use gateway_api.Prelude.{
  ℕ, ◌≤◌, ◌↔◌, String, Bool, true, false, none, some, [], ◌∷◌, ◌≡◌, ◌≢◌, refl, arith, inl, inr, not,
  ◌&&◌, ◌||◌, String-discrete, string_key,
}
use gateway_api.Prelude.Dict.{get, set, set_if_missing}
use gateway_api.Prelude.Sets.{NameSet, contains, contains_all, insert, remove}
use gateway_api.Prelude.Outcome.{value}
use gateway_api.Conformance.Profiles.{
  ConformanceTest, ConformanceProfile, Profiles, gateway_http_profile_name,
}
use gateway_api.Conformance.Reports.{
  test_failed, test_skipped, test_succeeded, ProfileReport, ProfileReports, compile,
  compile_results, add_test_results, no_status,
}
use gateway_api.Conformance.Reports.Filed.{Filed, add_all, outcomes_of}
use gateway_api.Conformance.Reports.Compiled.{Reports, ReportsExtended, compile_results-Reports}
use gateway_api.Conformance.Suite.{
  ConformanceOptions, ConformanceTestSuite, Created, created, failed, panicked, already_running,
  report_while_running, bundle_version_annotation, channel_annotation, Annotations, selects,
  get_api_version_and_channel, read_crds, read_annotations, opted_features, checked_options,
  make_suite, shared_after, remove_all, select_profiles, insert_core, sort_extended,
  new_conformance_test_suite,
}
use gateway_api.Conformance.Suite.Results.{
  test_run, result_of, run_tests, begin_run, report, skip_explicitly, succeeded,
}
use gateway_api.Conformance.Suite.Selected.{
  in_core, is_opted, IsShared, new_conformance_test_suite-supports,
}
use gateway_api.Conformance.Suite.Classified.{stands_for, run_tests-classified, focused-succeeded}
use gateway_api.Conformance.Runs.{starts, step, begins, Reaches-exclusive}

abbrev a_test : ConformanceTest
a_test = record {
  short_name = "Simple";
  features = "HTTPRoute" ∷ [];
  manifests = "a.yaml" ∷ [];
  parallel = true;
}

abbrev other_test : ConformanceTest
other_test = record {
  short_name = "Mesh";
  features = "Mesh" ∷ [];
  manifests = [];
  parallel = false;
}

abbrev options : ConformanceOptions
options = record {
  supported_features = some ("HTTPRouteMethodMatching" ∷ []);
  exempt_features = "ReferenceGrant" ∷ [];
  enable_all_supported_features = false;
  skip_tests = [];
  run_test = "";
  conformance_profiles = gateway_http_profile_name ∷ [];
  allow_crds_mismatch = false;
}

abbrev a_profile : ConformanceProfile
a_profile = record {
  name = "GATEWAY-HTTP";
  core_features = "Gateway" ∷ "ReferenceGrant" ∷ "HTTPRoute" ∷ [];
  extended_features = "HTTPRouteMethodMatching" ∷ "HTTPRoutePortRedirect" ∷ [];
}

abbrev profiles : Profiles
profiles = ("GATEWAY-HTTP", a_profile) ∷ []

abbrev annotations : Annotations
annotations = (bundle_version_annotation, "v1.2.0-dev") ∷ (channel_annotation, "standard") ∷ []

abbrev a_suite : ConformanceTestSuite
a_suite = record {
  supported_features = "HTTPRoute" ∷ [];
  skip_tests = [];
  run_test = "";
  api_version = "v1.2.0-dev";
  api_channel = "standard";
  conformance_profiles = "GATEWAY-HTTP" ∷ [];
  running = false;
  results = some [];
  extended_supported_features = [];
  extended_unsupported_features = [];
}

abbrev suite_of : Created ConformanceTestSuite → ConformanceTestSuite
suite_of (created suite) = suite
suite_of (failed _) = a_suite
suite_of panicked = a_suite

abbrev all_options : ConformanceOptions
all_options = record options { supported_features = none; enable_all_supported_features = true }

abbrev all : NameSet
all = "HTTPRouteMethodMatching" ∷ "ReferenceGrant" ∷ []

suite_created :
    (new_conformance_test_suite profiles all_options all (value (annotations ∷ []))).0
    ≡ created (
        suite_of (new_conformance_test_suite profiles all_options all (value (annotations ∷ []))).0)
unfolding new_conformance_test_suite make_suite checked_options selects get_api_version_and_channel
    read_crds read_annotations opted_features shared_after remove_all remove select_profiles
    insert_core sort_extended contains insert get String-discrete
suite_created = refl

new_conformance_test_suite-supports_example :
    (contains "Gateway" (
        (suite_of
          (new_conformance_test_suite profiles all_options all
            (value (annotations ∷ []))).0).supported_features)
      ≡ (in_core profiles ("GATEWAY-HTTP" ∷ []) "Gateway"
          || (is_opted all all_options "Gateway"
              && not (contains "Gateway" ("ReferenceGrant" ∷ [])))))
    × IsShared all all_options
        (suite_of
          (new_conformance_test_suite profiles all_options all (value (annotations ∷ []))).0)
        (new_conformance_test_suite profiles all_options all (value (annotations ∷ []))).1
new_conformance_test_suite-supports_example =
    new_conformance_test_suite-supports profiles all_options all (value (annotations ∷ [])) _
      "Gateway" suite_created

abbrev passes : ConformanceTest → Bool
passes _ = true

different : ◌≢◌ {A = String} "Mesh" "Simple"
different = λ e. absurd (cc)

run_tests-classified_example :
    get "Mesh" (run_tests passes a_suite (a_test ∷ other_test ∷ []) [])
    ≡ some (record {
      test = other_test;
      result = stands_for passes a_suite other_test (test_run a_suite other_test).action;
    })
run_tests-classified_example =
    run_tests-classified passes a_suite (a_test ∷ other_test ∷ []) other_test refl
      ((different, tt), (tt, tt)) (inr (inl refl))

abbrev focused_suite : ConformanceTestSuite
focused_suite = record a_suite { run_test = "Mesh" }

not_empty : ◌≢◌ {A = String} "Mesh" ""
not_empty = λ e. absurd (cc)

not_skipped : contains "Simple" [] ≡ false
unfolding contains
not_skipped = refl

all_supported : contains_all ("HTTPRoute" ∷ []) ("HTTPRoute" ∷ []) ≡ true
unfolding contains_all contains String-discrete
all_supported = refl

focused-succeeded_example :
    ((test_run focused_suite a_test).action ≡ skip_explicitly)
    × (result_of focused_suite a_test (succeeded passes focused_suite a_test) ≡ test_succeeded)
focused-succeeded_example =
    focused-succeeded passes focused_suite a_test not_empty different not_skipped all_supported

abbrev running_suite : ConformanceTestSuite
running_suite = record a_suite { running = true; results = none }

begun : begin_run a_suite ≡ created running_suite
unfolding begin_run
begun = refl

abbrev decimal : ℕ → String
decimal n = "n"

Reaches-exclusive_example :
    (1 ≤ 1)
    × ((begin_run running_suite ≡ failed already_running) ↔ (◌≡◌ {A = ℕ} 1 1))
    × ((report decimal profiles running_suite ≡ failed report_while_running) ↔ (◌≡◌ {A = ℕ} 1 1))
Reaches-exclusive_example =
    Reaches-exclusive decimal profiles a_suite (record { suite = running_suite; active = 1 }) refl
      (step starts (begins begun))

abbrev filed : Filed
filed =
    (a_profile, record { test = a_test; result = test_failed })
    ∷ (a_profile, record { test = other_test; result = test_skipped })
    ∷ []

abbrev no_report : ProfileReport
no_report = record { name = ""; summary = ""; core = no_status; extended = none }

abbrev report_of : ProfileReports → ProfileReport
report_of ((_, r) ∷ rest) = r
report_of [] = no_report

found :
    get "GATEWAY-HTTP" (compile_results decimal [] [] (add_all filed []))
    ≡ some (report_of (compile_results decimal [] [] (add_all filed [])))
unfolding compile_results compile set_if_missing add_all add_test_results get set contains
    String-discrete
found = refl

compile_results-Reports_example :
    Reports
      (outcomes_of "GATEWAY-HTTP" false filed)
      ((report_of (compile_results decimal [] [] (add_all filed []))).core)
    × ReportsExtended
        (outcomes_of "GATEWAY-HTTP" true filed)
        ((report_of (compile_results decimal [] [] (add_all filed []))).extended)
compile_results-Reports_example =
    compile_results-Reports decimal [] [] filed "GATEWAY-HTTP" _ (omega arith) found
