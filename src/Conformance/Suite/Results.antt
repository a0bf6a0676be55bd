-- ===== src/Conformance/Suite/Results.antt =====
-- conformance/utils/suite/suite.go: how the tests of a suite are run, and how their results are
-- reported. What the body of a test comes to is a parameter.
use gateway_api.Prelude.{
  ℕ, String, Bool, true, false, not, Option, none, some, List, [], ◌∷◌, ◌≐◌, ◌&&◌, ◌||◌, string_key,
  if◌then◌else◌, map,
}
use gateway_api.Prelude.Dict.{Dict, get, set}
use gateway_api.Prelude.Sets.{NameSet, contains, contains_all}
use gateway_api.Prelude.Sort.{sort_by}
use gateway_api.Conformance.Features.{SupportedFeature}
use gateway_api.Conformance.Profiles.{
  ConformanceTest, ConformanceProfile, ConformanceProfileName, Profiles,
  get_conformance_profiles_for_test,
}
use gateway_api.Conformance.Reports.{
  ResultType, test_succeeded, test_failed, test_skipped, test_not_supported, TestResult,
  ProfileReports, add_test_results, compile_results,
}
use gateway_api.Conformance.Suite.{
  ConformanceTestSuite, Created, created, failed, already_running, report_while_running,
}

-- What `ConformanceTest.Run` of conformance/utils/suite/conformance.go does.
pub data TestAction : Type 0 where
  skip_unsupported : SupportedFeature → TestAction
  skip_explicitly : TestAction
  apply_and_test : List String → TestAction

-- A parallel test calls `t.Parallel` first.
pub record TestRun : Type 0 where
  pub parallel : Bool
  pub action : TestAction

unfoldable pub first_unsupported : NameSet → List SupportedFeature → Option SupportedFeature
first_unsupported supported [] = none
first_unsupported supported (feature ∷ rest) =
    let later = first_unsupported supported rest in
    if not (contains feature supported) then some feature else later

-- The test is not the one that is focused on, or is to be skipped.
abbrev pub explicitly_skipped : ConformanceTestSuite → ConformanceTest → Bool
explicitly_skipped suite test =
    contains test.short_name suite.skip_tests
    || (not (suite.run_test ≐ "") && not (suite.run_test ≐ test.short_name))

-- `ConformanceTest.Run`
unfoldable pub test_run : ConformanceTestSuite → ConformanceTest → TestRun
unfolding first_unsupported
test_run suite test =
    let checked =
      if explicitly_skipped suite test then skip_explicitly else apply_and_test test.manifests in
    record {
      parallel = test.parallel;
      action =
          if suite.run_test ≐ ""
          then elim (first_unsupported suite.supported_features test.features) [
            | some feature ↦ skip_unsupported feature
            | none ↦ checked
          ]
          else checked;
    }

-- `res` for a test that `t.Run` says has succeeded or not; a test that is skipped has not failed.
unfoldable pub result_of : ConformanceTestSuite → ConformanceTest → Bool → ResultType
result_of suite test succeeded =
    if not succeeded
    then test_failed
    else if not (contains_all test.features suite.supported_features)
    then test_not_supported
    else if contains test.short_name suite.skip_tests
    then test_skipped
    else test_succeeded

-- What the body of a test comes to, if it is run.
module _ (passes : ConformanceTest → Bool) where
  -- What `t.Run` returns: true for a parallel test, for which it waits no longer than until the test
  -- calls `t.Parallel`, else whether the test has not failed.
  abbrev pub succeeded : ConformanceTestSuite → ConformanceTest → Bool
  succeeded suite test = (test_run suite test).parallel || elim (test_run suite test).action [
    | skip_unsupported _ ↦ true
    | skip_explicitly ↦ true
    | apply_and_test _ ↦ passes test
  ]

  -- The loop over the tests.
  unfoldable pub run_tests :
      ConformanceTestSuite → List ConformanceTest → Dict String TestResult → Dict String TestResult
  unfolding test_run result_of
  run_tests suite [] results = results
  run_tests suite (test ∷ rest) results = run_tests suite rest (
      set test.short_name
        (record { test = test; result = result_of suite test (succeeded suite test) }) results)

-- The first and the last critical section of `Run`.
unfoldable pub begin_run : ConformanceTestSuite → Created ConformanceTestSuite
begin_run suite =
    if suite.running
    then failed already_running
    else created (record suite { running = true; results = none })

unfoldable pub end_run : Dict String TestResult → ConformanceTestSuite → ConformanceTestSuite
end_run results suite = record suite { running = false; results = some results }

-- `Report`: the loops over the test names and the profiles of a test.
unfoldable pub add_profiles : List ConformanceProfile → TestResult → ProfileReports → ProfileReports
unfolding add_test_results
add_profiles [] r p = p
add_profiles (profile ∷ rest) r p = add_profiles rest r (add_test_results profile r p)

unfoldable pub add_tests :
    Profiles
    → List ConformanceProfileName
    → List String
    → Dict String TestResult
    → ProfileReports
    → ProfileReports
unfolding add_profiles get_conformance_profiles_for_test sort_by
add_tests profiles names [] results p = p
add_tests profiles names (t ∷ rest) results p =
    add_tests profiles names rest results (elim (get t results) [
      | none ↦ p
      | some r ↦
          add_profiles
            (sort_by (λ (c : ConformanceProfile). c.name)
              (get_conformance_profiles_for_test profiles r.test names))
            r p
    ])

abbrev pub or_no_results : Option (Dict String TestResult) → Dict String TestResult
or_no_results none = []
or_no_results (some results) = results

unfoldable pub report : (ℕ → String) → Profiles → ConformanceTestSuite → Created ProfileReports
unfolding add_tests compile_results sort_by
report decimal profiles suite =
    let results = or_no_results suite.results in
    if suite.running
    then failed report_while_running
    else created (
        compile_results decimal suite.extended_supported_features
          suite.extended_unsupported_features
          (add_tests profiles suite.conformance_profiles
            (sort_by (λ x. x) (map (λ (e : String × TestResult). e.0) results)) results []))
