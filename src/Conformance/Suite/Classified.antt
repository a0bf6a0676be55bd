-- ===== src/Conformance/Suite/Classified.antt =====
-- How the result of a test is classified.
use gateway_api.Prelude.{
  String, Bool, true, false, none, some, List, [], ◌∷◌, ◌≡◌, ◌≢◌, refl, ap, ◌∙◌, arith, string_key,
  if◌then◌else◌, inl, inr,
}
use gateway_api.Prelude.Dict.{Dict, get, set, get-set}
use gateway_api.Prelude.Lists.{All, In}
use gateway_api.Prelude.Sets.{NameSet, contains, contains_all}
use gateway_api.Conformance.Features.{SupportedFeature}
use gateway_api.Conformance.Profiles.{ConformanceTest}
use gateway_api.Conformance.Reports.{
  ResultType, test_succeeded, test_failed, test_skipped, test_not_supported, TestResult,
}
use gateway_api.Conformance.Suite.{ConformanceTestSuite}
use gateway_api.Conformance.Suite.Results.{
  TestAction, skip_unsupported, skip_explicitly, apply_and_test, first_unsupported, test_run,
  result_of, succeeded, run_tests,
}

-- A test that is not listed as unsupported has all its features.
first_unsupported-contains_all :
    (s : NameSet) (l : List SupportedFeature)
    → contains_all l s ≡ elim (first_unsupported s l) [ none ↦ true | some _ ↦ false ]
unfolding first_unsupported contains_all
first_unsupported-contains_all s [] = refl
first_unsupported-contains_all s (x ∷ l) = ground (arith, first_unsupported-contains_all s l)

module _ (passes : ConformanceTest → Bool) (suite : ConformanceTestSuite) where
  -- The result that what was done with a test stands for.
  abbrev pub stands_for : ConformanceTest → TestAction → ResultType
  stands_for test (skip_unsupported _) = test_not_supported
  stands_for test skip_explicitly = test_skipped
  stands_for test (apply_and_test _) =
      if test.parallel then test_succeeded else if passes test then test_succeeded else test_failed

  classified : ConformanceTest → ResultType
  classified test = result_of suite test (succeeded passes suite test)

  classified-stands_for :
      (test : ConformanceTest)
      → suite.run_test ≡ ""
      → classified test ≡ stands_for test (test_run suite test).action
  unfolding classified result_of test_run
  classified-stands_for test all =
      ground (arith, first_unsupported-contains_all suite.supported_features test.features)

  -- No other test after it has the name.
  abbrev IsLast : ConformanceTest → List ConformanceTest → Type 0
  IsLast test rest = All (λ (other : ConformanceTest). other.short_name ≢ test.short_name) rest

  -- The names of the tests differ.
  abbrev pub HaveNames : List ConformanceTest → Type 0
  HaveNames [] = Unit
  HaveNames (test ∷ rest) = IsLast test rest × HaveNames rest

  run_tests-get_other :
      (test : ConformanceTest) (rest : List ConformanceTest) (results : Dict String TestResult)
      → IsLast test rest
      → get test.short_name (run_tests passes suite rest results) ≡ get test.short_name results
  unfolding run_tests
  run_tests-get_other test [] results last = refl
  run_tests-get_other test (other ∷ rest) results last =
      let result : TestResult = record {
        test = other;
        result = result_of suite other (succeeded passes suite other);
      } in
      run_tests-get_other test rest (set other.short_name result results) last.1
      ∙ ground (arith, get-set other.short_name test.short_name result results)

  result_for : ConformanceTest → TestResult
  result_for test = record { test = test; result = classified test }

  get-set_same :
      (name : String) (r : TestResult) (results : Dict String TestResult)
      → get name (set name r results) ≡ some r
  get-set_same name r results = ground (arith, get-set name name r results)

  -- The result of a test does not depend on which of two equal tests it is written with.
  at_equal_tests :
      {first test : ConformanceTest} (results : Dict String TestResult)
      → first ≡ test
      → get first.short_name results ≡ some (result_for first)
      → get test.short_name results ≡ some (result_for test)
  at_equal_tests results e h = rw (← e) h

  run_tests-get :
      (tests : List ConformanceTest) (test : ConformanceTest) (results : Dict String TestResult)
      → HaveNames tests
      → In test tests
      → get test.short_name (run_tests passes suite tests results) ≡ some (result_for test)
  unfolding run_tests result_for classified
  run_tests-get [] test results names m = elim m [ ]
  run_tests-get (first ∷ rest) test results names (inl e) =
      let after = set first.short_name (result_for first) results in
      at_equal_tests (run_tests passes suite rest after) e (
        run_tests-get_other first rest after names.0
        ∙ get-set_same first.short_name (result_for first) results)
  run_tests-get (first ∷ rest) test results names (inr m) =
      run_tests-get rest test (set first.short_name (result_for first) results) names.1 m

-- When no test is focused on and the names of the tests differ, a run records every test under its
-- name with the result that stands for what was done with it: not supported exactly when it was
-- skipped for a feature the suite lacks, skipped when it was skipped on request, and when it is run,
-- succeeded if it is a parallel test, whether or not it passes, else by whether it passed.
pub run_tests-classified :
    (passes : ConformanceTest → Bool) (suite : ConformanceTestSuite) (tests : List ConformanceTest)
    (test : ConformanceTest)
    → suite.run_test ≡ ""
    → HaveNames passes suite tests
    → In test tests
    → get test.short_name (run_tests passes suite tests [])
      ≡ some (record {
        test = test;
        result = stands_for passes suite test (test_run suite test).action;
      })
unfolding result_for
run_tests-classified passes suite tests test all names m =
    run_tests-get passes suite tests test [] names m
    ∙ ap (λ (r : ResultType). some (record { test = test; result = r }))
        (classified-stands_for passes suite test all)

-- When the suite focuses on one test, any other test whose features it supports and that it does not
-- list as skipped is skipped, and recorded as succeeded.
pub focused-succeeded :
    (passes : ConformanceTest → Bool) (suite : ConformanceTestSuite) (test : ConformanceTest)
    → suite.run_test ≢ ""
    → suite.run_test ≢ test.short_name
    → contains test.short_name suite.skip_tests ≡ false
    → contains_all test.features suite.supported_features ≡ true
    → ((test_run suite test).action ≡ skip_explicitly)
      × (result_of suite test (succeeded passes suite test) ≡ test_succeeded)
unfolding test_run result_of
focused-succeeded passes suite test focused other kept supported = ground (arith)
