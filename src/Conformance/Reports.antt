-- ===== src/Conformance/Reports.antt =====
-- conformance/utils/suite/reports.go, and the report types of conformance/apis/v1. The counters are
-- 32 bits wide and wrap round.
pub mod Counts
pub mod Filed
pub mod Compiled
use gateway_api.Prelude.{
  ℕ, ◌+◌, ◌*◌, ◌%◌, String, ◌⧺◌, Bool, true, false, Option, none, some, List, [], ◌∷◌, ◌++◌, map,
  not, string_key, if◌then◌else◌, ltb,
}
use gateway_api.Prelude.Dict.{Dict, get, set, set_if_missing, values}
use gateway_api.Prelude.Sets.{NameSet, contains}
use gateway_api.Prelude.Sort.{sort_by}
use gateway_api.Conformance.Features.{SupportedFeature}
use gateway_api.Conformance.Profiles.{ConformanceTest, ConformanceProfile, ConformanceProfileName}

-- `resultType`
pub data ResultType : Type 0 where
  test_succeeded test_failed test_skipped test_not_supported : ResultType

pub record TestResult : Type 0 where
  pub test : ConformanceTest
  pub result : ResultType

-- `confv1.Result`, whose zero value is the empty string.
pub data Result : Type 0 where
  unset success partial failure : Result

-- `confv1.Status`, with the `Statistics` that it embeds.
pub record Status : Type 0 where
  pub result : Result
  pub passed : ℕ
  pub skipped : ℕ
  pub failed : ℕ
  pub skipped_tests : List String
  pub failed_tests : List String

pub record ExtendedStatus : Type 0 where
  pub status : Status
  pub supported_features : List String
  pub unsupported_features : List String

pub record ProfileReport : Type 0 where
  pub name : String
  pub summary : String
  pub core : Status
  pub extended : Option ExtendedStatus

-- `profileReportsMap`
abbrev pub ProfileReports : Type 0
ProfileReports = Dict ConformanceProfileName ProfileReport

abbrev pub no_status : Status
no_status = record {
  result = unset;
  passed = 0;
  skipped = 0;
  failed = 0;
  skipped_tests = [];
  failed_tests = [];
}

abbrev pub no_extended_status : ExtendedStatus
no_extended_status = record {
  status = no_status;
  supported_features = [];
  unsupported_features = [];
}

abbrev pub new_report : String → ProfileReport
new_report name = record { name = name; summary = ""; core = no_status; extended = none }

abbrev pub u32_mod : ℕ
u32_mod = 4294967296

-- `n++` on a uint32
abbrev pub increment : ℕ → ℕ
increment n = (n + 1) % u32_mod

-- `isTestExtended`: the test needs a feature that is none of the profile's core features.
unfoldable pub is_test_extended : ConformanceProfile → List SupportedFeature → Bool
is_test_extended profile [] = false
is_test_extended profile (feature ∷ rest) =
    let later = is_test_extended profile rest in
    if not (contains feature profile.core_features) then true else later

-- What a result adds to a status.
unfoldable pub count : ResultType → String → Status → Status
count test_succeeded name s = record s { passed = increment s.passed }
count test_failed name s = record s {
  failed = increment s.failed;
  failed_tests = s.failed_tests ++ name ∷ [];
}
count test_skipped name s = record s {
  skipped = increment s.skipped;
  skipped_tests = s.skipped_tests ++ name ∷ [];
}
count test_not_supported name s = s

abbrev pub or_new_status : Option ExtendedStatus → ExtendedStatus
or_new_status none = no_extended_status
or_new_status (some e) = e

-- The switch on the result; the extended status is made when a result is put into it.
unfoldable pub add_result : Bool → ResultType → String → ProfileReport → ProfileReport
unfolding count
add_result false r name report = record report { core = count r name report.core }
add_result true test_not_supported name report = report
add_result true r name report =
    let extended = or_new_status report.extended in
    record report { extended = some (record extended { status = count r name extended.status }) }

abbrev pub report_at : ConformanceProfileName → ProfileReports → ProfileReport
report_at name p = elim (get name p) [ none ↦ new_report "" | some report ↦ report ]

-- `addTestResults`
unfoldable pub add_test_results : ConformanceProfile → TestResult → ProfileReports → ProfileReports
unfolding is_test_extended add_result
add_test_results profile r p =
    let started = set_if_missing profile.name (new_report profile.name) p in
    set profile.name
      (add_result (is_test_extended profile r.test.features) r.result r.test.short_name
        (report_at profile.name started))
      started

-- The overall result of a status.
unfoldable pub overall : Status → Result
overall s = if ltb 0 s.failed then failure else if ltb 0 s.skipped then partial else success

-- The features of a profile, sorted and appended. A missing set is nil.
abbrev pub append_features : Option NameSet → List String → List String
append_features none features = features
append_features (some set) features = features ++ sort_by (λ x. x) set

module _ (decimal : ℕ → String) where
  -- `buildReportSummary`
  unfoldable pub build_report_summary : Status → String
  build_report_summary s = elim s.result [
    | success ↦ "succeeded"
    | partial ↦ "partially succeeded with " ⧺ (decimal s.skipped ⧺ " test skips")
    | failure ↦ "failed with " ⧺ (decimal s.failed ⧺ " test failures")
    | unset ↦ ""
  ]

  -- `buildSummary`
  unfoldable pub build_summary : ProfileReport → String
  unfolding build_report_summary
  build_summary report =
      let core = "Core tests " ⧺ build_report_summary report.core in
      elim report.extended [
        | none ↦ core ⧺ "."
        | some e ↦ core ⧺ (". Extended tests " ⧺ (build_report_summary e.status ⧺ "."))
      ]

  module _ (supported unsupported : Dict ConformanceProfileName NameSet) where
    -- The body of the loop of `compileResults`. The extended status is shared with the report that
    -- is put back into the map, so the features that are appended last are in it too.
    unfoldable pub compile : ProfileReport → ProfileReport
    unfolding overall build_summary sort_by
    compile report =
        let judged : ProfileReport = record report {
          core = record (report.core) { result = overall report.core };
          extended = elim report.extended [
            | none ↦ none
            | some e ↦ some (record e { status = record (e.status) { result = overall e.status } })
          ];
        } in
        let summed : ProfileReport = record judged { summary = build_summary judged } in
        record summed {
          extended = elim summed.extended [
            | none ↦ none
            | some e ↦ some (record e {
              supported_features = append_features (get report.name supported) e.supported_features;
              unsupported_features =
                  append_features (get report.name unsupported) e.unsupported_features;
            })
          ];
        }

    -- `compileResults`
    unfoldable pub compile_results : ProfileReports → ProfileReports
    unfolding compile
    compile_results [] = []
    compile_results ((name, report) ∷ rest) = (name, compile report) ∷ compile_results rest
