-- ===== src/Conformance/Reports/Filed.antt =====
-- The reports of the profiles after the results of tests have been filed, one after the other.
use gateway_api.Prelude.{
  String, Bool, true, false, not, Option, none, some, List, [], ◌∷◌, ◌≡◌, refl, ◌∙◌, arith, ◌≐◌,
  string_key, if◌then◌else◌,
}
use gateway_api.Prelude.Dict.{get, set_if_missing, get-set}
use gateway_api.Prelude.Sets.{contains_all}
use gateway_api.Conformance.Features.{SupportedFeature}
use gateway_api.Conformance.Profiles.{ConformanceProfile, ConformanceProfileName}
use gateway_api.Conformance.Reports.{
  ResultType, test_succeeded, test_failed, test_skipped, test_not_supported, TestResult, Status,
  ExtendedStatus, ProfileReport, ProfileReports, no_status, new_report, is_test_extended, count,
  or_new_status, add_result, report_at, add_test_results,
}
use gateway_api.Conformance.Reports.Counts.{Outcomes, count_all}

-- Results with the profiles that they are filed under.
abbrev pub Filed : Type 0
Filed = List (ConformanceProfile × TestResult)

-- The loops of `Report` that call `addTestResults`.
unfoldable pub add_all : Filed → ProfileReports → ProfileReports
unfolding add_test_results
add_all [] p = p
add_all ((profile, r) ∷ rest) p = add_all rest (add_test_results profile r p)

abbrev agrees : Bool → Bool → Bool
agrees true b = b
agrees false b = not b

-- The outcomes that belong into the report of a name: core if the profile's core features have all
-- the features of the test, else extended.
abbrev pub outcomes_of : ConformanceProfileName → Bool → Filed → Outcomes
outcomes_of n extended [] = []
outcomes_of n extended ((profile, r) ∷ rest) =
    if profile.name ≐ n
    then (if agrees extended (not (contains_all r.test.features profile.core_features))
        then (r.result, r.test.short_name) ∷ outcomes_of n extended rest
        else outcomes_of n extended rest)
    else outcomes_of n extended rest

is_test_extended_lem :
    (profile : ConformanceProfile) (l : List SupportedFeature)
    → is_test_extended profile l ≡ not (contains_all l profile.core_features)
unfolding is_test_extended contains_all
is_test_extended_lem profile [] = refl
is_test_extended_lem profile (x ∷ l) = ground (arith, is_test_extended_lem profile l)

abbrev started : ConformanceProfileName → Option ProfileReport → ProfileReport
started n none = new_report n
started n (some report) = report

abbrev pub core_of : Option ProfileReport → Status
core_of none = no_status
core_of (some report) = report.core

abbrev pub extended_of : Option ProfileReport → Option ExtendedStatus
extended_of none = none
extended_of (some report) = report.extended

-- The extended status after outcomes have been counted into it.
abbrev pub extend_all : Outcomes → Option ExtendedStatus → Option ExtendedStatus
extend_all [] e = e
extend_all ((test_not_supported, name) ∷ rest) e = extend_all rest e
extend_all ((test_succeeded, name) ∷ rest) e = extend_all rest (
    some (record (or_new_status e) { status = count test_succeeded name (or_new_status e).status }))
extend_all ((test_failed, name) ∷ rest) e =
    extend_all rest
      (some (record (or_new_status e) { status = count test_failed name (or_new_status e).status }))
extend_all ((test_skipped, name) ∷ rest) e =
    extend_all rest (
      some (record (or_new_status e) { status = count test_skipped name (or_new_status e).status }))

get-started :
    (n : ConformanceProfileName) (p : ProfileReports)
    → report_at n (set_if_missing n (new_report n) p) ≡ started n (get n p)
unfolding set_if_missing
get-started n p = ground (arith, get-set n n (new_report n) p)

get-started_ne :
    (n m : ConformanceProfileName) (p : ProfileReports)
    → (n ≐ m) ≡ false
    → get m (set_if_missing n (new_report n) p) ≡ get m p
unfolding set_if_missing
get-started_ne n m p h = ground (arith, get-set n m (new_report n) p)

add_test_results-get :
    (profile : ConformanceProfile) (r : TestResult) (p : ProfileReports)
    (n : ConformanceProfileName)
    → get n (add_test_results profile r p) ≡ (
        if profile.name ≐ n
        then some (
            add_result
              (is_test_extended profile r.test.features)
              r.result
              r.test.short_name
              (started profile.name (get profile.name p)))
        else get n p)
unfolding add_test_results
add_test_results-get profile r p n =
    let before = set_if_missing profile.name (new_report profile.name) p in
    let first = get-started profile.name p in
    let other = get-started_ne profile.name n p in
    ground (
      arith,
      first,
      other,
      get-set profile.name n
          (add_result (is_test_extended profile r.test.features) r.result r.test.short_name
            (report_at profile.name before))
          before,
    )

core_of-started :
    (n : ConformanceProfileName) (o : Option ProfileReport) → (started n o).core ≡ core_of o
core_of-started n none = refl
core_of-started n (some report) = refl

extended_of-started :
    (n : ConformanceProfileName) (o : Option ProfileReport) → (started n o).extended ≡ extended_of o
extended_of-started n none = refl
extended_of-started n (some report) = refl

-- What one result adds to the core status, and to the extended one.
add_result-core :
    (b : Bool) (r : ResultType) (name : String) (report : ProfileReport)
    → (add_result b r name report).core ≡ (if b then report.core else count r name report.core)
unfolding add_result
add_result-core false r name report = refl
add_result-core true test_succeeded name report = refl
add_result-core true test_failed name report = refl
add_result-core true test_skipped name report = refl
add_result-core true test_not_supported name report = refl

add_result-extended :
    (b : Bool) (r : ResultType) (name : String) (report : ProfileReport)
    → (add_result b r name report).extended
      ≡ (if b then extend_all ((r, name) ∷ []) report.extended else report.extended)
unfolding add_result
add_result-extended false r name report = refl
add_result-extended true test_succeeded name report = refl
add_result-extended true test_failed name report = refl
add_result-extended true test_skipped name report = refl
add_result-extended true test_not_supported name report = refl

extend_all-cons :
    (r : ResultType) (name : String) (rest : Outcomes) (e : Option ExtendedStatus)
    → extend_all ((r, name) ∷ rest) e ≡ extend_all rest (extend_all ((r, name) ∷ []) e)
extend_all-cons test_succeeded name rest e = refl
extend_all-cons test_failed name rest e = refl
extend_all-cons test_skipped name rest e = refl
extend_all-cons test_not_supported name rest e = refl

-- One result under the name of a report.
module _ (profile : ConformanceProfile) (r : TestResult) (p : ProfileReports)
    (n : ConformanceProfileName) where
  core-step :
      (rest : Filed)
      → count_all (outcomes_of n false rest) (core_of (get n (add_test_results profile r p)))
        ≡ count_all (outcomes_of n false ((profile, r) ∷ rest)) (core_of (get n p))
  core-step rest = ground (
    arith,
    add_test_results-get profile r p n,
    is_test_extended_lem profile r.test.features,
    add_result-core (is_test_extended profile r.test.features) r.result r.test.short_name
        (started profile.name (get profile.name p)),
    core_of-started profile.name (get profile.name p),
  )

  extended-step :
      (rest : Filed)
      → extend_all (outcomes_of n true rest) (extended_of (get n (add_test_results profile r p)))
        ≡ extend_all (outcomes_of n true ((profile, r) ∷ rest)) (extended_of (get n p))
  extended-step rest = ground (
    arith,
    add_test_results-get profile r p n,
    is_test_extended_lem profile r.test.features,
    add_result-extended (is_test_extended profile r.test.features) r.result r.test.short_name
        (started profile.name (get profile.name p)),
    extended_of-started profile.name (get profile.name p),
    extend_all-cons r.result r.test.short_name (outcomes_of n true rest) (extended_of (get n p)),
  )

pub add_all-core :
    (rs : Filed) (p : ProfileReports) (n : ConformanceProfileName)
    → core_of (get n (add_all rs p)) ≡ count_all (outcomes_of n false rs) (core_of (get n p))
unfolding add_all
add_all-core [] p n = refl
add_all-core ((profile, r) ∷ rest) p n =
    add_all-core rest (add_test_results profile r p) n ∙ core-step profile r p n rest

pub add_all-extended :
    (rs : Filed) (p : ProfileReports) (n : ConformanceProfileName)
    → extended_of (get n (add_all rs p))
      ≡ extend_all (outcomes_of n true rs) (extended_of (get n p))
unfolding add_all
add_all-extended [] p n = refl
add_all-extended ((profile, r) ∷ rest) p n =
    add_all-extended rest (add_test_results profile r p) n ∙ extended-step profile r p n rest
