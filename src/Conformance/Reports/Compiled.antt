-- ===== src/Conformance/Reports/Compiled.antt =====
-- The compiled reports: the statistics, the lists of tests and the overall results.
use gateway_api.Prelude.{
  ℕ, ◌<◌, ◌≤◌, String, Bool, true, false, Option, none, some, List, [], ◌∷◌, ◌≡◌, refl, ◌∙◌, sym,
  arith, string_key, Key,
}
use gateway_api.Prelude.Dict.{Dict, get}
use gateway_api.Prelude.Sets.{NameSet}
use gateway_api.Conformance.Profiles.{ConformanceProfileName}
use gateway_api.Conformance.Reports.{
  ResultType, test_succeeded, test_failed, test_skipped, test_not_supported, Result, success,
  partial, failure, Status, ExtendedStatus, ProfileReport, ProfileReports, no_status, u32_mod,
  count, overall, compile, compile_results,
}
use gateway_api.Conformance.Reports.Counts.{
  length, Outcomes, is_failed, is_skipped, is_succeeded, names_of, count_all, Counts,
  count_all-Counts,
}
use gateway_api.Conformance.Reports.Filed.{
  Filed, add_all, outcomes_of, extend_all, add_all-core, add_all-extended,
}

-- The overall result that outcomes ask for: a failed test makes it a failure, else a skipped one a
-- partial success.
abbrev pub verdict : (failed skipped : List String) → Result
verdict (x ∷ xs) skipped = failure
verdict [] (x ∷ xs) = partial
verdict [] [] = success

-- A status that reports the outcomes.
pub record Reports (l : Outcomes) (s : Status) : Type 0 where
  pub passed : s.passed ≡ length (names_of is_succeeded l)
  pub skipped : s.skipped ≡ length (names_of is_skipped l)
  pub failed : s.failed ≡ length (names_of is_failed l)
  pub skipped_tests : s.skipped_tests ≡ names_of is_skipped l
  pub failed_tests : s.failed_tests ≡ names_of is_failed l
  pub result : s.result ≡ verdict (names_of is_failed l) (names_of is_skipped l)

-- There is no extended status if no extended test came to anything.
abbrev pub ReportsExtended : Outcomes → Option ExtendedStatus → Type 0
ReportsExtended l none =
    (names_of is_succeeded l ≡ []) × (names_of is_skipped l ≡ []) × (names_of is_failed l ≡ [])
ReportsExtended l (some e) = Reports l e.status

length-names_of : (p : ResultType → Bool) (l : Outcomes) → length (names_of p l) ≤ length l
length-names_of p [] = omega arith
length-names_of p ((r, name) ∷ rest) = ground (arith, length-names_of p rest)

length-outcomes_of :
    (n : ConformanceProfileName) (b : Bool) (rs : Filed) → length (outcomes_of n b rs) ≤ length rs
length-outcomes_of n b [] = omega arith
length-outcomes_of n b ((profile, r) ∷ rest) = ground (arith, length-outcomes_of n b rest)

overall-verdict :
    (s : Status) (failed skipped : List String)
    → s.failed ≡ length failed
    → s.skipped ≡ length skipped
    → overall s ≡ verdict failed skipped
unfolding overall
overall-verdict s (x ∷ xs) skipped f k = ground arith
overall-verdict s [] (x ∷ xs) f k = ground arith
overall-verdict s [] [] f k = ground arith

module _ (l : Outcomes) (small : length l < u32_mod) where
  judged-Reports : (s : Status) → Counts l no_status s → Reports l (record s { result = overall s })
  judged-Reports s c =
      let failed : s.failed ≡ length (names_of is_failed l) =
        omega (arith, c.failed, length-names_of is_failed l) in
      let skipped : s.skipped ≡ length (names_of is_skipped l) =
        omega (arith, c.skipped, length-names_of is_skipped l) in
      record {
        passed = omega (arith, c.passed, length-names_of is_succeeded l);
        skipped = skipped;
        failed = failed;
        skipped_tests = c.skipped_tests;
        failed_tests = c.failed_tests;
        result = overall-verdict s (names_of is_failed l) (names_of is_skipped l) failed skipped;
      }

-- An extended status that has counted outcomes.
extend_all-some :
    (l : Outcomes) (e : ExtendedStatus)
    → (end : ExtendedStatus) × (extend_all l (some e) ≡ some end)
      × (end.status ≡ count_all l e.status)
unfolding count
extend_all-some [] e = (e, refl, refl)
extend_all-some ((test_succeeded, name) ∷ rest) e = extend_all-some rest _
extend_all-some ((test_failed, name) ∷ rest) e = extend_all-some rest _
extend_all-some ((test_skipped, name) ∷ rest) e = extend_all-some rest _
extend_all-some ((test_not_supported, name) ∷ rest) e = extend_all-some rest e

-- The extended status of a report that had none.
abbrev CountsExtended : Outcomes → Option ExtendedStatus → Type 0
CountsExtended l none =
    (names_of is_succeeded l ≡ []) × (names_of is_skipped l ≡ []) × (names_of is_failed l ≡ [])
CountsExtended l (some e) = Counts l no_status e.status

counted :
    (l : Outcomes) (rest : Outcomes) (e : ExtendedStatus)
    → count_all rest e.status ≡ count_all l no_status
    → CountsExtended l (extend_all rest (some e))
counted l rest e same =
    let (end, made, status) = extend_all-some rest e in
    let this : Counts l no_status (count_all l no_status) =
      count_all-Counts l no_status (omega arith) in
    rw (made, status, same) this

unsupported :
    (name : String) (rest : Outcomes) (o : Option ExtendedStatus)
    → CountsExtended rest o
    → CountsExtended ((test_not_supported, name) ∷ rest) o
unsupported name rest none c = c
unsupported name rest (some e) c = record {
  passed = c.passed;
  skipped = c.skipped;
  failed = c.failed;
  skipped_tests = c.skipped_tests;
  failed_tests = c.failed_tests;
}

extend_all-CountsExtended : (l : Outcomes) → CountsExtended l (extend_all l none)
extend_all-CountsExtended [] = (refl, refl, refl)
extend_all-CountsExtended ((test_succeeded, name) ∷ rest) =
    counted ((test_succeeded, name) ∷ rest) rest _ refl
extend_all-CountsExtended ((test_failed, name) ∷ rest) =
    counted ((test_failed, name) ∷ rest) rest _ refl
extend_all-CountsExtended ((test_skipped, name) ∷ rest) =
    counted ((test_skipped, name) ∷ rest) rest _ refl
extend_all-CountsExtended ((test_not_supported, name) ∷ rest) =
    unsupported name rest (extend_all rest none) (extend_all-CountsExtended rest)

module _ (decimal : ℕ → String)
    (supported unsupported_features : Dict ConformanceProfileName NameSet) where
  abbrev compiled : ProfileReport → ProfileReport
  compiled = compile decimal supported unsupported_features

  compile_results-get :
      (p : ProfileReports) (n : ConformanceProfileName) {report : ProfileReport}
      → get n (compile_results decimal supported unsupported_features p) ≡ some report
      → (before : ProfileReport) × (get n p ≡ some before) × (report ≡ compiled before)
  unfolding compile_results get
  compile_results-get [] n h = absurd (cc)
  compile_results-get ((m, before) ∷ rest) n h = elim (Key.dec string_key m n) [
    | yes e ↦ (before, ground arith, ground arith)
    | no x ↦
        let found = compile_results-get rest n (ground arith) in (found.0, ground arith, found.2)
  ]

  extended-Reports :
      (l : Outcomes) (before : ProfileReport)
      → length l < u32_mod
      → CountsExtended l before.extended
      → ReportsExtended l (compiled before).extended
  unfolding compile
  extended-Reports l before small c = by_status before.extended refl c
    where
      by_status :
          (o : Option ExtendedStatus)
          → before.extended ≡ o
          → CountsExtended l o
          → ReportsExtended l (compiled before).extended
      by_status none e c = rw e c
      by_status (some x) e c =
          let r = judged-Reports l small x.status c in
          rw e (record {
            passed = r.passed;
            skipped = r.skipped;
            failed = r.failed;
            skipped_tests = r.skipped_tests;
            failed_tests = r.failed_tests;
            result = r.result;
          })

  -- Where results of tests are filed under profiles, fewer than 2 ^ 32 of them, and the reports are
  -- compiled: the core status of a report gives the numbers of the tests of its profile's name
  -- that succeeded, were skipped and failed and need core features alone, the names of the skipped
  -- and of the failed ones in order, and for the overall result a failure if one failed, else a
  -- partial success if one was skipped, else a success. The extended status does the same for the
  -- other tests of that name, and is missing only if none of them succeeded, was skipped or failed.
  pub compile_results-Reports :
      (rs : Filed) (n : ConformanceProfileName) (report : ProfileReport)
      → length rs < u32_mod
      → get n (compile_results decimal supported unsupported_features (add_all rs [])) ≡ some report
      → Reports (outcomes_of n false rs) report.core
        × ReportsExtended (outcomes_of n true rs) report.extended
  unfolding compile get
  compile_results-Reports rs n report small h =
      let (before, found, same) = compile_results-get (add_all rs []) n h in
      let core : before.core ≡ count_all (outcomes_of n false rs) no_status =
        sym (rw found refl) ∙ add_all-core rs [] n in
      let extended : before.extended ≡ extend_all (outcomes_of n true rs) none =
        sym (rw found refl) ∙ add_all-extended rs [] n in
      let few : length (outcomes_of n false rs) < u32_mod =
        omega (arith, length-outcomes_of n false rs) in
      let few_extended : length (outcomes_of n true rs) < u32_mod =
        omega (arith, length-outcomes_of n true rs) in
      let counts : Counts (outcomes_of n false rs) no_status before.core =
        rw core (count_all-Counts (outcomes_of n false rs) no_status (omega arith)) in
      let counts_extended : CountsExtended (outcomes_of n true rs) before.extended =
        rw extended (extend_all-CountsExtended (outcomes_of n true rs)) in
      rw same (
        judged-Reports (outcomes_of n false rs) few before.core counts,
        extended-Reports (outcomes_of n true rs) before few_extended counts_extended,
      )
