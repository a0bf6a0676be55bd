-- ===== src/Conformance/Reports/Counts.antt =====
-- The reports count what the tests came to: nothing is lost, and nothing is counted twice.
use gateway_api.Prelude.{
  ℕ, suc, ◌+◌, ◌%◌, ◌<◌, String, Bool, true, false, List, [], ◌∷◌, ◌++◌, ◌≡◌, ◌∙◌, sym, arith,
  string_key, if◌then◌else◌,
}
use gateway_api.Conformance.Reports.{
  ResultType, test_succeeded, test_failed, test_skipped, test_not_supported, Status, u32_mod, count,
}
use mathlib.Core.List.{append_assoc, append-nil}

-- The number of elements.
abbrev pub length : {A : Type 0} → List A → ℕ
length [] = 0
length (x ∷ xs) = suc (length xs)

-- What a test came to, and its name.
abbrev pub Outcomes : Type 0
Outcomes = List (ResultType × String)

abbrev pub is_failed : ResultType → Bool
is_failed test_failed = true
is_failed _ = false

abbrev pub is_skipped : ResultType → Bool
is_skipped test_skipped = true
is_skipped _ = false

abbrev pub is_succeeded : ResultType → Bool
is_succeeded test_succeeded = true
is_succeeded _ = false

-- The names of the tests that came to a result.
abbrev pub names_of : (ResultType → Bool) → Outcomes → List String
names_of p [] = []
names_of p ((r, name) ∷ rest) = if p r then name ∷ names_of p rest else names_of p rest

-- A status into which the results of tests are counted one after the other.
abbrev pub count_all : Outcomes → Status → Status
count_all [] s = s
count_all ((r, name) ∷ rest) s = count_all rest (count r name s)

-- The counters are below the bound of their type.
abbrev pub IsBounded : Status → Type 0
IsBounded s = (s.passed < u32_mod) × (s.skipped < u32_mod) × (s.failed < u32_mod)

count-IsBounded :
    (r : ResultType) (name : String) (s : Status) → IsBounded s → IsBounded (count r name s)
unfolding count
count-IsBounded test_succeeded name s b = omega arith
count-IsBounded test_failed name s b = omega arith
count-IsBounded test_skipped name s b = omega arith
count-IsBounded test_not_supported name s b = b

-- A status that counts the results: each counter is the number of its tests, modulo 2 ^ 32, and the
-- failed and the skipped ones are listed in order.
pub record Counts (l : Outcomes) (before s : Status) : Type 0 where
  pub passed : s.passed ≡ (before.passed + length (names_of is_succeeded l)) % u32_mod
  pub skipped : s.skipped ≡ (before.skipped + length (names_of is_skipped l)) % u32_mod
  pub failed : s.failed ≡ (before.failed + length (names_of is_failed l)) % u32_mod
  pub skipped_tests : s.skipped_tests ≡ before.skipped_tests ++ names_of is_skipped l
  pub failed_tests : s.failed_tests ≡ before.failed_tests ++ names_of is_failed l

pub count_all-Counts : (l : Outcomes) (s : Status) → IsBounded s → Counts l s (count_all l s)
unfolding count
count_all-Counts [] s b = record {
  passed = omega arith;
  skipped = omega arith;
  failed = omega arith;
  skipped_tests = sym (append-nil s.skipped_tests);
  failed_tests = sym (append-nil s.failed_tests);
}
count_all-Counts ((test_succeeded, name) ∷ rest) s b =
    let ih =
      count_all-Counts rest (count test_succeeded name s)
        (count-IsBounded test_succeeded name s b) in
    record {
      passed = omega (arith, ih.passed);
      skipped = omega (arith, ih.skipped);
      failed = omega (arith, ih.failed);
      skipped_tests = ih.skipped_tests;
      failed_tests = ih.failed_tests;
    }
count_all-Counts ((test_failed, name) ∷ rest) s b =
    let ih =
      count_all-Counts rest (count test_failed name s) (count-IsBounded test_failed name s b) in
    record {
      passed = omega (arith, ih.passed);
      skipped = omega (arith, ih.skipped);
      failed = omega (arith, ih.failed);
      skipped_tests = ih.skipped_tests;
      failed_tests =
          ih.failed_tests ∙ append_assoc s.failed_tests (name ∷ []) (names_of is_failed rest);
    }
count_all-Counts ((test_skipped, name) ∷ rest) s b =
    let ih =
      count_all-Counts rest (count test_skipped name s) (count-IsBounded test_skipped name s b) in
    record {
      passed = omega (arith, ih.passed);
      skipped = omega (arith, ih.skipped);
      failed = omega (arith, ih.failed);
      skipped_tests =
          ih.skipped_tests ∙ append_assoc s.skipped_tests (name ∷ []) (names_of is_skipped rest);
      failed_tests = ih.failed_tests;
    }
count_all-Counts ((test_not_supported, name) ∷ rest) s b =
    let ih = count_all-Counts rest s b in
    record {
      passed = ih.passed;
      skipped = ih.skipped;
      failed = ih.failed;
      skipped_tests = ih.skipped_tests;
      failed_tests = ih.failed_tests;
    }
