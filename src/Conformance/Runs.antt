-- ===== src/Conformance/Runs.antt =====
-- conformance/utils/suite/suite.go: `Run` and `Report` called from several goroutines. A run holds
-- the lock in its first and in its last critical section only, so that others' may come between.
use gateway_api.Prelude.{ℕ, suc, ◌≤◌, String, true, false, ◌≡◌, ◌↔◌, arith, if-elim, if◌then◌else◌}
use gateway_api.Prelude.Dict.{Dict}
use gateway_api.Conformance.Profiles.{Profiles}
use gateway_api.Conformance.Reports.{TestResult}
use gateway_api.Conformance.Suite.{
  ConformanceTestSuite, created, failed, already_running, report_while_running,
}
use gateway_api.Conformance.Suite.Results.{begin_run, end_run, report}

-- The suite, and the runs that are between their critical sections.
pub record Goroutines : Type 0 where
  pub suite : ConformanceTestSuite
  pub active : ℕ

-- A run begins, is refused, or ends; a report changes nothing.
pub data RunStep : Goroutines → Goroutines → Type 0 where
  begins :
      {g : Goroutines} {suite : ConformanceTestSuite}
      → begin_run g.suite ≡ created suite
      → RunStep g (record { suite = suite; active = suc g.active })
  refused : {g : Goroutines} → begin_run g.suite ≡ failed already_running → RunStep g g
  ends :
      {g : Goroutines} {n : ℕ} (results : Dict String TestResult)
      → g.active ≡ suc n
      → RunStep g (record { suite = end_run results g.suite; active = n })
  reports : {g : Goroutines} → RunStep g g

pub data Reaches (suite : ConformanceTestSuite) : Goroutines → Type 0 where
  starts : Reaches suite (record { suite = suite; active = 0 })
  step : {g h : Goroutines} → Reaches suite g → RunStep g h → Reaches suite h

-- `running` says whether a run is active.
abbrev IsExclusive : Goroutines → Type 0
IsExclusive g = g.active ≡ (if g.suite.running then 1 else 0)

begin_run-running :
    (suite next : ConformanceTestSuite)
    → begin_run suite ≡ created next
    → (suite.running ≡ false) × (next.running ≡ true)
unfolding begin_run
begin_run-running suite next e =
    if-elim suite.running e (λ _ refusal. ground (arith, refusal)) λ idle begun. (idle, cc)

RunStep-IsExclusive : (g h : Goroutines) → RunStep g h → IsExclusive g → IsExclusive h
unfolding begin_run end_run
RunStep-IsExclusive g _ (begins {suite = suite} e) exclusive =
    let next = begin_run-running g.suite suite e in ground (arith, next)
RunStep-IsExclusive g _ (refused e) exclusive = exclusive
RunStep-IsExclusive g _ (ends results e) exclusive = ground (arith, exclusive, e)
RunStep-IsExclusive g _ reports exclusive = exclusive

Reaches-IsExclusive :
    (suite : ConformanceTestSuite) (g : Goroutines)
    → suite.running ≡ false
    → Reaches suite g
    → IsExclusive g
Reaches-IsExclusive suite _ idle starts = ground (arith, idle)
Reaches-IsExclusive suite h idle (step {g} reached s) =
    RunStep-IsExclusive g h s (Reaches-IsExclusive suite g idle reached)

-- However the calls of `Run` and `Report` are interleaved on a suite that is not running at first,
-- at most one run is active at any time, a further run is refused exactly while one is active, and a
-- report is refused exactly then.
pub Reaches-exclusive :
    (decimal : ℕ → String) (profiles : Profiles) (suite : ConformanceTestSuite) (g : Goroutines)
    → suite.running ≡ false
    → Reaches suite g
    → (g.active ≤ 1)
      × ((begin_run g.suite ≡ failed already_running) ↔ (g.active ≡ 1))
      × ((report decimal profiles g.suite ≡ failed report_while_running) ↔ (g.active ≡ 1))
unfolding begin_run report
Reaches-exclusive decimal profiles suite g idle reached =
    ground (arith, Reaches-IsExclusive suite g idle reached)
