-- ===== src/Execution/Report/Totals.antt =====
-- execution/engine.py `RunReport.overall_status`, one outcome at a time.
use execution_auto.Base.{ℕ, ◌+◌, ◌≡◌, refl, Bool, true, false, List, [], ◌∷◌, arith, ◌==◌, All, ◌↔◌}
use execution_auto.Models.{TestStatus}
use execution_auto.Workbook.Observations.{status_eq}
use execution_auto.Execution.Report.{
  Outcome, Report, count, enabled_tests, blocked_error, Overall, overall_status,
}

-- Nothing is wrong with a test of this status, or the test is disabled.
abbrev pub calm : TestStatus → Bool
calm TestStatus.pass = true
calm TestStatus.profiled = true
calm TestStatus.validated = true
calm TestStatus.disabled = true
calm _ = false

abbrev pub IsCalm : Outcome → Type 0
IsCalm o = calm o.status ≡ true

-- How many outcomes are of a status that keeps a run from passing.
abbrev bad : List Outcome → ℕ
bad os =
    count TestStatus.fail os
    + (count TestStatus.error os
        + count TestStatus.syntax_error os
        + count TestStatus.blocked os
        + count TestStatus.config_error os)
    + count TestStatus.not_executed os

bad-All : (os : List Outcome) → bad os ≡ 0 → All IsCalm os
unfolding count status_eq
bad-All [] h = tt
bad-All (o ∷ os) h = ground (arith, bad-All os)

All-bad : (os : List Outcome) → All IsCalm os → bad os ≡ 0
unfolding count status_eq
All-bad [] h = refl
All-bad (o ∷ os) h = ground (arith, All-bad os h.1)

-- A run is PASS exactly when at least one test is enabled and every outcome is PASS, PROFILED,
-- VALIDATED or DISABLED.
pub overall_status-pass :
    (r : Report)
    → (overall_status r ≡ Overall.pass)
      ↔ ((enabled_tests r.outcomes == 0) ≡ false) × All IsCalm r.outcomes
unfolding overall_status blocked_error
overall_status-pass r = (
  (λ h.
      let none_bad : bad r.outcomes ≡ 0 = ground arith in
      (ground arith, bad-All r.outcomes none_bad)),
  (λ h. ground (arith, All-bad r.outcomes h.1)),
)
