-- ===== src/Runner/Records/Clean.antt =====
-- models.py `RunSummary.is_clean`: what it says of each result.
use execution_auto.Base.{ℕ, ◌+◌, ◌≡◌, ◌↔◌, Bool, true, false, ◌||◌, List, [], ◌∷◌, All, arith}
use execution_auto.Runner.Records.{
  ExecutionStatus, ExecutionResult, RunSummary, is_status, count, is_clean,
}

-- FAIL, ERROR or NOT EXECUTED
abbrev pub is_unclean : ExecutionResult → Bool
is_unclean r =
    is_status r.status ExecutionStatus.fail
    || (is_status r.status ExecutionStatus.error || is_status r.status ExecutionStatus.not_executed)

abbrev uncleans : List ExecutionResult → ℕ
uncleans rs =
    count ExecutionStatus.fail rs
    + (count ExecutionStatus.error rs + count ExecutionStatus.not_executed rs)

uncleans_zero : (rs : List ExecutionResult) → uncleans rs ≡ 0 → All (λ r. is_unclean r ≡ false) rs
unfolding count
uncleans_zero [] h = tt
uncleans_zero (r ∷ rs) h = (ground arith, uncleans_zero rs (ground arith))

zero_uncleans : (rs : List ExecutionResult) → All (λ r. is_unclean r ≡ false) rs → uncleans rs ≡ 0
unfolding count
zero_uncleans [] h = omega arith
zero_uncleans (r ∷ rs) h = ground (arith, zero_uncleans rs (h.1), h.0)

-- A run is clean if and only if none of its results is FAIL, ERROR or NOT EXECUTED.
pub is_clean-All :
    (s : RunSummary) → (is_clean s ≡ true) ↔ All (λ r. is_unclean r ≡ false) s.results
unfolding is_clean
is_clean-All s = (
  (λ clean. uncleans_zero s.results (ground arith)),
  (λ all. ground (arith, zero_uncleans s.results all)),
)
