-- ===== src/Execution/Running/Stops.antt =====
-- execution/engine.py, pass 2: the rows of its outcomes, and what follows an error.
use execution_auto.Base.{
  ℕ, ◌≡◌, refl, subst, true, false, List, [], ◌∷◌, ◌++◌, arith, Text, lit, is_empty, occurs, All,
  inl, inr, Bool-cases, Result, ok, err, Result-cases,
}
use execution_auto.Models.{TestStatus}
use execution_auto.Evaluation.Values.{Scalar, Value}
use execution_auto.Evaluation.Comparisons.{Request, Verdict}
use execution_auto.Evaluation.Comparisons.Rules.{compare}
use execution_auto.Workbook.Definitions.{Definition}
use execution_auto.Execution.Report.{Outcome, outcome_row}
use execution_auto.Execution.Outcomes.{
  Side, sides_of, section_of, sql_of, BySide, Setting, outcome, not_executed_outcome,
}
use execution_auto.Execution.World.{Clock, Executors}
use execution_auto.Workbook.TestCases.Rows.{definition_row}
use execution_auto.Execution.Running.{
  Gathered, nothing_gathered, Escape, query_failure, normalize_all, request_of, decided_outcome,
  decide, run_sides, settle_sides, execute_one, stops, reason_after, cons_outcome, not_run,
  run_tests,
}

-- What is returned, if anything is, stands on the row.
abbrev OnRow : {E : Type 0} → ℕ → Result E Outcome → Type 0
OnRow n (ok o) = o.row_number ≡ n
OnRow n (err e) = Unit

-- One outcome for every test, if the run ends.
abbrev pub Covers : ℕ → List Definition → Result Escape (List Outcome) → Type 0
Covers n ds (ok os) = occurs outcome_row n os ≡ occurs definition_row n ds
Covers n ds (err e) = Unit

-- Behind an outcome that stops the run, every one is NOT EXECUTED.
abbrev pub Stopped : List Outcome → Type 0
Stopped [] = Unit
Stopped (o ∷ os) =
    (stops o.status ≡ true → All (λ p. p.status ≡ TestStatus.not_executed) os) × Stopped os

abbrev pub Stops : Result Escape (List Outcome) → Type 0
Stops (ok os) = Stopped os
Stops (err e) = Unit

abbrev RefusedOnRow : {A : Type 0} → ℕ → Result Outcome A → Type 0
RefusedOnRow n (ok a) = Unit
RefusedOnRow n (err o) = o.row_number ≡ n

abbrev NormalizedOnRow : {A : Type 0} → ℕ → Result Escape (Result Outcome A) → Type 0
NormalizedOnRow n (ok r) = RefusedOnRow n r
NormalizedOnRow n (err e) = Unit

module _ (s : Setting) (d : Definition) (at : ℕ) (g : Gathered) where
  normalize_all-OnRow :
      (values : BySide Scalar) → NormalizedOnRow d.row_number (normalize_all s d at g values)
  unfolding normalize_all outcome
  normalize_all-OnRow [] = tt
  normalize_all-OnRow ((side, value) ∷ rest) = ground (arith, normalize_all-OnRow rest)

  decided-row :
      (values : BySide Value) (request : Request) (r : Result Text Verdict)
      → (decided_outcome s d at g values request r).row_number ≡ d.row_number
  unfolding outcome
  decided-row values request (ok v) = refl
  decided-row values request (err m) = refl

  decide-OnRow : OnRow d.row_number (decide s d at g)
  unfolding decide
  decide-OnRow =
      let values = normalize_all-OnRow g.raw in
      elim (Result-cases (normalize_all s d at g g.raw)) [
        | inl (ok vs, normalized) ↦
            rw (normalized, OnRow)
              (decided-row vs (request_of s d vs) (compare s.services.py (request_of s d vs)))
        | inl (err o, refused) ↦
            rw (refused, OnRow) (subst (λ r. NormalizedOnRow d.row_number r) refused values)
        | inr (e, escaped) ↦ rw (escaped, OnRow) tt
      ]

settle-OnRow :
    (s : Setting) (d : Definition) (at : ℕ) (r : Result Outcome Gathered)
    → RefusedOnRow d.row_number r
    → OnRow d.row_number (settle_sides s d at r)
settle-OnRow s d at (ok g) h = decide-OnRow s d at g
settle-OnRow s d at (err o) h = h

module _ {W : Type 0} (clock : Clock W) (x : Executors W) (s : Setting) where
  run_sides-OnRow :
      (d : Definition) (at : ℕ) (sides : List Side) (g : Gathered) (w : W)
      → RefusedOnRow d.row_number (run_sides clock x s d at sides g w).0
  unfolding run_sides query_failure outcome
  run_sides-OnRow d at [] g w = tt
  run_sides-OnRow d at (side ∷ sides) g w =
      let databases = g.databases ++ (side, x.database_name (section_of d side)) ∷ [] in
      let (started, w1) = clock.perf_counter w in
      let (answer, w2) =
        x.execute_scalar (section_of d side) (sql_of d side) s.control.query_timeout_seconds w1 in
      let (ended, w3) = clock.perf_counter w2 in
      let durations = g.durations ++ (side, clock.elapsed_ms started ended) ∷ [] in
      elim (Result-cases answer) [
        | inl (value, answered) ↦
            rw (answered, RefusedOnRow)
              (run_sides-OnRow d at sides
                (record {
                  raw = g.raw ++ (side, value) ∷ [];
                  durations = durations;
                  databases = databases;
                })
                w3)
        | inr (e, failed) ↦ rw (failed, RefusedOnRow) refl
      ]

  execute_one-OnRow : (d : Definition) (w : W) → OnRow d.row_number (execute_one clock x s d w).0
  unfolding execute_one
  execute_one-OnRow d w =
      let (at, w1) = clock.now w in
      settle-OnRow s d at (run_sides clock x s d at (sides_of d.scope) nothing_gathered w1).0
        (run_sides-OnRow d at (sides_of d.scope) nothing_gathered w1)

  cons-Covers :
      (n : ℕ) (d : Definition) (o : Outcome) (ds : List Definition)
      (r : Result Escape (List Outcome))
      → o.row_number ≡ d.row_number
      → Covers n ds r
      → Covers n (d ∷ ds) (cons_outcome o r)
  cons-Covers n d o ds (ok os) row h = ground arith
  cons-Covers n d o ds (err e) row h = tt

  not_run_covers :
      (n : ℕ) (reason : Text) (ds : List Definition)
      → occurs outcome_row n (not_run s reason ds) ≡ occurs definition_row n ds
  unfolding not_executed_outcome outcome
  not_run_covers n reason [] = refl
  not_run_covers n reason (d ∷ ds) = ground (arith, not_run_covers n reason ds)

  pub run_tests-Covers :
      (n : ℕ) (ds : List Definition) (w : W) → Covers n ds (run_tests clock x s ds w).0
  unfolding run_tests
  run_tests-Covers n [] w = refl
  run_tests-Covers n (d ∷ ds) w =
      let (result, w1) = execute_one clock x s d w in
      let row = execute_one-OnRow d w in
      elim (Result-cases result) [
        | inr (e, escaped) ↦ rw (escaped, Covers) tt
        | inl (o, ran) ↦
            let here = subst (λ r. OnRow d.row_number r) ran row in
            elim (Bool-cases (is_empty (reason_after s d o))) [
              | inl goes_on ↦
                  rw (ran, goes_on, Covers)
                    (cons-Covers n d o ds (run_tests clock x s ds w1).0 here
                      (run_tests-Covers n ds w1))
              | inr stopped ↦
                  rw (ran, stopped, Covers)
                    (cons-Covers n d o ds (ok (not_run s (reason_after s d o) ds)) here
                      (not_run_covers n (reason_after s d o) ds))
            ]
      ]

  keeps_going :
      (d : Definition) (o : Outcome)
      → s.control.continue_on_test_error ≡ false
      → is_empty (reason_after s d o) ≡ true
      → stops o.status ≡ false
  unfolding lit is_empty
  keeps_going d o h e = ground arith

  cons-Stops :
      (o : Outcome) (r : Result Escape (List Outcome))
      → stops o.status ≡ false
      → Stops r
      → Stops (cons_outcome o r)
  cons-Stops o (ok os) h hs = (ground arith, hs)
  cons-Stops o (err e) h hs = tt

  not_run-Stopped :
      (reason : Text) (ds : List Definition)
      → All (λ p. p.status ≡ TestStatus.not_executed) (not_run s reason ds)
        × Stopped (not_run s reason ds)
  unfolding not_executed_outcome outcome
  not_run-Stopped reason [] = (tt, tt)
  not_run-Stopped reason (d ∷ ds) =
      let rest = not_run-Stopped reason ds in ((refl, rest.0), ((λ _. rest.0), rest.1))

  -- With Continue_On_Test_Error = No, if pass 2 ends, every outcome behind one that is ERROR or
  -- BLOCKED is NOT_EXECUTED.
  pub run_tests-Stops :
      (ds : List Definition) (w : W)
      → s.control.continue_on_test_error ≡ false
      → Stops (run_tests clock x s ds w).0
  unfolding run_tests
  run_tests-Stops [] w h = tt
  run_tests-Stops (d ∷ ds) w h =
      let (result, w1) = execute_one clock x s d w in
      elim (Result-cases result) [
        | inr (e, escaped) ↦ rw (escaped, Stops) tt
        | inl (o, ran) ↦ elim (Bool-cases (is_empty (reason_after s d o))) [
          | inl goes_on ↦
              rw (ran, goes_on, Stops)
                (cons-Stops o (run_tests clock x s ds w1).0 (keeps_going d o h goes_on)
                  (run_tests-Stops ds w1 h))
          | inr stopped ↦
              rw (ran, stopped, Stops)
                (
                  (λ _. (not_run-Stopped (reason_after s d o) ds).0),
                  (not_run-Stopped (reason_after s d o) ds).1,
                )
        ]
      ]
