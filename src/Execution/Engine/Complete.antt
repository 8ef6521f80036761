-- ===== src/Execution/Engine/Complete.antt =====
-- execution/engine.py: the outcomes of a report, counted by row number, and their order.
use execution_auto.Base.{
  ◌∙◌, ℕ, ◌+◌, ◌≡◌, refl, subst, Option, none, some, List, [], ◌∷◌, ◌++◌, map, arith, Text, occurs,
  occurs-append, InOrder, sort_by-InOrder, occurs-sort_by, occurs-keep, occurs-map, inl, inr,
  Bool-cases, Result, ok, err,
}
use execution_auto.Evaluation.Values.{Python}
use execution_auto.Models.{RunMode, validate, execute}
use execution_auto.Models.Codes.{ErrorCode}
use execution_auto.Workbook.Definitions.{Definition, enabled_tests, disabled_tests}
use execution_auto.Execution.Report.{Outcome, outcome_row, Report}
use execution_auto.Execution.Outcomes.{
  Services, Setting, outcome, validated_outcome, disabled_outcome, not_executed_outcome,
  blocked_outcome, problem_outcome,
}
use execution_auto.Execution.World.{Clock, Executors}
use execution_auto.Execution.Validation.{Validation, validate_tests, gate_reason}
use execution_auto.Workbook.Cells.{Row}
use execution_auto.Workbook.TestCases.{read_rows}
use execution_auto.Workbook.TestCases.Rows.{
  definition_row, problem_row, input_row, read_rows-covers,
}
use execution_auto.Execution.Validation.Covers.{validate_tests-covers}
use execution_auto.Execution.Running.{Escape, run_tests}
use execution_auto.Execution.Running.Stops.{Covers, run_tests-Covers}
use execution_auto.Execution.Engine.{
  Plan, split_blocked, Passes, passed_pass_two, after_validation, execute_tests, RunFailure,
  executable_of, disabled_of, problems_of, stops_before_databases, untouched, passes_or_failure,
  run_connected, run_passes, finish, setting_of, run_plan,
}

-- The outcomes of the passes have `k` on the row `n`, if the passes return.
abbrev CountOn : {E : Type 0} → ℕ → ℕ → Result E Passes → Type 0
CountOn n k (ok p) = occurs outcome_row n p.outcomes ≡ k
CountOn n k (err e) = Unit

module _ (s : Setting) (n : ℕ) where
  not_executed-covers :
      (reason : Text) (code : ErrorCode) (ds : List Definition)
      → occurs outcome_row n (map (not_executed_outcome s reason code) ds)
        ≡ occurs definition_row n ds
  unfolding not_executed_outcome outcome
  not_executed-covers reason code ds =
      occurs-map outcome_row definition_row n (not_executed_outcome s reason code) ds (λ d. refl)

  validated-covers :
      (ds : List Definition)
      → occurs outcome_row n (map (validated_outcome s) ds) ≡ occurs definition_row n ds
  unfolding validated_outcome outcome
  validated-covers ds = occurs-map outcome_row definition_row n (validated_outcome s) ds (λ d. refl)

  untouched-covers :
      (p : Plan) (started : ℕ)
      → occurs outcome_row n (untouched p s started)
        ≡ occurs problem_row n p.sheet.problems + occurs definition_row n (disabled_of p)
  unfolding untouched problem_outcome disabled_outcome outcome
  untouched-covers p started = omega (
    arith,
    occurs-append outcome_row n (map (problem_outcome s started) (problems_of p))
        (map (disabled_outcome s) (disabled_of p)),
    occurs-map outcome_row problem_row n (problem_outcome s started) (problems_of p) (λ q. refl),
    occurs-map outcome_row definition_row n (disabled_outcome s) (disabled_of p) (λ d. refl),
  )

  split_blocked-covers :
      (failures : List (Text × Text)) (ds : List Definition)
      → occurs outcome_row n (split_blocked s failures ds).blocked
          + occurs definition_row n (split_blocked s failures ds).runnable
        ≡ occurs definition_row n ds
  unfolding split_blocked blocked_outcome outcome
  split_blocked-covers failures [] = refl
  split_blocked-covers failures (d ∷ ds) = ground (arith, split_blocked-covers failures ds)

module _ {W : Type 0} (clock : Clock W) (x : Executors W) (s : Setting) (n : ℕ) where
  pass_two-Covers :
      (blocked : List Outcome) (v : Validation) (r : Result Escape (List Outcome))
      → Covers n v.passed r
      → CountOn n
          (occurs outcome_row n blocked + occurs definition_row n v.passed)
          (passed_pass_two clock x s blocked v r)
  pass_two-Covers blocked v (ok os) h = ground (arith, occurs-append outcome_row n blocked os)
  pass_two-Covers blocked v (err e) h = tt

  after_validation-covers :
      (mode : RunMode) (blocked : List Outcome) (v : Validation) (fs : List Outcome) (w : W)
      → CountOn n
          (occurs outcome_row n blocked
            + (occurs outcome_row n fs + occurs definition_row n v.passed))
          (after_validation clock x s mode blocked v fs w).0
  unfolding after_validation
  after_validation-covers mode blocked v (f ∷ fs) w =
      let reason = gate_reason (f ∷ fs) in
      let rest = map (not_executed_outcome s reason ErrorCode.run_stopped) v.passed in
      ground (
        arith,
        occurs-append outcome_row n blocked ((f ∷ fs) ++ rest),
        occurs-append outcome_row n fs rest,
        not_executed-covers s n reason ErrorCode.run_stopped v.passed,
      )
  after_validation-covers validate blocked v [] w = ground (
    arith,
    occurs-append outcome_row n blocked (map (validated_outcome s) v.passed),
    validated-covers s n v.passed,
  )
  after_validation-covers execute blocked v [] w =
      let results = (run_tests clock x s v.passed w).0 in
      subst
        (λ k.
          CountOn n (occurs outcome_row n blocked + k)
            (passed_pass_two clock x s blocked v results))
        (omega arith) (pass_two-Covers blocked v results (run_tests-Covers clock x s n v.passed w))

  execute_tests-covers :
      (mode : RunMode) (ds : List Definition) (w : W)
      → CountOn n (occurs definition_row n ds) (execute_tests clock x s mode ds w).0
  unfolding execute_tests
  execute_tests-covers mode ds w =
      let (failures, w1) = x.open_all w in
      let split = split_blocked s failures ds in
      let (v, w2) = validate_tests x s clock split.runnable w1 in
      let total = split_blocked-covers s n failures ds in
      let checked = validate_tests-covers x s clock n split.runnable w1 in
      subst (λ k. CountOn n k (after_validation clock x s mode split.blocked v v.failures w2).0)
        (omega (arith, total, checked)) (after_validation-covers mode split.blocked v v.failures w2)

-- The report, if there is one, is in row order and has `k` outcomes on the row `n`.
abbrev Complete : ℕ → ℕ → Result RunFailure Report → Type 0
Complete n k (ok r) = (occurs outcome_row n r.outcomes ≡ k) × InOrder outcome_row r.outcomes
Complete n k (err e) = Unit

module _ {W : Type 0} (clock : Clock W) (s : Setting) (n : ℕ) (p : Plan) where
  returned-covers :
      (k : ℕ) (r : Result Escape Passes) → CountOn n k r → CountOn n k (passes_or_failure clock s r)
  returned-covers k (ok passes) h = h
  returned-covers k (err e) h = tt

  connected-covers :
      (mode : RunMode) (executors : Option (Executors W)) (w : W)
      → CountOn n
          (occurs definition_row n (executable_of p))
          (run_connected clock s (executable_of p) mode executors w).0
  unfolding run_connected
  connected-covers mode none w = tt
  connected-covers mode (some x) w =
      returned-covers (occurs definition_row n (executable_of p))
        (execute_tests clock x s mode (executable_of p) w).0
        (execute_tests-covers clock x s n mode (executable_of p) w)

  run_passes-covers :
      (mode : RunMode) (executors : Option (Executors W)) (w : W)
      → CountOn n
          (occurs definition_row n (executable_of p))
          (run_passes clock s p mode executors w).0
  unfolding run_passes
  run_passes-covers mode executors w = elim (Bool-cases p.control.dry_run) [
    | inl dry ↦ rw (dry, CountOn) (not_executed-covers s n _ _ (executable_of p))
    | inr wet ↦ elim (Bool-cases (stops_before_databases p)) [
      | inl stopped ↦ rw (wet, stopped, CountOn) (not_executed-covers s n _ _ (executable_of p))
      | inr fine ↦ rw (wet, fine, CountOn) (connected-covers mode executors w)
    ]
  ]

  finish-Complete :
      (started : ℕ) (executors : Option (Executors W)) (k : ℕ) (r : Result RunFailure Passes)
      (connections : List Text) (w : W)
      → CountOn n k r
      → Complete n
          ((occurs problem_row n p.sheet.problems + occurs definition_row n (disabled_of p)) + k)
          (finish clock s p started (r, connections, w) executors).0
  finish-Complete started executors k (ok passes) connections w h =
      let os = untouched p s started ++ passes.outcomes in
      (
        omega (
          arith,
          h,
          occurs-sort_by outcome_row n os,
          occurs-append outcome_row n (untouched p s started) passes.outcomes,
          untouched-covers s n p started,
        ),
        sort_by-InOrder outcome_row os,
      )
  finish-Complete started executors k (err e) connections w h = tt

module _ {W : Type 0} (clock : Clock W) (services : Services) (run_id : Text) where
  run_plan-Complete :
      (p : Plan) (mode : RunMode) (executors : Option (Executors W)) (started : ℕ) (w : W) (n : ℕ)
      → Complete n
          (occurs problem_row n p.sheet.problems + occurs definition_row n p.sheet.definitions)
          (run_plan clock services run_id p mode executors started w).0
  unfolding run_plan disabled_tests enabled_tests
  run_plan-Complete p mode executors started w n =
      let s = setting_of services run_id p in
      let (passes, connections, w') = run_passes clock s p mode executors w in
      let rows = occurs-keep definition_row n (λ d. d.enabled) p.sheet.definitions in
      subst (λ k. Complete n k (finish clock s p started (passes, connections, w') executors).0)
        (omega (arith, rows))
        (finish-Complete clock s n p started executors (occurs definition_row n (executable_of p))
          passes connections w' (run_passes-covers clock s n p mode executors w))

  -- When a run returns a report, then on every row number the report has exactly as many outcomes
  -- as the sheet has definitions and problems on that row: no test is lost, and none is counted
  -- twice, whichever way the run went.
  pub run_plan-covers :
      (p : Plan) (mode : RunMode) (executors : Option (Executors W)) (started : ℕ) (w w' : W)
      (r : Report) (n : ℕ)
      → run_plan clock services run_id p mode executors started w ≡ (ok r, w')
      → occurs outcome_row n r.outcomes
        ≡ occurs problem_row n p.sheet.problems + occurs definition_row n p.sheet.definitions
  run_plan-covers p mode executors started w w' r n e =
      (subst
        (λ result.
          Complete n
            (occurs problem_row n p.sheet.problems + occurs definition_row n p.sheet.definitions)
            result.0)
        e (run_plan-Complete p mode executors started w n)).0

  -- When a run returns a report, then its outcomes are in ascending order of their row numbers.
  pub run_plan-InOrder :
      (p : Plan) (mode : RunMode) (executors : Option (Executors W)) (started : ℕ) (w w' : W)
      (r : Report)
      → run_plan clock services run_id p mode executors started w ≡ (ok r, w')
      → InOrder outcome_row r.outcomes
  run_plan-InOrder p mode executors started w w' r e =
      (subst
        (λ result.
          Complete 0
            (occurs problem_row 0 p.sheet.problems + occurs definition_row 0 p.sheet.definitions)
            result.0)
        e (run_plan-Complete p mode executors started w 0)).1

  -- From the sheet to the report: when a run of the sheet that the reader returned returns a report,
  -- every row of the sheet that is not blank has exactly one outcome in it.
  pub read-run_plan-covers :
      (py : Python) (known : List Text) (rows : List (ℕ × Row)) (p : Plan) (mode : RunMode)
      (executors : Option (Executors W)) (started : ℕ) (w w' : W) (r : Report) (n : ℕ)
      → read_rows py known [] rows ≡ some p.sheet
      → run_plan clock services run_id p mode executors started w ≡ (ok r, w')
      → occurs outcome_row n r.outcomes ≡ occurs input_row n rows
  read-run_plan-covers py known rows p mode executors started w w' r n read e =
      run_plan-covers p mode executors started w w' r n e
      ∙ read_rows-covers py known [] rows p.sheet n read
