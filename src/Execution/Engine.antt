-- ===== src/Execution/Engine.antt =====
-- execution/engine.py: the two passes together, and the run from its plan to its report. Progress
-- lines are not modelled, which is the run with no `on_progress`.
pub mod Complete
pub mod Gate
pub mod Offline
use execution_auto.Base.{
  sort_by, ℕ, Bool, true, false, not, ◌&&◌, ◌||◌, Option, none, some, List, [], ◌∷◌, ◌++◌, map,
  if◌then◌else◌, any, length, Text, lit, mem_text, str_nat, lookup_text, Result, ok, err,
}
use execution_auto.Models.{RunMode, validate, execute}
use execution_auto.Models.Codes.{ErrorCode}
use execution_auto.Workbook.Definitions.{
  Definition, Problem, Sheet, sections, enabled_tests, disabled_tests,
}
use execution_auto.Workbook.Observations.{Rule}
use execution_auto.Workbook.Control.{RunControl}
use execution_auto.Execution.Report.{Outcome, ValidationRow, Report, sort_by_row}
use execution_auto.Execution.Outcomes.{
  Services, Setting, validated_outcome, disabled_outcome, not_executed_outcome, blocked_outcome,
  problem_outcome,
}
use execution_auto.Execution.World.{Clock, Executors}
use execution_auto.Execution.Validation.{Validation, Checks, validate_tests, gate_reason}
use execution_auto.Execution.Running.{Escape, run_tests}

-- `ExecutionPlan`
pub record Plan : Type 0 where
  pub workbook_path : Text
  pub sheet : Sheet
  pub control : RunControl
  pub rules : List Rule
  pub warnings : List Text

-- The first section of a test that failed to open, with the reason.
unfoldable pub blocked_section : List Text → List (Text × Text) → Option (Text × Text)
unfolding lookup_text
blocked_section [] failures = none
blocked_section (section ∷ rest) failures = elim (lookup_text section failures) [
  | some reason ↦ some (section, reason)
  | none ↦ blocked_section rest failures
]

-- The tests whose connections are all open, and the outcomes of the others.
pub record Split : Type 0 where
  pub runnable : List Definition
  pub blocked : List Outcome

-- The first loop of `_execute_tests`
unfoldable pub split_blocked : Setting → List (Text × Text) → List Definition → Split
unfolding blocked_section sections blocked_outcome
split_blocked s failures [] = record { runnable = []; blocked = [] }
split_blocked s failures (d ∷ ds) =
    let rest = split_blocked s failures ds in
    elim (blocked_section (sections d) failures) [
      | none ↦ record rest { runnable = d ∷ rest.runnable }
      | some (section, reason) ↦ record rest {
        blocked = blocked_outcome s d section reason ∷ rest.blocked;
      }
    ]

-- `_Passes`, with the outcomes that the passes have added
pub record Passes : Type 0 where
  pub outcomes : List Outcome
  pub warnings : List Text
  pub gate_closed : Bool
  pub validation_rows : List ValidationRow

module _ {W : Type 0} (clock : Clock W) (x : Executors W) (s : Setting) where
  abbrev pub passed_pass_two :
      List Outcome → Validation → Result Escape (List Outcome) → Result Escape Passes
  passed_pass_two blocked v (err e) = err e
  passed_pass_two blocked v (ok os) = ok (record {
    outcomes = blocked ++ os;
    warnings = v.checks.warnings;
    gate_closed = false;
    validation_rows = v.rows;
  })

  -- `_execute_tests` behind pass 1
  unfoldable pub after_validation :
      RunMode → List Outcome → Validation → List Outcome → W → Result Escape Passes × W
  unfolding run_tests gate_reason not_executed_outcome validated_outcome
  after_validation mode blocked v (f ∷ fs) w = (
    ok (record {
      outcomes =
          blocked
          ++ ((f ∷ fs)
              ++ map (not_executed_outcome s (gate_reason (f ∷ fs)) ErrorCode.run_stopped)
                  v.passed);
      warnings = v.checks.warnings ++ gate_reason (f ∷ fs) ∷ [];
      gate_closed = true;
      validation_rows = v.rows;
    }),
    w,
  )
  after_validation validate blocked v [] w = (
    ok (record {
      outcomes = blocked ++ map (validated_outcome s) v.passed;
      warnings = v.checks.warnings;
      gate_closed = false;
      validation_rows = v.rows;
    }),
    w,
  )
  after_validation execute blocked v [] w =
      let (results, w') = run_tests clock x s v.passed w in (passed_pass_two blocked v results, w')

  -- `_execute_tests`
  unfoldable pub execute_tests : RunMode → List Definition → W → Result Escape Passes × W
  unfolding split_blocked validate_tests after_validation
  execute_tests mode executable w =
      let (failures, w1) = x.open_all w in
      let split = split_blocked s failures executable in
      let (v, w2) = validate_tests x s clock split.runnable w1 in
      after_validation mode split.blocked v v.failures w2

-- Why a run ends with no report: `ReconciliationError` for want of connections, or an exception
-- that escaped.
pub data RunFailure : Type 0 where
  no_connections escaped_exception : RunFailure

abbrev pub problems_of : Plan → List Problem
problems_of p = p.sheet.problems

abbrev pub executable_of : Plan → List Definition
executable_of p = enabled_tests p.sheet

abbrev pub disabled_of : Plan → List Definition
disabled_of p = disabled_tests p.sheet

-- `bool(plan.problems) and control.stop_on_critical_config_error`
abbrev pub stops_before_databases : Plan → Bool
stops_before_databases p =
    any (λ q. true) p.sheet.problems && p.control.stop_on_critical_config_error

-- The outcomes and warnings of the rows that no pass touches.
unfoldable pub untouched : Plan → Setting → ℕ → List Outcome
unfolding problem_outcome disabled_outcome disabled_tests
untouched p s started =
    map (problem_outcome s started) (problems_of p) ++ map (disabled_outcome s) (disabled_of p)

unfoldable pub stop_warnings : Plan → List Text
unfolding any lit str_nat
stop_warnings p =
    if stops_before_databases p
    then (str_nat (length p.sheet.problems)
        ++ lit
            " configuration error(s) and Stop_On_Critical_Config_Error = Yes, so no database was opened.")
      ∷ []
    else []

abbrev pub nothing_opened : List Outcome → Passes
nothing_opened os = record {
  outcomes = os;
  warnings = [];
  gate_closed = false;
  validation_rows = [];
}

module _ {W : Type 0} (clock : Clock W) (s : Setting) where
  abbrev pub passes_or_failure : Result Escape Passes → Result RunFailure Passes
  passes_or_failure (ok p) = ok p
  passes_or_failure (err e) = err escaped_exception

  -- The branch that opens the databases
  unfoldable pub run_connected :
      List Definition
      → RunMode
      → Option (Executors W)
      → W
      → Result RunFailure Passes × List Text × W
  unfolding execute_tests
  run_connected ds mode none w = (err no_connections, [], w)
  run_connected ds mode (some x) w =
      let (passes, w') = execute_tests clock x s mode ds w in
      (passes_or_failure passes, x.sections, w')

  -- The body of the `try`: what the passes say, and the connections that they use.
  unfoldable pub run_passes :
      Plan → RunMode → Option (Executors W) → W → Result RunFailure Passes × List Text × W
  unfolding run_connected not_executed_outcome enabled_tests any lit
  run_passes p mode executors w =
      let offline = λ (reason : Text) (code : ErrorCode).
        nothing_opened (map (not_executed_outcome s reason code) (executable_of p)) in
      if p.control.dry_run
      then (
        ok (
            offline (lit "Dry run: the test was validated but no SQL was executed.")
              ErrorCode.dry_run),
        [],
        w,
      )
      else if stops_before_databases p
      then (
        ok (
            offline
              (lit "Stopped before any database was opened by a critical configuration error.")
              ErrorCode.run_stopped),
        [],
        w,
      )
      else run_connected (executable_of p) mode executors w

  -- The `finally`
  unfoldable pub close_connections : Option (Executors W) → W → W
  close_connections none w = w
  close_connections (some x) w = x.close_all w

  abbrev pub report_of : Plan → ℕ → ℕ → List Text → Passes → Report
  report_of p started completed connections passes = record {
    run_id = s.run_id;
    started_at = started;
    completed_at = completed;
    workbook_path = p.workbook_path;
    outcomes = sort_by_row (untouched p s started ++ passes.outcomes);
    template_version = p.control.template_version;
    output_path = none;
    dry_run = p.control.dry_run;
    stopped_by_validation = passes.gate_closed;
    warnings = p.warnings ++ (stop_warnings p ++ passes.warnings);
    connections = connections;
    validation_rows = passes.validation_rows;
  }

  abbrev pub finish :
      Plan
      → ℕ
      → Result RunFailure Passes × List Text × W
      → Option (Executors W)
      → Result RunFailure Report × W
  finish p started (err e, connections, w) executors = (err e, close_connections executors w)
  finish p started (ok passes, connections, w) executors =
      let (completed, w') = clock.now (close_connections executors w) in
      (ok (report_of p started completed connections passes), w')

-- `_outcome` is called with the plan's rules and control.
abbrev pub setting_of : Services → Text → Plan → Setting
setting_of services run_id p = record {
  services = services;
  rules = p.rules;
  control = p.control;
  run_id = run_id;
}

module _ {W : Type 0} (clock : Clock W) (services : Services) (run_id : Text) where
  -- `execute_plan` up to the report
  unfoldable pub run_plan :
      Plan → RunMode → Option (Executors W) → ℕ → W → Result RunFailure Report × W
  unfolding run_passes close_connections untouched stop_warnings sort_by
  run_plan p mode executors started w =
      let s = setting_of services run_id p in
      finish clock s p started (run_passes clock s p mode executors w) executors

  -- `execute_plan`: the report is returned as it is on a dry run or when nothing shall be written;
  -- otherwise the result workbook is written, here a parameter.
  unfoldable pub execute_plan :
      (Plan → Report → W → Result RunFailure Report × W)
      → Bool
      → Plan
      → RunMode
      → Option (Executors W)
      → ℕ
      → W
      → Result RunFailure Report × W
  unfolding run_plan
  execute_plan write_results write_output p mode executors started w =
      let (result, w') = run_plan p mode executors started w in
      elim result [
        | err e ↦ (err e, w')
        | ok report ↦
            if p.control.dry_run || not write_output
            then (ok report, w')
            else write_results p report w'
      ]
