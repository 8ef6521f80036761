-- ===== src/Execution/Examples.antt =====
-- A concrete run: one test on each side of a server that counts what it executes, one disabled test
-- and one row that could not be read.
use execution_auto.Base.{
  lit, ℕ, ◌+◌, ◌≡◌, ◌↔◌, refl, Bool, true, false, none, some, [], ◌∷◌, ◌==◌, if◌then◌else◌, occurs,
  All, InOrder, Text, text_eq, Result, ok, err, pos,
}
use execution_auto.Models.{
  source_target, uses_target, validate, execute, ComparisonType, ResultType, TestStatus, Platform,
}
use execution_auto.Models.Codes.{ErrorCode}
use execution_auto.Evaluation.Decimal.{of_int}
use execution_auto.Evaluation.Comparisons.Rules.{compare, comparisons, record_only}
use execution_auto.Evaluation.Values.{Scalar, Value}
use execution_auto.Database.Failures.{Failure, FailureClass}
use execution_auto.Workbook.Definitions.{Definition, Problem}
use execution_auto.Workbook.Control.{RunControl, OutputMode}
use execution_auto.Execution.Report.{outcome_row, Report, Overall, overall_status, enabled_tests}
use execution_auto.Execution.Report.Totals.{IsCalm, overall_status-pass}
use execution_auto.Execution.Outcomes.{BySide, get, source_side, Services, outcome}
use execution_auto.Execution.World.{Clock, Executors}
use execution_auto.Workbook.TestCases.{read_rows}
use execution_auto.Workbook.TestCases.Rows.{definition_row, problem_row, input_row}
use execution_auto.Workbook.TestCases.Examples.{plain_python, good_row, known, good, reads_good_row}
use execution_auto.Execution.Running.Comparable.{read_enabled-compare}
use execution_auto.Execution.Running.{request_of, run_tests}
use execution_auto.Execution.Running.Stops.{Stops, run_tests-Stops}
use execution_auto.Execution.Engine.{Plan, RunFailure, setting_of, run_plan}
use execution_auto.Execution.Engine.Complete.{
  run_plan-covers, read-run_plan-covers, run_plan-InOrder,
}
use execution_auto.Execution.Engine.Gate.{run_plan-validate-keeps, run_plan-gate-keeps}
use execution_auto.Execution.Engine.Offline.{Returned, run_plan-offline-keeps}

abbrev services : Services
services = record { py = plain_python; mask = λ t. t }

-- The world is the number of queries that were executed.
abbrev clock : Clock ℕ
clock = record { now = λ w. (7, w); perf_counter = λ w. (0, w); elapsed_ms = λ a b. 0 }

abbrev rejected : Failure
rejected = record { class = FailureClass.syntax_rejected; type_name = []; message = [] }

-- The check refuses the statement `x`, and executing `e` raises.
abbrev server : Executors ℕ
server = record {
  sections = [];
  open_all = λ w. ([], w);
  validate_syntax =
      λ section sql timeout w. (if text_eq sql (b'x' ∷ []) then some rejected else none, w);
  execute_scalar = λ section sql timeout w.
      (if text_eq sql (b'e' ∷ []) then err rejected else ok (Scalar.integer (pos 3)), w + 1);
  database_name = λ section. [];
  close_all = λ w. w;
}

abbrev control : Bool → RunControl
control dry = record {
  template_version = [];
  query_timeout_seconds = 5;
  max_parallel_workers = 1;
  continue_on_test_error = false;
  stop_on_critical_config_error = false;
  observation_max_length = 100;
  error_detail_max_length = 100;
  output_mode = OutputMode.new_file;
  output_directory_env = [];
  evidence_directory_env = [];
  dry_run = dry;
  require_read_only_sql = true;
  warnings = [];
  defaulted = false;
}

abbrev test : ℕ → Bool → Text → Definition
test row on sql = record {
  test_id = b'T' ∷ [];
  row_number = row;
  enabled = on;
  scope = source_target;
  comparison = ComparisonType.no_comparison;
  result_type = ResultType.integer;
  source_section = b's' ∷ [];
  target_section = b't' ∷ [];
  source_sql = sql;
  target_sql = sql;
  expected_value = none;
  expected_raw = Scalar.null;
  absolute_tolerance = of_int (pos 0);
  percentage_tolerance = of_int (pos 0);
  details = [];
}

abbrev problem : Problem
problem = record {
  row_number = 4;
  test_id = [];
  code = ErrorCode.missing_test_id;
  message = [];
  platform = Platform.workbook;
  status = TestStatus.config_error;
}

abbrev plan : Bool → Text → Plan
plan dry sql = record {
  workbook_path = [];
  sheet = record { definitions = test 2 true sql ∷ test 3 false sql ∷ []; problems = problem ∷ [] };
  control = control dry;
  rules = [];
  warnings = [];
}

abbrev no_report : Report
no_report = record {
  run_id = [];
  started_at = 0;
  completed_at = 0;
  workbook_path = [];
  outcomes = [];
  template_version = [];
  output_path = none;
  dry_run = false;
  stopped_by_validation = false;
  warnings = [];
  connections = [];
  validation_rows = [];
}

abbrev report_in : Result RunFailure Report → Report
report_in (ok r) = r
report_in (err e) = no_report

abbrev run : Text → Result RunFailure Report × ℕ
unfolding run_plan comparisons record_only outcome
run sql = run_plan clock services [] (plan false sql) execute (some server) 0 0

executes_both_sides : (run (b'q' ∷ [])).1 ≡ 2
unfolding run run_plan comparisons record_only outcome
executes_both_sides = refl

stops_at_failed_query : (run (b'e' ∷ [])).1 ≡ 1
unfolding run run_plan comparisons record_only outcome
stops_at_failed_query = refl

run_plan-covers_example :
    occurs outcome_row 3 (report_in (run (b'q' ∷ [])).0).outcomes
    ≡ occurs problem_row 3 (plan false (b'q' ∷ [])).sheet.problems
      + occurs definition_row 3 (plan false (b'q' ∷ [])).sheet.definitions
unfolding run run_plan comparisons record_only outcome
run_plan-covers_example =
    run_plan-covers clock services [] (plan false (b'q' ∷ [])) execute (some server) 0 0 2
      (report_in (run (b'q' ∷ [])).0) 3 refl

run_plan-InOrder_example : InOrder outcome_row (report_in (run (b'q' ∷ [])).0).outcomes
unfolding run run_plan comparisons record_only outcome
run_plan-InOrder_example =
    run_plan-InOrder clock services [] (plan false (b'q' ∷ [])) execute (some server) 0 0 2
      (report_in (run (b'q' ∷ [])).0) refl

abbrev IsIdle : ℕ → Type 0
IsIdle w = w ≡ 0

run_plan-validate-keeps_example :
    (run_plan clock services [] (plan false (b'q' ∷ [])) validate (some server) 0 0).1 ≡ 0
run_plan-validate-keeps_example =
    run_plan-validate-keeps clock server IsIdle (λ w h. h) (λ w h. h) (λ section sql timeout w h. h)
      (λ w h. h) services [] (plan false (b'q' ∷ [])) 0 0 refl

run_plan-gate-keeps_example : IsIdle (run (b'x' ∷ [])).1
unfolding run run_plan outcome
run_plan-gate-keeps_example =
    run_plan-gate-keeps clock server IsIdle (λ w h. h) (λ w h. h) (λ section sql timeout w h. h)
      (λ w h. h) services [] (plan false (b'x' ∷ [])) 0 0 0 (report_in (run (b'x' ∷ [])).0) refl
      refl refl

-- Nothing is to be closed where no connection was given.
no_server : (x : Executors ℕ) (w : ℕ) → none ≡ some x → IsIdle w → IsIdle (x.close_all w)
no_server x w given h = absurd (cc)

run_plan-offline-keeps_example :
    Returned clock none IsIdle
      (λ w h. h)
      no_server
      (run_plan clock services [] (plan true (b'q' ∷ [])) execute none 0 0)
run_plan-offline-keeps_example =
    run_plan-offline-keeps clock none IsIdle (λ w h. h) no_server services []
      (plan true (b'q' ∷ [])) execute 0 0 refl refl

run_tests-Stops_example :
    Stops
      (run_tests clock server
        (setting_of services [] (plan false []))
        (test 2 true (b'e' ∷ []) ∷ test 5 true (b'q' ∷ []) ∷ [])
        0).0
run_tests-Stops_example =
    run_tests-Stops clock server (setting_of services [] (plan false []))
      (test 2 true (b'e' ∷ []) ∷ test 5 true (b'q' ∷ []) ∷ []) 0 refl

overall_status-pass_example :
    (overall_status (report_in (run (b'q' ∷ [])).0) ≡ Overall.pass)
    ↔ ((enabled_tests (report_in (run (b'q' ∷ [])).0).outcomes == 0) ≡ false)
      × All IsCalm (report_in (run (b'q' ∷ [])).0).outcomes
overall_status-pass_example = overall_status-pass (report_in (run (b'q' ∷ [])).0)

abbrev values : BySide Value
values = (source_side, Value.int (pos 4)) ∷ []

read_enabled-compare_example : ¬ (
    compare plain_python (request_of (setting_of services [] (plan false [])) good values)
    ≡ err (lit "refused"))
unfolding get uses_target good
read_enabled-compare_example =
    read_enabled-compare plain_python good_row 5 (b'T' ∷ []) known good
      (setting_of services [] (plan false [])) values (lit "refused") reads_good_row (λ uses. tt)
      (λ uses. absurd (cc))

-- A sheet of one row that has nothing.
abbrev empty_plan : Plan
empty_plan = record (plan false []) {
  sheet = record {
    definitions = [];
    problems = record problem { message = lit "Test_ID is empty but required." } ∷ [];
  };
}

abbrev empty_run : Result RunFailure Report × ℕ
unfolding run_plan
empty_run = run_plan clock services [] empty_plan execute (some server) 0 0

read-run_plan-covers_example :
    occurs outcome_row 4 (report_in empty_run.0).outcomes
    ≡ occurs input_row 4 ((4, λ header. Scalar.null) ∷ [])
unfolding empty_run run_plan read_rows
read-run_plan-covers_example =
    read-run_plan-covers clock services [] plain_python known ((4, λ header. Scalar.null) ∷ [])
      empty_plan execute (some server) 0 0 0 (report_in empty_run.0) 4 refl refl
