-- ===== src/Runner/Examples.antt =====
-- Runs of the first engine on two cases, and the theorems about it at them. The world counts the queries executed.
use execution_auto.Base.{
  ℕ, suc, ◌+◌, ◌≡◌, refl, true, false, none, some, [], ◌∷◌, Text, lit, mem_text, All, InOrder,
  occurs, Result, ok, err, pos, and_then, ◌↔◌,
}
use execution_auto.Models.{source_target, validate, execute, RunMode}
use execution_auto.Evaluation.Decimal.{of_int, zero_decimal, le}
use execution_auto.Evaluation.Values.{Scalar, infinity, special, finite}
use execution_auto.Security.SqlGuard.{
  assert_read_only, empty_sql, allowed_first_tokens, forbidden_tokens,
}
use execution_auto.Workbook.TestCases.Examples.{plain_python}
use execution_auto.Execution.World.{Clock}
use execution_auto.Runner.Kinds.{number_eq, equal, invalid_operation, ComparisonOutcome, Formats}
use execution_auto.Runner.Comparators.{variance_of, classify, compare}
use execution_auto.Runner.Comparators.Complete.{Passes, compare-Passes}
use execution_auto.Runner.Comparators.Meaning.{Reconciles, compare_sound}
use execution_auto.Runner.Records.{
  ExecutionStatus, is_status, status_index, ErrorSide, TestCase, ExecutionResult, WorkbookRead,
  RunSummary, result_row, case_row, note_row, is_clean,
}
use execution_auto.Runner.Records.Clean.{is_unclean, is_clean-All}
use execution_auto.Runner.Sides.{uses_side, sql_of, source_side, Factory, Tools}
use execution_auto.Runner.Cases.{Executed, execute_case}
use execution_auto.Runner.Cases.Verdicts.{
  IsRejected, execute_case-Reconciles, execute_case-refused_side,
}
use execution_auto.Runner.Cases.Compile.{validate_cases}
use execution_auto.Runner.Selection.{OnSyntaxError, stop, continue, RunOptions, Selected, select}
use execution_auto.Runner.Selection.Partition.{other_row, Distinct, select-covers}
use execution_auto.Runner.Runs.{RunFailure, is_closed, run, compile_and_go}
use execution_auto.Runner.Runs.Complete.{run-covers}
use execution_auto.Runner.Runs.Gate.{run-validate-keeps, compile_and_go-stop-keeps}

abbrev formats : Formats
formats = record { py = plain_python; whole = λ d. []; fixed = λ d. [] }

abbrev tools : Tools
tools = record { formats = formats; mask = λ s. s; search = λ p i s. false }

abbrev clock : Clock ℕ
clock = record { now = λ w. (0, w); perf_counter = λ w. (0, w); elapsed_ms = λ a b. 0 }

-- Every query returns 3.
abbrev factory : Factory ℕ (Unit {0})
factory = record {
  engine_of = none;
  get_executor = λ connection engine test_id side w. (ok tt, w);
  test_connection = λ e w. w;
  execute_scalar = λ e sql timeout w. (ok (Scalar.integer (pos 3)), suc w);
  validate_syntax = λ e sql timeout w. (none, w);
  close_all = λ w. w;
}

abbrev case_of : Text → ℕ → Text → TestCase
case_of test_id row sql = record {
  test_case_id = test_id;
  row_number = row;
  source_type = none;
  source_connection = b's' ∷ [];
  target_connection = b't' ∷ [];
  source_sql = sql;
  target_sql = sql;
  execution_scope = source_target;
  comparison_rule = equal;
  tolerance = zero_decimal;
  timeout_seconds = 0;
}

abbrev good_case : TestCase
unfolding lit
good_case = case_of (b'A' ∷ []) 3 (lit "SELECT 1")

abbrev bad_case : TestCase
bad_case = case_of (b'B' ∷ []) 2 []

abbrev options_of : RunMode → OnSyntaxError → RunOptions
options_of mode choice = record {
  case_ids = [];
  limit = none;
  fail_fast = false;
  mode = mode;
  on_syntax_error = choice;
  start_row = none;
  end_row = none;
  run_id = [];
}

abbrev sheet : WorkbookRead
sheet = record {
  test_cases = good_case ∷ bad_case ∷ [];
  skipped = record { row_number = 5; test_case_id = b'C' ∷ []; note = [] } ∷ [];
  invalid = [];
}

-- Results where there are any
abbrev result_in : Executed → ExecutionResult → ExecutionResult
result_in (ok r) r' = r
result_in (err e) r' = r'

abbrev summary_in : Result RunFailure RunSummary → RunSummary
summary_in (ok s) = s
summary_in (err e) = record { run_id = []; started_at = 0; finished_at = 0; results = [] }

abbrev passed_case : ExecutionResult
passed_case = record {
  test_case_id = b'A' ∷ [];
  row_number = 3;
  status = ExecutionStatus.pass;
  executed_at = 0;
  run_id = [];
  duration_ms = 0;
  source_result = Scalar.integer (pos 3);
  target_result = Scalar.integer (pos 3);
  variance = some (finite (of_int (pos 0)));
  remarks = lit "Source and target numeric results are equal.";
  error_side = ErrorSide.nowhere;
  error_code = [];
}

passes : (execute_case tools clock factory [] good_case 0).0 ≡ ok passed_case
unfolding execute_case good_case assert_read_only allowed_first_tokens forbidden_tokens and_then lit
passes = refl

abbrev equal_outcome : ComparisonOutcome
equal_outcome = record {
  passed = true;
  variance = some (finite (of_int (pos 0)));
  remarks = lit "Source and target numeric results are equal.";
  profiled = false;
}

three_equals_three :
    compare formats equal
      (Scalar.integer (pos 3))
      (Scalar.integer (pos 3))
      zero_decimal
      source_target
    ≡ ok equal_outcome
unfolding compare and_then lit
three_equals_three = refl

compare_sound_example :
    Reconciles equal zero_decimal source_target
      (classify formats (Scalar.integer (pos 3)))
      (classify formats (Scalar.integer (pos 3)))
compare_sound_example =
    compare_sound formats (Scalar.integer (pos 3)) (Scalar.integer (pos 3)) zero_decimal
      equal_outcome equal source_target three_equals_three refl

threes_differ_by_zero :
    variance_of formats (Scalar.integer (pos 3)) (Scalar.integer (pos 3))
    ≡ ok (some (finite (of_int (pos 0))))
unfolding variance_of
threes_differ_by_zero = refl

not_negative : le zero_decimal zero_decimal ≡ true
unfolding le
not_negative = refl

threes_are_same :
    Reconciles equal zero_decimal source_target
      (classify formats (Scalar.integer (pos 3)))
      (classify formats (Scalar.integer (pos 3)))
unfolding classify number_eq
threes_are_same = refl

compare-Passes_example : Passes (
    compare formats equal
      (Scalar.integer (pos 3))
      (Scalar.integer (pos 3))
      zero_decimal
      source_target)
compare-Passes_example =
    compare-Passes formats (Scalar.integer (pos 3)) (Scalar.integer (pos 3)) zero_decimal equal
      source_target (some (finite (of_int (pos 0)))) not_negative threes_differ_by_zero
      threes_are_same

-- The same infinity on both sides: the variance raises.
compares_infinities :
    compare formats equal
      (Scalar.decimal (special (infinity true)))
      (Scalar.decimal (special (infinity true)))
      zero_decimal
      source_target
    ≡ err invalid_operation
unfolding compare and_then
compares_infinities = refl

is_pass : is_status ExecutionStatus.pass ExecutionStatus.pass ≡ true
unfolding status_index
is_pass = refl

names_source : uses_side source_side source_target ≡ true
unfolding uses_side
names_source = refl

is_empty_sql : assert_read_only (some []) ≡ err empty_sql
unfolding assert_read_only
is_empty_sql = refl

execute_case-Reconciles_example :
    Reconciles equal zero_decimal source_target
      (classify formats (Scalar.integer (pos 3)))
      (classify formats (Scalar.integer (pos 3)))
unfolding good_case
execute_case-Reconciles_example =
    execute_case-Reconciles tools clock factory [] good_case 0 passed_case passes is_pass

execute_case-refused_side_example :
    IsRejected (execute_case tools clock factory [] bad_case 0).0
    × (execute_case tools clock factory [] bad_case 0
        ≡ execute_case tools clock factory [] bad_case 0)
unfolding sql_of
execute_case-refused_side_example =
    execute_case-refused_side tools clock [] bad_case 0 factory factory source_side empty_sql
      names_source is_empty_sql

abbrev both_chosen : Selected
both_chosen = record { chosen = good_case ∷ bad_case ∷ []; others = [] }

chooses_both :
    select (λ s. s) (good_case ∷ bad_case ∷ []) (options_of execute continue) ≡ ok both_chosen
unfolding select and_then
chooses_both = refl

select-covers_example :
    occurs case_row 2 (good_case ∷ bad_case ∷ []) + occurs other_row 2 []
    ≡ occurs case_row 2 (good_case ∷ bad_case ∷ [])
select-covers_example =
    select-covers 2 (λ s. s) (good_case ∷ bad_case ∷ []) (options_of execute continue) both_chosen
      chooses_both

run_of : RunMode → OnSyntaxError → Result RunFailure RunSummary × ℕ
run_of mode choice = run tools clock factory (options_of mode choice) (λ s. s) sheet 0

-- Two queries for the good case, none for the one that the guard refuses
executes_two : (run_of execute continue).1 ≡ 2
unfolding run_of run execute_case good_case assert_read_only allowed_first_tokens forbidden_tokens
    and_then lit
executes_two = refl

stops_at_refused : (run_of execute stop).1 ≡ 0
unfolding is_closed validate_cases run_of run execute_case good_case assert_read_only
    allowed_first_tokens forbidden_tokens and_then lit
stops_at_refused = refl

abbrev summary_of : RunMode → RunSummary
unfolding run_of
summary_of mode = summary_in (run_of mode continue).0

returns :
    (run tools clock factory (options_of execute continue) (λ s. s) sheet 0).0
    ≡ ok (summary_of execute)
unfolding summary_of run_of run execute_case good_case assert_read_only allowed_first_tokens
    forbidden_tokens and_then lit
returns = refl

distinct : Distinct (good_case ∷ bad_case ∷ [])
unfolding good_case mem_text
distinct = (refl, (refl, tt))

run-covers_example :
    (occurs result_row 2 (summary_of execute).results
      ≡ occurs note_row 2 []
        + (occurs note_row 2 sheet.skipped + occurs case_row 2 sheet.test_cases))
    × InOrder result_row (summary_of execute).results
run-covers_example =
    run-covers tools clock factory (options_of execute continue) (λ s. s) sheet 0 distinct
      (summary_of execute) returns 2

run-validate-keeps_example :
    (run tools clock factory (options_of validate continue) (λ s. s) sheet 0).1 ≡ 0
run-validate-keeps_example =
    run-validate-keeps tools clock factory (λ w. w ≡ 0) (λ w h. h)
      (λ connection engine test_id side w h. h) (λ executor sql timeout w h. h) (λ w h. h)
      (options_of validate continue) (λ s. s) sheet 0 refl refl

compile_and_go-stop-keeps_example :
    (compile_and_go tools clock factory
      (options_of execute stop)
      (passed_case ∷ [])
      (good_case ∷ [])
      0).1
    ≡ 0
unfolding is_closed
compile_and_go-stop-keeps_example =
    compile_and_go-stop-keeps tools clock factory (λ w. w ≡ 0) (λ w h. h)
      (λ connection engine test_id side w h. h) (λ executor sql timeout w h. h) (λ w h. h)
      (options_of execute stop) (passed_case ∷ []) (good_case ∷ []) 0 refl refl refl

is_clean-All_example :
    (is_clean (summary_of execute) ≡ true)
    ↔ All (λ r. is_unclean r ≡ false) (summary_of execute).results
is_clean-All_example = is_clean-All (summary_of execute)
